-- ===== src/Waves/History.antt =====
-- Undo and Redo.
use kahuna.Common.{
  ℕ, zero, suc, ◌≤◌, ◌≡◌, refl, ap, ◌∙◌, List, [], ◌∷◌, Option, none, some, length, arith,
}
use kahuna.Decoders.{Text}
use kahuna.Waves.{
  Parts, WaveData, DisplayedItem, Map, map_values, clone, AnalogVarState, without_cache, variable,
  divider, marker, time_line, placeholder, stream, group, decoder,
}
use kahuna.Waves.State.{
  CanvasState, System, with_canvases, current_canvas_state, save_current_canvas, pushed, restore,
  Canvases, undo_rounds, redo_rounds, undo, redo,
}

abbrev pub tail {ℓ} : {A : Type ℓ} → List A → List A
tail [] = []
tail (x ∷ xs) = xs

module _ {P : Parts} where
  -- Without analog caches, a state is its own clone.
  abbrev pub Plain : Map (DisplayedItem P) → Type 0
  Plain m = map_values clone m ≡ m

  without_cache_twice :
      (a : Option (AnalogVarState P)) → without_cache (without_cache a) ≡ without_cache a
  without_cache_twice none = refl
  without_cache_twice (some s) = refl

  clone-clone : (i : DisplayedItem P) → clone (clone i) ≡ clone i
  unfolding clone
  clone-clone (variable v) =
      ap (λ a. variable (record v { analog = a })) (without_cache_twice v.analog)
  clone-clone (divider d) = refl
  clone-clone (marker m) = refl
  clone-clone (time_line t) = refl
  clone-clone (placeholder v) =
      ap (λ a. placeholder (record v { analog = a })) (without_cache_twice v.analog)
  clone-clone (stream s) = refl
  clone-clone (group g) = refl
  clone-clone (decoder d) = refl

  pub map_values-Plain : (m : Map (DisplayedItem P)) → Plain (map_values clone m)
  unfolding map_values
  map_values-Plain [] = refl
  map_values-Plain ((k, i) ∷ m) = rw (clone-clone i, map_values-Plain m) refl

  abbrev pub AllPlain : List (CanvasState P) → Type 0
  AllPlain [] = Unit
  AllPlain (c ∷ cs) = Plain c.displayed_items × AllPlain cs

  -- The waves without their analog caches
  abbrev pub uncached : WaveData P → WaveData P
  uncached w = record w { displayed_items = map_values clone w.displayed_items }

  redo_rounds-suc :
      (n : ℕ) (c : Canvases P) → redo_rounds (suc n) c ≡ redo_rounds 1 (redo_rounds n c)
  unfolding redo_rounds
  redo_rounds-suc zero (w, u, []) = refl
  redo_rounds-suc zero (w, u, p ∷ r) = refl
  redo_rounds-suc (suc n) (w, u, []) = refl
  redo_rounds-suc (suc n) (w, u, p ∷ r) =
      redo_rounds-suc n (restore p w, current_canvas_state w p.message ∷ u, r)

  state_again :
      (p : CanvasState P) (w : WaveData P)
      → Plain p.displayed_items
      → current_canvas_state (restore p w) p.message ≡ p
  unfolding current_canvas_state restore
  state_again p w h = ap (λ m. record p { displayed_items = m }) h

  -- A round of Redo takes a round of Undo back.
  round_back :
      (w : WaveData P) (p : CanvasState P) (u r : List (CanvasState P))
      → Plain p.displayed_items
      → redo_rounds 1 (restore p w, u, current_canvas_state w p.message ∷ r)
        ≡ (uncached w, p ∷ u, r)
  unfolding redo_rounds
  round_back w p u r h = ap (λ q. (uncached w, q ∷ u, r)) (state_again p w h)

  rounds_back :
      (n : ℕ) (w : WaveData P) (u r : List (CanvasState P))
      → n ≤ length u
      → Plain w.displayed_items
      → AllPlain u
      → redo_rounds n (undo_rounds n (w, u, r)) ≡ (w, u, r)
  unfolding undo_rounds redo_rounds
  rounds_back zero w u r l h k = refl
  rounds_back (suc n) w [] r l h k = absurd (omega arith)
  rounds_back (suc n) w (p ∷ u) r l h k =
      redo_rounds-suc n _
      ∙ ap (redo_rounds 1) (rounds_back n (restore p w) u _ (omega arith) k.0 k.1)
      ∙ round_back w p u r k.0
      ∙ ap (λ m. (record w { displayed_items = m }, p ∷ u, r)) h

  all_back :
      (n : ℕ) (w : WaveData P) (u r : List (CanvasState P))
      → suc n ≤ length u
      → AllPlain u
      → redo_rounds (suc n) (undo_rounds (suc n) (w, u, r)) ≡ (uncached w, u, r)
  unfolding undo_rounds
  all_back n w [] r l k = absurd (omega arith)
  all_back n w (p ∷ u) r l k =
      redo_rounds-suc n _
      ∙ ap (redo_rounds 1) (rounds_back n (restore p w) u _ (omega arith) k.0 k.1)
      ∙ round_back w p u r k.0

  undo_at :
      (n : ℕ) (s : System P) {w : WaveData P}
      → s.waves ≡ some w
      → undo n s ≡ with_canvases s (undo_rounds n (w, s.undo_stack, s.redo_stack))
  unfolding undo
  undo_at n s e =
      ap
        (λ o. elim o [
          | none ↦ s
          | some w ↦ with_canvases s (undo_rounds n (w, s.undo_stack, s.redo_stack))
        ])
        e

  pub save_at :
      (message : Text) (s : System P) {w : WaveData P}
      → s.waves ≡ some w
      → save_current_canvas message s ≡ pushed w message s
  unfolding save_current_canvas
  save_at message s e = ap (λ o. elim o [ none ↦ s | some w ↦ pushed w message s ]) e

  -- Redoing as many changes as were undone, where there are as many, brings everything back, but
  -- for the analog caches. The saved states have none.
  pub redo-undo :
      (n : ℕ) (s : System P) {w : WaveData P}
      → s.waves ≡ some w
      → suc n ≤ length s.undo_stack
      → AllPlain s.undo_stack
      → redo (suc n) (undo (suc n) s) ≡ record s { waves = some (uncached w) }
  unfolding redo
  redo-undo n s {w} e l k =
      ap (redo (suc n)) (undo_at (suc n) s e)
      ∙ ap (with_canvases s) (all_back n w s.undo_stack s.redo_stack l k)

  -- The waves `changed` with what is saved of the waves `w`: each field of a canvas, and the items
  -- without their analog caches
  abbrev pub with_canvas_of : WaveData P → WaveData P → WaveData P
  with_canvas_of w changed = record changed {
    focused_item = w.focused_item;
    focused_transaction = w.focused_transaction;
    items_tree = w.items_tree;
    displayed_items = map_values clone w.displayed_items;
    markers = w.markers;
    annotations = w.annotations;
    annotation_groups = w.annotation_groups;
    annotation_list_visible = w.annotation_list_visible;
    selected_annotation = w.selected_annotation;
    annotation_counter = w.annotation_counter;
  }

  -- A canvas state of waves, field by field
  abbrev pub canvas_of : WaveData P → Text → CanvasState P
  canvas_of w message = record {
    message = message;
    focused_item = w.focused_item;
    focused_transaction = w.focused_transaction;
    items_tree = w.items_tree;
    displayed_items = map_values clone w.displayed_items;
    markers = w.markers;
    annotations = w.annotations;
    annotation_group = w.annotation_groups;
    annotation_list = w.annotation_list_visible;
    selected_annotation = w.selected_annotation;
    annotation_counter = w.annotation_counter;
  }
