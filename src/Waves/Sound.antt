-- ===== src/Waves/Sound.antt =====
-- The invariant of the displayed items through the canvas states that Undo and Redo hold.
use mathlib.Core.Path.{subst}
use kahuna.Common.{
  ℕ, zero, suc, ◌≤◌, ◌≡◌, refl, sym, ap, ◌∙◌, true, false, List, [], ◌∷◌, Option, none, some,
  length, ok, ◌>>=◌, ltb, if◌then◌else◌, arith, Option-cases, inl, inr, passed, ok-injective,
}
use kahuna.Decoders.{Text}
use kahuna.Tree.{Fallible}
use kahuna.Tree.Edit.{refs}
use kahuna.Tree.Nesting.{WellFormed}
use kahuna.Waves.{Parts, WaveData, Map, get, map_values, clone}
use kahuna.Waves.Refs.{mem, has}
use kahuna.Waves.Consistent.{Consistent}
use kahuna.Waves.Messages.{on_waves}
use kahuna.Waves.History.{save_at}
use kahuna.Waves.State.{
  CanvasState, System, Canvases, with_canvases, current_canvas_state, save_current_canvas, pushed,
  restore, undo_rounds, redo_rounds, undo, redo, without_oldest,
}

pub has-map_values :
    {A B : Type 0} (f : A → B) (r : ℕ) (m : Map A) → has r (map_values f m) ≡ has r m
unfolding get map_values
has-map_values f r [] = refl
has-map_values f r ((j, a) ∷ m) = ground (arith, has-map_values f r m)

module _ {P : Parts} where
  -- The invariant looks at the references, the levels, the keys and the counter only.
  pub Consistent-same :
      (v w : WaveData P)
      → Consistent v
      → refs w.items_tree ≡ refs v.items_tree
      → WellFormed w.items_tree
      → ((r : ℕ) → has r w.displayed_items ≡ has r v.displayed_items)
      → v.display_item_ref_counter ≤ w.display_item_ref_counter
      → Consistent w
  Consistent-same v w c e wf h l = record {
    tree = wf;
    unique = rw e c.unique;
    keyed = λ r. h r ∙ c.keyed r ∙ ap (mem r) (sym e);
    counted = λ r m. omega (arith, c.counted r (rw (← e) m), l);
  }

  -- Saved states can be restored beside the counter of the waves.
  abbrev pub Saved : WaveData P → List (CanvasState P) → Type 0
  Saved w [] = Unit
  Saved w (c ∷ cs) = Consistent (restore c w) × Saved w cs

  pub Saved-mono :
      (v w : WaveData P) (cs : List (CanvasState P))
      → v.display_item_ref_counter ≤ w.display_item_ref_counter
      → Saved v cs
      → Saved w cs
  unfolding restore
  Saved-mono v w [] l s = tt
  Saved-mono v w (c ∷ cs) l s = (
    Consistent-same (restore c v) (restore c w) s.0 refl s.0.tree (λ r. refl) l,
    Saved-mono v w cs l s.1,
  )

  state-Consistent :
      (v w : WaveData P) (message : Text)
      → Consistent w
      → w.display_item_ref_counter ≤ v.display_item_ref_counter
      → Consistent (restore (current_canvas_state w message) v)
  unfolding restore current_canvas_state
  state-Consistent v w message c l =
      Consistent-same w _ c refl c.tree (λ r. has-map_values clone r w.displayed_items) l

  without_oldest-Saved :
      (w : WaveData P) (cs : List (CanvasState P)) → Saved w cs → Saved w (without_oldest cs)
  without_oldest-Saved w [] h = tt
  without_oldest-Saved w (c ∷ []) h = tt
  without_oldest-Saved w (c ∷ d ∷ cs) h = (h.0, without_oldest-Saved w (d ∷ cs) h.1)

  abbrev pub SoundCanvases : Canvases P → Type 0
  SoundCanvases (w, u, r) = Consistent w × Saved w u × Saved w r

  abbrev pub SoundFor : Option (WaveData P) → List (CanvasState P) → List (CanvasState P) → Type 0
  SoundFor none u r = Unit
  SoundFor (some w) u r = SoundCanvases (w, u, r)

  -- The waves and all saved states satisfy the invariant.
  abbrev pub Sound : System P → Type 0
  Sound s = SoundFor s.waves s.undo_stack s.redo_stack

  undo_rounds-Sound :
      (n : ℕ) (w : WaveData P) (u r : List (CanvasState P))
      → SoundCanvases (w, u, r)
      → SoundCanvases (undo_rounds n (w, u, r))
  unfolding undo_rounds restore
  undo_rounds-Sound zero w u r h = h
  undo_rounds-Sound (suc n) w [] r h = h
  undo_rounds-Sound (suc n) w (p ∷ u) r h = undo_rounds-Sound n (restore p w) u _ (
    h.1.0,
    Saved-mono w (restore p w) u (omega arith) h.1.1,
    (
      state-Consistent (restore p w) w p.message h.0 (omega arith),
      Saved-mono w (restore p w) r (omega arith) h.2,
    ),
  )

  redo_rounds-Sound :
      (n : ℕ) (w : WaveData P) (u r : List (CanvasState P))
      → SoundCanvases (w, u, r)
      → SoundCanvases (redo_rounds n (w, u, r))
  unfolding redo_rounds restore
  redo_rounds-Sound zero w u r h = h
  redo_rounds-Sound (suc n) w u [] h = h
  redo_rounds-Sound (suc n) w u (p ∷ r) h = redo_rounds-Sound n (restore p w) _ r (
    h.2.0,
    (
      state-Consistent (restore p w) w p.message h.0 (omega arith),
      Saved-mono w (restore p w) u (omega arith) h.1,
    ),
    Saved-mono w (restore p w) r (omega arith) h.2.1,
  )

  pub undo-Sound : (n : ℕ) (s : System P) → Sound s → Sound (undo n s)
  unfolding undo
  undo-Sound n s h =
      elim s.waves
          as (λ o.
            SoundFor o s.undo_stack s.redo_stack
            → Sound (elim o [
              | none ↦ s
              | some w ↦ with_canvases s (undo_rounds n (w, s.undo_stack, s.redo_stack))
            ])) [ none ↦ λ _. h | some w ↦ λ k. undo_rounds-Sound n w s.undo_stack s.redo_stack k ]
        h

  pub redo-Sound : (n : ℕ) (s : System P) → Sound s → Sound (redo n s)
  unfolding redo
  redo-Sound n s h =
      elim s.waves
          as (λ o.
            SoundFor o s.undo_stack s.redo_stack
            → Sound (elim o [
              | none ↦ s
              | some w ↦ with_canvases s (redo_rounds n (w, s.undo_stack, s.redo_stack))
            ])) [ none ↦ λ _. h | some w ↦ λ k. redo_rounds-Sound n w s.undo_stack s.redo_stack k ]
        h

  pub save_current_canvas-Sound :
      (message : Text) (s : System P) → Sound s → Sound (save_current_canvas message s)
  unfolding save_current_canvas
  save_current_canvas-Sound message s h = elim (Option-cases s.waves) [
    | inl e ↦ subst Sound (sym (ap (λ o. elim o [ none ↦ s | some w ↦ pushed w message s ]) e)) h
    | inr (w, e) ↦ subst Sound (sym (save_at message s e)) (
        subst (λ o. SoundFor o (pushed w message s).undo_stack []) (sym e)
          (saved w (subst (λ o. SoundFor o s.undo_stack s.redo_stack) e h)))
  ]
    where
      saved :
          (w : WaveData P)
          → SoundCanvases (w, s.undo_stack, s.redo_stack)
          → SoundCanvases (w, (pushed w message s).undo_stack, [])
      saved w k =
          elim (ltb s.undo_stack_size (suc (length s.undo_stack)))
            as (λ b. SoundCanvases (
              w,
              if b
                  then without_oldest (current_canvas_state w message ∷ s.undo_stack)
                  else (current_canvas_state w message ∷ s.undo_stack),
              [],
            )) [
              | true ↦ (
                k.0,
                without_oldest-Saved w (current_canvas_state w message ∷ s.undo_stack)
                    (state-Consistent w w message k.0 (omega arith), k.1),
                tt,
              )
              | false ↦ (k.0, (state-Consistent w w message k.0 (omega arith), k.1), tt)
            ]

  -- A handler keeps the invariant, and never takes the counter back.
  abbrev pub Keeper : (WaveData P → Fallible (WaveData P)) → Type 0
  Keeper f =
      (w w' : WaveData P)
      → Consistent w
      → f w ≡ ok w'
      → Consistent w' × (w.display_item_ref_counter ≤ w'.display_item_ref_counter)

  pub on_waves-Sound :
      (f : WaveData P → Fallible (WaveData P)) (s s' : System P)
      → Keeper f
      → Sound s
      → on_waves f s ≡ ok s'
      → Sound s'
  on_waves-Sound f s s' k h e = elim (Option-cases s.waves) [
    | inl none_there ↦ subst Sound (ok-injective (sym (at none_there) ∙ e)) h
    | inr (w, there) ↦
        let (w', rest, done) =
          passed (λ v. ok (record s { waves = some v })) (f w) (sym (at there) ∙ e) in
        let now = subst (λ o. SoundFor o s.undo_stack s.redo_stack) there h in
        let kept = k w w' now.0 done in
        subst Sound (ok-injective rest) (
          kept.0,
          Saved-mono w w' s.undo_stack kept.1 now.1,
          Saved-mono w w' s.redo_stack kept.1 now.2,
        )
  ]
    where
      at :
          {o : Option (WaveData P)}
          → s.waves ≡ o
          → on_waves f s
            ≡ elim o [ none ↦ ok s | some w ↦ f w >>= λ w'. ok (record s { waves = some w' }) ]
      at e =
          ap
            (λ o. elim o [ none ↦ ok s | some w ↦ f w >>= λ w'. ok (record s { waves = some w' }) ])
            e
