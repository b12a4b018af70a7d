-- ===== src/Waves/Stacks.antt =====
-- The stacks of Undo and Redo, whatever happens to the canvas.
use kahuna.Common.{
  ℕ, zero, suc, ◌+◌, ◌≤◌, ◌≡◌, refl, ap, List, [], ◌∷◌, Option, none, some, length, arith, ltb,
  Bool-cases, inl, inr,
}
use kahuna.Decoders.{Text}
use kahuna.Waves.{Parts, WaveData}
use kahuna.Waves.State.{
  CanvasState, System, with_canvases, current_canvas_state, save_current_canvas, pushed, restore,
  Canvases, undo_rounds, redo_rounds, undo, redo, without_oldest,
}
use kahuna.Waves.History.{Plain, AllPlain, map_values-Plain}

-- What happens to the stacks: a change saves the canvas and puts any waves in the place of the old
-- ones; other waves are loaded; and the messages Undo and Redo.
pub data Step {P : Parts} : System P → System P → Type 1 where
  change :
      (message : Text) (w : WaveData P) (s : System P)
      → Step s (record (save_current_canvas message s) { waves = some w })
  load : (w : Option (WaveData P)) (s : System P) → Step s (record s { waves = w })
  undone : (n : ℕ) (s : System P) → Step s (undo n s)
  redone : (n : ℕ) (s : System P) → Step s (redo n s)

pub data Reachable {P : Parts} (size : ℕ) : System P → Type 1 where
  start :
      (w : Option (WaveData P))
      → Reachable size
          (record { waves = w; undo_stack = []; redo_stack = []; undo_stack_size = size })
  next : {s t : System P} → Reachable size s → Step s t → Reachable size t

pub record Stacked {P : Parts} (size : ℕ) (s : System P) : Type 0 where
  pub sized : s.undo_stack_size ≡ size
  pub bounded : length s.undo_stack + length s.redo_stack ≤ size
  pub undo_plain : AllPlain s.undo_stack
  pub redo_plain : AllPlain s.redo_stack

length-without_oldest {ℓ} :
    {A : Type ℓ} (x : A) (xs : List A) → length (without_oldest (x ∷ xs)) ≡ length xs
length-without_oldest x [] = refl
length-without_oldest x (y ∷ xs) = ap suc (length-without_oldest y xs)

module _ {P : Parts} where
  without_oldest-AllPlain :
      (c : CanvasState P) (cs : List (CanvasState P))
      → AllPlain (c ∷ cs)
      → AllPlain (without_oldest (c ∷ cs))
  without_oldest-AllPlain c [] h = tt
  without_oldest-AllPlain c (d ∷ cs) h = (h.0, without_oldest-AllPlain d cs h.1)

  state-Plain :
      (w : WaveData P) (message : Text) → Plain (current_canvas_state w message).displayed_items
  unfolding current_canvas_state
  state-Plain w message = map_values-Plain w.displayed_items

  -- Of three parts the stacks' sum and the plain states
  abbrev Fine : ℕ → Canvases P → Type 0
  Fine size (w, u, r) = (length u + length r ≤ size) × AllPlain u × AllPlain r

  undo_rounds-Fine :
      (size n : ℕ) (w : WaveData P) (u r : List (CanvasState P))
      → Fine size (w, u, r)
      → Fine size (undo_rounds n (w, u, r))
  unfolding undo_rounds
  undo_rounds-Fine size zero w u r h = h
  undo_rounds-Fine size (suc n) w [] r h = h
  undo_rounds-Fine size (suc n) w (p ∷ u) r h =
      undo_rounds-Fine size n (restore p w) u _
        (omega (arith, h.0), h.1.1, (state-Plain w p.message, h.2))

  redo_rounds-Fine :
      (size n : ℕ) (w : WaveData P) (u r : List (CanvasState P))
      → Fine size (w, u, r)
      → Fine size (redo_rounds n (w, u, r))
  unfolding redo_rounds
  redo_rounds-Fine size zero w u r h = h
  redo_rounds-Fine size (suc n) w u [] h = h
  redo_rounds-Fine size (suc n) w u (p ∷ r) h =
      redo_rounds-Fine size n (restore p w) _ r
        (omega (arith, h.0), (state-Plain w p.message, h.1), h.2.1)

  save-Fine :
      (w v : WaveData P) (message : Text) (s : System P)
      → Fine s.undo_stack_size (w, s.undo_stack, s.redo_stack)
      → Fine s.undo_stack_size (v, (pushed w message s).undo_stack, [])
  save-Fine w v message s h =
      elim (Bool-cases (ltb s.undo_stack_size (length (c ∷ s.undo_stack)))) [
        | inl full ↦ rw full (
          omega (arith, length-without_oldest c s.undo_stack, h.0),
          without_oldest-AllPlain c s.undo_stack (state-Plain w message, h.1),
          tt,
        )
        | inr room ↦ rw room (ground arith, (state-Plain w message, h.1), tt)
      ]
    where
      c : CanvasState P
      c = current_canvas_state w message

  Fine-Stacked :
      (size : ℕ) (s : System P) (c : Canvases P)
      → s.undo_stack_size ≡ size
      → Fine size c
      → Stacked size (with_canvases s c)
  Fine-Stacked size s c e h = record {
    sized = e;
    bounded = h.0;
    undo_plain = h.1;
    redo_plain = h.2;
  }

  Step-Stacked : (size : ℕ) {s t : System P} → Step s t → Stacked size s → Stacked size t
  unfolding save_current_canvas undo redo
  Step-Stacked size (load w s) h = record {
    sized = h.sized;
    bounded = h.bounded;
    undo_plain = h.undo_plain;
    redo_plain = h.redo_plain;
  }
  Step-Stacked size (change message v s) h =
      elim s.waves
        as (λ o.
          Stacked size
            (record (elim o [ none ↦ s | some w ↦ pushed w message s ]) { waves = some v })) [
              | none ↦ record {
                sized = h.sized;
                bounded = h.bounded;
                undo_plain = h.undo_plain;
                redo_plain = h.redo_plain;
              }
              | some w ↦
                  let fine =
                    save-Fine w v message s (rw h.sized h.bounded, h.undo_plain, h.redo_plain) in
                  record {
                    sized = h.sized;
                    bounded = omega (arith, fine.0, h.sized);
                    undo_plain = fine.1;
                    redo_plain = tt;
                  }
            ]
  Step-Stacked size (undone n s) h =
      elim s.waves
        as (λ o. Stacked size (elim o [
          | none ↦ s
          | some w ↦ with_canvases s (undo_rounds n (w, s.undo_stack, s.redo_stack))
        ])) [
          | none ↦ h
          | some w ↦ Fine-Stacked size s _ h.sized (
              undo_rounds-Fine size n w s.undo_stack s.redo_stack
                (h.bounded, h.undo_plain, h.redo_plain))
        ]
  Step-Stacked size (redone n s) h =
      elim s.waves
        as (λ o. Stacked size (elim o [
          | none ↦ s
          | some w ↦ with_canvases s (redo_rounds n (w, s.undo_stack, s.redo_stack))
        ])) [
          | none ↦ h
          | some w ↦ Fine-Stacked size s _ h.sized (
              redo_rounds-Fine size n w s.undo_stack s.redo_stack
                (h.bounded, h.undo_plain, h.redo_plain))
        ]

  -- However the canvas changes, the two stacks together never hold more states than the
  -- configured size, and no saved state holds an analog cache.
  pub Reachable-Stacked : (size : ℕ) {s : System P} → Reachable size s → Stacked size s
  Reachable-Stacked size (start w) = record {
    sized = refl;
    bounded = omega arith;
    undo_plain = tt;
    redo_plain = tt;
  }
  Reachable-Stacked size (next r st) = Step-Stacked size st (Reachable-Stacked size r)
