-- ===== src/Waves/State.antt =====
-- The canvas states of libsurfer/src/state.rs and the messages Undo and Redo of libsurfer/src/lib.rs. The
-- last element of a stack's vector is the head of its list. Draw commands are left out.
use kahuna.Common.{
  ℕ, ℤ, zero, suc, Bool, List, [], ◌∷◌, Option, none, some, ltb, if◌then◌else◌, length,
}
use kahuna.Decoders.{Text}
use kahuna.Tree.{VisibleItemIndex, Items}
use kahuna.Waves.{Parts, WaveData, Annotation, DisplayedItem, Map, map_values, clone}

pub record CanvasState (P : Parts) : Type 0 where
  pub message : Text
  pub focused_item : Option VisibleItemIndex
  pub focused_transaction : P.FocusedTransaction
  pub items_tree : Items
  pub displayed_items : Map (DisplayedItem P)
  pub markers : Map P.Time
  pub annotations : List (Annotation P)
  pub annotation_group : List P.AnnotationGroup
  pub annotation_list : Bool
  pub selected_annotation : Option P.AnnotationId
  pub annotation_counter : ℤ

pub record System (P : Parts) : Type 0 where
  pub waves : Option (WaveData P)
  pub undo_stack : List (CanvasState P)
  pub redo_stack : List (CanvasState P)
  pub undo_stack_size : ℕ

-- `remove(0)` of a vector whose last element is the head
abbrev pub without_oldest {ℓ} : {A : Type ℓ} → List A → List A
without_oldest [] = []
without_oldest (x ∷ []) = []
without_oldest (x ∷ y ∷ xs) = x ∷ without_oldest (y ∷ xs)

-- The waves, the undo stack and the redo stack
abbrev pub Canvases : Parts → Type 0
Canvases P = WaveData P × List (CanvasState P) × List (CanvasState P)

module _ {P : Parts} where
  unfoldable pub current_canvas_state : WaveData P → Text → CanvasState P
  current_canvas_state w message = record {
    message = message;
    focused_item = w.focused_item;
    focused_transaction = w.focused_transaction;
    items_tree = w.items_tree;
    displayed_items = map_values clone w.displayed_items;
    markers = w.markers;
    annotations = w.annotations;
    annotation_group = w.annotation_groups;
    annotation_list = w.annotation_list_visible;
    selected_annotation = w.selected_annotation;
    annotation_counter = w.annotation_counter;
  }

  abbrev pub pushed : WaveData P → Text → System P → System P
  pushed w message s =
      let stack = current_canvas_state w message ∷ s.undo_stack in
      record s {
        undo_stack = if ltb s.undo_stack_size (length stack) then without_oldest stack else stack;
        redo_stack = [];
      }

  unfoldable pub save_current_canvas : Text → System P → System P
  unfolding current_canvas_state
  save_current_canvas message s = elim s.waves [ none ↦ s | some w ↦ pushed w message s ]

  -- The fields that Undo and Redo take from a saved state
  unfoldable pub restore : CanvasState P → WaveData P → WaveData P
  restore c w = record w {
    focused_item = c.focused_item;
    focused_transaction = c.focused_transaction;
    items_tree = c.items_tree;
    displayed_items = c.displayed_items;
    markers = c.markers;
    annotations = c.annotations;
    annotation_groups = c.annotation_group;
    annotation_list_visible = c.annotation_list;
    selected_annotation = c.selected_annotation;
    annotation_counter = c.annotation_counter;
  }

  unfoldable pub undo_rounds : ℕ → Canvases P → Canvases P
  unfolding current_canvas_state restore
  undo_rounds zero (w, undo, redo) = (w, undo, redo)
  undo_rounds (suc count) (w, [], redo) = (w, [], redo)
  undo_rounds (suc count) (w, prev ∷ undo, redo) =
      undo_rounds count (restore prev w, undo, current_canvas_state w prev.message ∷ redo)

  unfoldable pub redo_rounds : ℕ → Canvases P → Canvases P
  unfolding current_canvas_state restore
  redo_rounds zero (w, undo, redo) = (w, undo, redo)
  redo_rounds (suc count) (w, undo, []) = (w, undo, [])
  redo_rounds (suc count) (w, undo, prev ∷ redo) =
      redo_rounds count (restore prev w, current_canvas_state w prev.message ∷ undo, redo)

  abbrev pub with_canvases : System P → Canvases P → System P
  with_canvases s (w, undo, redo) = record s {
    waves = some w;
    undo_stack = undo;
    redo_stack = redo;
  }

  unfoldable pub undo : ℕ → System P → System P
  unfolding undo_rounds
  undo count s = elim s.waves [
    | none ↦ s
    | some w ↦ with_canvases s (undo_rounds count (w, s.undo_stack, s.redo_stack))
  ]

  unfoldable pub redo : ℕ → System P → System P
  unfolding redo_rounds
  redo count s = elim s.waves [
    | none ↦ s
    | some w ↦ with_canvases s (redo_rounds count (w, s.undo_stack, s.redo_stack))
  ]
