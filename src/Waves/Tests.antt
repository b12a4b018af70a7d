-- ===== src/Waves/Tests.antt =====
-- Runs of the displayed items on a group, an item in it and a divider.
use kahuna.Common.{
  ℕ, pos, ◌≡◌, refl, Bool, true, false, List, [], ◌∷◌, Option, none, some, ok, panic, ◌>>=◌, drop,
  arith,
}
use kahuna.Decoders.{Text, codes}
use kahuna.Decoders.Protocols.{spi}
use kahuna.Decoders.Roles.{lane_names, for_protocol}
use kahuna.Tree
use kahuna.Tree.{Node, Items, check_location, subtree_contains}
use kahuna.Tree.Edit
use kahuna.Tree.Edit.{refs}
use kahuna.Tree.Visible.{get_visible, get_visible_extra, to_displayed, xselect_all_visible}
use kahuna.Waves.{
  Parts, WaveData, DisplayedItem, divider, group, Map, get, insert, remove, name, clone, map_values,
}
use kahuna.Waves.Edit.{
  insert_item, insert_position, position_of, end_insert_position, remove_displayed_item, forget_all,
}
use kahuna.Waves.Rows.{add_decoder}
use kahuna.Waves.Refs.{mem}
use kahuna.Waves.Consistent.{Consistent, Removed, remove_displayed_item-Consistent}
use kahuna.Waves.Insert.{insert_item-Consistent}
use kahuna.Waves.State.{System, CanvasState, save_current_canvas, current_canvas_state, undo, redo}
use kahuna.Waves.History.{redo-undo, uncached}
use kahuna.Waves.Stacks.{Step, Reachable, Stacked, Reachable-Stacked}
use kahuna.Waves.Sound.{Sound}
use kahuna.Waves.Messages
use kahuna.Waves.Message.{Message, update}
use kahuna.Waves.Invariant.{update-Sound}

abbrev bare : Parts
bare = record {
  VarId = ℕ;
  ScopeId = ℕ;
  VariableInfo = ℕ;
  VariableNameType = ℕ;
  Scale = ℕ;
  AnalogSettings = ℕ;
  AnalogCache = ℕ;
  StreamRef = ℕ;
  Drawing = ℕ;
  AnnotationGroup = ℕ;
  AnnotationId = ℕ;
  FocusedTransaction = ℕ;
  Time = ℕ;
}

abbrev row : Text → DisplayedItem bare
row t = divider (record { color = none; background_color = none; name = some t })

abbrev node : ℕ → ℕ → Bool → Node
node r l b = record { item_ref = r; level = l; unfolded = b; selected = false }

abbrev tree : Bool → Items
tree b = node 1 0 b ∷ node 2 1 true ∷ node 3 0 true ∷ []

abbrev grouped : Bool → WaveData bare
grouped b = record {
  items_tree = tree b;
  displayed_items =
      (
        1,
        group (record {
          name = codes "bus";
          color = none;
          background_color = none;
          content = [];
          is_open = false;
        }),
      )
      ∷ (2, row (codes "inner"))
      ∷ (3, row (codes "last"))
      ∷ [];
  display_item_ref_counter = 3;
  next_decoder_instance = 0;
  markers = [];
  selected_annotation = none;
  annotations = [];
  annotation_groups = [];
  annotation_list_visible = false;
  annotation_counter = pos 0;
  focused_item = some 0;
  focused_transaction = 0;
}

abbrev shown : Bool → System bare
shown b = record {
  waves = some (grouped b);
  undo_stack = [];
  redo_stack = [];
  undo_stack_size = 50;
}

grouped-Consistent : (b : Bool) → Consistent (grouped b)
unfolding get
grouped-Consistent true = record {
  tree = record { nested = omega arith; fits = omega arith };
  unique = (refl, (refl, (refl, tt)));
  keyed = λ r. ground arith;
  counted = λ r m. ground arith;
}
grouped-Consistent false = record {
  tree = record { nested = omega arith; fits = omega arith };
  unique = (refl, (refl, (refl, tt)));
  keyed = λ r. ground arith;
  counted = λ r m. ground arith;
}

-- Two messages, one after the other
abbrev both : Message bare → Message bare → System bare → Tree.Fallible (System bare)
both m n s = do t ← update m s; update n t

-- A folded group has two visible rows of three, and the third can be focused all the same; then
-- folding all groups panics.
focus_panics : both (Message.focus_item 2) Message.group_fold_all (shown false) ≡ panic
unfolding update Messages.focus_item Messages.group_fold_all save_current_canvas map_values
focus_panics = refl

-- The last row is a group: dissolving it leaves the focus on no row.
dissolve_panics :
    both
      (Message.group_dissolve none)
      Message.group_unfold_all
      (record (shown true) { waves = some (record (grouped true) { focused_item = some 2 }) })
    ≡ panic
unfolding update Messages.group_dissolve Messages.group_fold_all save_current_canvas map_values
    Edit.remove_dissolve get_visible_extra
dissolve_panics = refl

abbrev names_from : List Node → Map (DisplayedItem bare) → List Text
names_from [] m = []
names_from (n ∷ ns) m = elim (get n.item_ref m) [
  | none ↦ names_from ns m
  | some item ↦ name item ∷ names_from ns m
]

abbrev rows_of : Tree.Fallible (ℕ × WaveData bare) → Option (List Text)
rows_of (ok r) = some (names_from (drop 3 r.1.items_tree) r.1.displayed_items)
rows_of other = none

-- Without a focus the rows of a decoder stand behind the last item in the opposite order.
rows_reversed :
    rows_of (add_decoder spi [] none (record (grouped true) { focused_item = none }))
    ≡ some (codes "SPI MISO" ∷ codes "SPI MOSI" ∷ [])
unfolding add_decoder lane_names for_protocol Edit.insert_item insert_position end_insert_position
    xselect_all_visible get insert name
rows_reversed = refl

abbrev left_of : Tree.Fallible (WaveData bare) → Option (List ℕ × Option ℕ)
left_of (ok w) = some (refs w.items_tree, w.focused_item)
left_of other = none

removed_run : left_of (remove_displayed_item 1 (grouped true)) ≡ some (3 ∷ [], some 0)
unfolding remove_displayed_item forget_all get remove Edit.remove_recursive get_visible to_displayed
    get_visible_extra
removed_run = refl

remove_displayed_item-Consistent_example :
    (w' : WaveData bare) × (remove_displayed_item 1 (grouped true) ≡ ok w')
    × Consistent w'
    × (w'.display_item_ref_counter ≡ 3)
    × Removed 1 (grouped true) w'
remove_displayed_item-Consistent_example =
    remove_displayed_item-Consistent 1 (grouped true) (grouped-Consistent true)

insert_item-Consistent_example :
    (w' : WaveData bare) × (insert_item
        (row (codes "new"))
        (some (record { before = 1; level = 1 }))
        true
        (grouped true)
      ≡ ok (4, w'))
    × (mem 4 (1 ∷ 2 ∷ 3 ∷ []) ≡ false)
    × (get 4 w'.displayed_items ≡ some (row (codes "new")))
    × (refs w'.items_tree ≡ 1 ∷ 4 ∷ 2 ∷ 3 ∷ [])
    × Consistent w'
unfolding check_location
insert_item-Consistent_example =
    insert_item-Consistent (row (codes "new")) (some (record { before = 1; level = 1 })) true
      (grouped true) (grouped-Consistent true) (omega arith) refl

-- A system with one saved state
abbrev saved : CanvasState bare
saved = current_canvas_state (grouped false) (codes "Fold group")

redo-undo_example :
    redo 1 (undo 1 (record (shown true) { undo_stack = saved ∷ [] }))
    ≡ record (shown true) { waves = some (uncached (grouped true)); undo_stack = saved ∷ [] }
unfolding current_canvas_state map_values clone
redo-undo_example =
    redo-undo 0 (record (shown true) { undo_stack = saved ∷ [] }) refl (omega arith) (refl, tt)

Reachable-Stacked_example : Stacked 50 (
    undo 1 (record (save_current_canvas (codes "Fold group") (shown true)) {
      waves = some (grouped false);
    }))
Reachable-Stacked_example = Reachable-Stacked 50 (
    Reachable.next
      (Reachable.next (Reachable.start (some (grouped true)))
        (Step.change (codes "Fold group") (grouped false) (shown true)))
      (Step.undone 1 _))

update-Sound_example : Sound (record (save_current_canvas (codes "Fold group") (shown true)) {
  waves = some (record (grouped false) { focused_item = none });
})
unfolding update Messages.group_fold get_visible_extra subtree_contains Edit.xfold
    save_current_canvas position_of
update-Sound_example =
    update-Sound (Message.group_fold (some 1)) (shown true) _ (grouped-Consistent true, tt, tt) refl
