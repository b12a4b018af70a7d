-- ===== src/Waves/Edit.antt =====
-- The methods of libsurfer/src/wave_data.rs that add, change and remove displayed items. Each returns
-- the new state behind its result.
use kahuna.Common.{
  ℕ, zero, suc, ◌+◌, ◌-◌, ◌%◌, Bool, true, false, List, [], ◌∷◌, Option, none, some, ◌==◌,
  if◌then◌else◌, length, get_elem?, ok, err, panic, ◌>>=◌,
}
use kahuna.Decoders.{Text}
use kahuna.Tree.{
  DisplayedItemRef, VisibleItemIndex, ItemIndex, Node, Items, TargetPosition, Fallible,
}
use kahuna.Tree.Edit
use kahuna.Tree.Visible.{
  Info, iter_visible, iter_visible_extra, get_visible, get_visible_extra, to_displayed,
  xselect_all_visible,
}
use kahuna.Waves.{
  Parts, WaveData, Annotation, DisplayedItem, divider, marker, time_line, group, Map, get, remove,
  insert, is_attached, is_group, is_placeholder, unwrap_or,
}

-- `unwrap` of a result
abbrev pub unwrap_ok : {A : Type 0} → Fallible A → Fallible A
unwrap_ok (ok a) = ok a
unwrap_ok (err e) = panic
unwrap_ok panic = panic

-- `iter().position(|node| node.item_ref == r)`
abbrev pub next_index : Option ℕ → Option ℕ
next_index none = none
next_index (some i) = some (suc i)

unfoldable pub position_of : DisplayedItemRef → Items → Option ItemIndex
position_of r [] = none
position_of r (n ∷ ns) =
    let later = next_index (position_of r ns) in if n.item_ref == r then some zero else later

-- `iter_visible_extra().find_map(|info| (info.idx == idx).then_some(info.vidx))`
unfoldable pub visible_of : ItemIndex → List Info → Option VisibleItemIndex
visible_of idx [] = none
visible_of idx (i ∷ is) = if i.idx == idx then some i.vidx else visible_of idx is

abbrev pub is_some {ℓ} : {A : Type ℓ} → Option A → Bool
is_some none = false
is_some (some a) = true

abbrev pub moved_focus :
    Bool → Option VisibleItemIndex → Items → ItemIndex → Option VisibleItemIndex
moved_focus true (some focus) items idx = visible_of idx (iter_visible_extra items)
moved_focus true none items idx = none
moved_focus false focus items idx = focus

-- `iter_visible().find_position(|node| node.item_ref == r)`
abbrev pub visible_position : DisplayedItemRef → Items → Option VisibleItemIndex
visible_position r items = position_of r (iter_visible items)

abbrev pub last_visible : Items → Option VisibleItemIndex
last_visible items = let n = length (iter_visible items) in if n == 0 then none else some (n - 1)

-- The focus behind a removal: on the same item, else on the same place, else on the last item.
abbrev pub focus_again :
    Option VisibleItemIndex → DisplayedItemRef → Items → Option VisibleItemIndex
focus_again focus r items = elim (visible_position r items) [
  | some vidx ↦ some vidx
  | none ↦ elim focus [
    | none ↦ last_visible items
    | some old ↦ if is_some (to_displayed items old) then some old else last_visible items
  ]
]

unfoldable pub remove_all : {A : Type 0} → List ℕ → Map A → Map A
remove_all [] m = m
remove_all (r ∷ rs) m = remove_all rs (remove r m)

module _ {P : Parts} where
  -- The place behind an item that is not a folded group, for the node's index and the item.
  abbrev pub position_at : WaveData P → VisibleItemIndex → ItemIndex → Node → Bool → TargetPosition
  position_at w vidx idx node true =
      if node.unfolded
      then record { before = idx + 1; level = (node.level + 1) % 256 }
      else record {
        before = elim (to_displayed w.items_tree (vidx + 1)) [
          | none ↦ length w.items_tree
          | some next ↦ next
        ];
        level = node.level;
      }
  position_at w vidx idx node false = record { before = idx + 1; level = node.level }

  unfoldable pub insert_position : WaveData P → Option VisibleItemIndex → Option TargetPosition
  unfolding to_displayed get_visible_extra
  insert_position w none = none
  insert_position w (some vidx) = elim (to_displayed w.items_tree vidx) [
    | none ↦ none
    | some idx ↦ elim (get_elem? w.items_tree idx) [
      | none ↦ none
      | some node ↦ elim (get node.item_ref w.displayed_items) [
        | none ↦ none
        | some item ↦ some (position_at w vidx idx node (is_group (some item)))
      ]
    ]
  ]

  unfoldable pub end_insert_position : WaveData P → TargetPosition
  end_insert_position w = record { before = length w.items_tree; level = 0 }

  unfoldable pub index_for_ref_or_focus : WaveData P → Option DisplayedItemRef → Option ItemIndex
  index_for_ref_or_focus w (some r) = position_of r w.items_tree
  index_for_ref_or_focus w none = elim w.focused_item [
    | none ↦ none
    | some focus ↦ elim (get_visible_extra w.items_tree focus) [
      | none ↦ none
      | some info ↦ some info.idx
    ]
  ]

  abbrev pub or_focus : WaveData P → Option TargetPosition → TargetPosition
  or_focus w (some target) = target
  or_focus w none = unwrap_or (insert_position w w.focused_item) (end_insert_position w)

  -- The state behind the insertion into the tree, with its index and the new tree
  abbrev pub inserted :
      DisplayedItemRef → DisplayedItem P → Bool → WaveData P → ItemIndex × Items → WaveData P
  inserted item_ref new_item move_focus w (insert_index, items) = record w {
    items_tree = xselect_all_visible items false;
    displayed_items = insert item_ref new_item w.displayed_items;
    display_item_ref_counter = item_ref;
    focused_item = moved_focus move_focus w.focused_item items insert_index;
  }

  -- `display_item_ref_counter` is a `usize` that each item counts up; it does not wrap around.
  unfoldable pub insert_item :
      DisplayedItem P
      → Option TargetPosition
      → Bool
      → WaveData P
      → Fallible (DisplayedItemRef × WaveData P)
  unfolding position_of visible_of
  insert_item new_item target_position move_focus w = do
    let item_ref = w.display_item_ref_counter + 1
    r ← unwrap_ok (Edit.insert_item w.items_tree item_ref (or_focus w target_position))
    ok (item_ref, inserted item_ref new_item move_focus w r)

  unfoldable pub add_divider :
      Option Text → Option VisibleItemIndex → WaveData P → Fallible (DisplayedItemRef × WaveData P)
  add_divider name vidx w =
      insert_item (divider (record { color = none; background_color = none; name = name }))
        (insert_position w vidx) true w

  unfoldable pub add_timeline :
      Option VisibleItemIndex → WaveData P → Fallible (DisplayedItemRef × WaveData P)
  add_timeline vidx w =
      insert_item (time_line (record { color = none; background_color = none; name = none }))
        (insert_position w vidx) true w

  unfoldable pub add_group :
      Text → Option TargetPosition → WaveData P → Fallible (DisplayedItemRef × WaveData P)
  add_group name target w =
      insert_item
        (group (record {
          name = name;
          color = none;
          background_color = none;
          content = [];
          is_open = false;
        }))
        target true w

  abbrev pub focused_ref : WaveData P → Option DisplayedItemRef
  focused_ref w = elim w.focused_item [
    | none ↦ none
    | some focus ↦ elim (get_visible w.items_tree focus) [
      | none ↦ none
      | some node ↦ some node.item_ref
    ]
  ]

  abbrev pub without_marker : Option (DisplayedItem P) → Map P.Time → Map P.Time
  without_marker (some (marker m)) markers = remove m.idx markers
  without_marker (some item) markers = markers
  without_marker none markers = markers

  -- `retain(|annotation| !annotation.is_attached(r))`
  unfoldable pub detached : DisplayedItemRef → List (Annotation P) → List (Annotation P)
  detached r [] = []
  detached r (a ∷ rest_of) =
      let rest = detached r rest_of in if is_attached r a then rest else a ∷ rest

  -- A round of the loop over the references that left the tree
  unfoldable pub forget : DisplayedItemRef → WaveData P → WaveData P
  forget r w = record w {
    displayed_items = remove r w.displayed_items;
    markers = without_marker (get r w.displayed_items) w.markers;
    annotations = detached r w.annotations;
  }

  unfoldable pub forget_all : List DisplayedItemRef → WaveData P → WaveData P
  unfolding forget
  forget_all [] w = w
  forget_all (r ∷ rs) w = forget_all rs (forget r w)

  abbrev pub refocused : WaveData P → Items → Option VisibleItemIndex
  refocused w items = elim (focused_ref w) [
    | none ↦ none
    | some r ↦ focus_again w.focused_item r items
  ]

  -- The end of `remove_displayed_item`, behind the change of the tree
  abbrev pub left_behind : WaveData P → List DisplayedItemRef × Items → Fallible (WaveData P)
  left_behind w (removed, items) =
      ok (record (forget_all removed (record w { items_tree = items })) {
        focused_item = refocused w items;
      })

  unfoldable pub remove_displayed_item : DisplayedItemRef → WaveData P → Fallible (WaveData P)
  unfolding position_of
  remove_displayed_item id w = elim (position_of id w.items_tree) [
    | none ↦ ok w
    | some idx ↦ Edit.remove_recursive w.items_tree idx >>= left_behind w
  ]

  unfoldable pub remove_placeholders : WaveData P → Fallible (WaveData P)
  remove_placeholders w = do
    (removed, items) ←
        Edit.drain_recursive_if w.items_tree
          (λ node. is_placeholder (get node.item_ref w.displayed_items))
    ok (record w { items_tree = items; displayed_items = remove_all removed w.displayed_items })
