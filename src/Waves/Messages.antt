-- ===== src/Waves/Messages.antt =====
-- The messages of libsurfer/src/lib.rs that change the displayed items. `none` from a handler, its early
-- return, is the state at that point; draw commands are left out.
use kahuna.Common.{
  ℕ, ◌+◌, ◌-◌, ◌%◌, ◌^◌, Bool, true, false, not, ◌&&◌, List, [], ◌∷◌, ◌++◌, Option, none, some, ltb,
  leb, ◌==◌, if◌then◌else◌, length, update_at, ok, panic, ◌>>=◌, min,
}
use kahuna.Decoders.{Text, codes, digits_of}
use kahuna.Decoders.Roles.{RoleBindings, DecoderSettings}
use kahuna.Tree.{
  DisplayedItemRef, VisibleItemIndex, ItemIndex, Node, Items, Fallible, subtree_contains,
}
use kahuna.Tree.Edit
use kahuna.Tree.Move.{MoveDir, up, down}
use kahuna.Tree.Visible.{
  iter_visible, get_visible, get_visible_extra, to_displayed, xselect, xselect_all_visible,
  xselect_visible_range,
}
use kahuna.Waves.{Parts, WaveData, DisplayedItem, Map, get, remove, name, unwrap_or}
use kahuna.Waves.Edit.{
  index_for_ref_or_focus, add_divider, add_timeline, remove_displayed_item, remove_placeholders,
}
use kahuna.Waves.Rows.{set_color, set_background_color, set_name, configure_decoder}
use kahuna.Waves.State.{System, save_current_canvas}

-- `MessageTarget<VisibleItemIndex>`
pub data MessageTarget : Type 0 where
  explicit : VisibleItemIndex → MessageTarget
  current_selection : MessageTarget

abbrev pub filter_selected : List Node → List Node
filter_selected [] = []
filter_selected (n ∷ ns) = if n.selected then n ∷ filter_selected ns else filter_selected ns

unfoldable pub iter_visible_selected : Items → List Node
unfolding iter_visible
iter_visible_selected items = filter_selected (iter_visible items)

-- `entry(r).and_modify(f)`
unfoldable pub modify : {A : Type 0} → (A → A) → DisplayedItemRef → Map A → Map A
modify f r [] = []
modify f r ((j, a) ∷ m) = (j, if j == r then f a else a) ∷ modify f r m

-- `sorted_unstable_by(|a, b| Ord::cmp(b, a))`
abbrev pub insert_down : ℕ → List ℕ → List ℕ
insert_down r [] = r ∷ []
insert_down r (s ∷ ss) = if leb s r then r ∷ s ∷ ss else s ∷ insert_down r ss

unfoldable pub sorted_down : List ℕ → List ℕ
sorted_down [] = []
sorted_down (r ∷ rs) = insert_down r (sorted_down rs)

-- `wrapping_add` and `saturating_sub` of a `usize`
abbrev pub moved_to : MoveDir → Option VisibleItemIndex → ℕ → ℕ → ℕ
moved_to up focus count visible = unwrap_or focus visible - count
moved_to down focus count visible =
    min (visible - 1) ((unwrap_or focus (2 ^ 64 - 1) + count) % 2 ^ 64)

abbrev pub or_else {ℓ} : {A : Type ℓ} → Option A → Option A → Option A
or_else none o = o
or_else (some a) o = some a

abbrev pub toggled : Node → Node
toggled n = record n { selected = not n.selected }

abbrev pub selected_too : Bool → Option VisibleItemIndex → VisibleItemIndex → Items → Items
selected_too false focus new items = items
selected_too true none new items = xselect items new true
selected_too true (some old) new items = xselect (xselect items old true) new true

abbrev pub fold_message : Bool → Bool → Text
fold_message open_it recursive =
    (if open_it then codes "Unfold group" else codes "Fold group")
    ++ (if recursive then codes " recursive" else [])

-- The focus, which is lost where it lies in the subtree; "Inconsistent state" is a panic.
abbrev pub kept_focus :
    Items → ItemIndex → Option VisibleItemIndex → Fallible (Option VisibleItemIndex)
kept_focus items item none = ok none
kept_focus items item (some focus) = elim (get_visible_extra items focus) [
  | none ↦ panic
  | some info ↦ do
    inside ← subtree_contains items item info.idx
    ok (if inside then none else some focus)
]

abbrev pub folded : Bool → Items → ItemIndex → Bool → Fallible Items
folded true items item open_it = Edit.xfold_recursive items item open_it
folded false items item open_it = Edit.xfold items item open_it

abbrev pub focus_at_root :
    Bool → Items → Option VisibleItemIndex → Fallible (Option VisibleItemIndex)
focus_at_root open_it items none = ok none
focus_at_root open_it items (some focus) = elim (get_visible items focus) [
  | none ↦ panic
  | some node ↦ ok (if not open_it && ltb 0 node.level then none else some focus)
]

module _ {P : Parts} where
  -- A handler of the waves, which are there or not
  abbrev pub on_waves : (WaveData P → Fallible (WaveData P)) → System P → Fallible (System P)
  on_waves f s = elim s.waves [
    | none ↦ ok s
    | some w ↦ do w' ← f w; ok (record s { waves = some w' })
  ]

  abbrev pub after_insert : Fallible (DisplayedItemRef × WaveData P) → Fallible (WaveData P)
  after_insert m = m >>= λ r. ok r.1

  unfoldable pub add_divider_message :
      Option Text → Option VisibleItemIndex → System P → Fallible (System P)
  unfolding add_divider
  add_divider_message name vidx s =
      on_waves (λ w. after_insert (add_divider name vidx w))
        (save_current_canvas (codes "Add divider") s)

  unfoldable pub add_timeline_message : Option VisibleItemIndex → System P → Fallible (System P)
  unfolding add_timeline
  add_timeline_message vidx s =
      on_waves (λ w. after_insert (add_timeline vidx w))
        (save_current_canvas (codes "Add timeline") s)

  unfoldable pub focus_item : VisibleItemIndex → System P → Fallible (System P)
  focus_item idx s =
      on_waves
        (λ w.
          ok (
            if ltb idx (length w.displayed_items) then record w { focused_item = some idx } else w))
        s

  unfoldable pub item_select_range : VisibleItemIndex → System P → Fallible (System P)
  item_select_range select_to s =
      on_waves
        (λ w. elim w.focused_item [
          | none ↦ ok w
          | some select_from ↦ ok (record w {
            items_tree = xselect_visible_range w.items_tree select_from select_to true;
          })
        ])
        s

  unfoldable pub item_select_all : Bool → System P → Fallible (System P)
  item_select_all b s =
      on_waves (λ w. ok (record w { items_tree = xselect_all_visible w.items_tree b })) s

  unfoldable pub set_item_selected : VisibleItemIndex → Bool → System P → Fallible (System P)
  set_item_selected vidx selected s =
      on_waves (λ w. ok (record w { items_tree = xselect w.items_tree vidx selected })) s

  unfoldable pub toggle_item_selected : Option VisibleItemIndex → System P → Fallible (System P)
  unfolding to_displayed
  toggle_item_selected vidx s =
      on_waves
        (λ w. elim (or_else vidx w.focused_item) [
          | none ↦ ok w
          | some v ↦ elim (to_displayed w.items_tree v) [
            | none ↦ ok w
            | some item ↦ ok (record w { items_tree = update_at item toggled w.items_tree })
          ]
        ])
        s

  unfoldable pub unfocus_item : System P → Fallible (System P)
  unfocus_item s = on_waves (λ w. ok (record w { focused_item = none })) s

  abbrev pub focus_moved : MoveDir → ℕ → Bool → WaveData P → WaveData P
  focus_moved direction count b w =
      let visible = length (iter_visible w.items_tree) in
      let new = moved_to direction w.focused_item count visible in
      if visible == 0 then w else record w {
        items_tree = selected_too b w.focused_item new w.items_tree;
        focused_item = some new;
      }

  unfoldable pub move_focus : MoveDir → ℕ → Bool → System P → Fallible (System P)
  unfolding iter_visible
  move_focus direction count b s = on_waves (λ w. ok (focus_moved direction count b w)) s

  -- What a message does to one item, or to the focused item and the selected ones
  abbrev pub modify_each :
      (DisplayedItem P → DisplayedItem P)
      → List Node
      → Map (DisplayedItem P)
      → Map (DisplayedItem P)
  modify_each f [] m = m
  modify_each f (n ∷ ns) m = modify_each f ns (modify f n.item_ref m)

  abbrev pub modify_selected : (DisplayedItem P → DisplayedItem P) → WaveData P → WaveData P
  modify_selected f w = record w {
    displayed_items = modify_each f (iter_visible_selected w.items_tree) w.displayed_items;
  }

  abbrev pub modify_visible :
      (DisplayedItem P → DisplayedItem P) → Option Node → WaveData P → WaveData P
  modify_visible f none w = w
  modify_visible f (some node) w = record w {
    displayed_items = modify f node.item_ref w.displayed_items;
  }

  abbrev pub modify_target :
      (DisplayedItem P → DisplayedItem P) → MessageTarget → WaveData P → WaveData P
  modify_target f (explicit vidx) w = modify_visible f (get_visible w.items_tree vidx) w
  modify_target f current_selection w = elim w.focused_item [
    | none ↦ modify_selected f w
    | some focus ↦ elim (get_visible w.items_tree focus) [
      | none ↦ w
      | some node ↦ modify_selected f (modify_visible f (some node) w)
    ]
  ]

  unfoldable pub item_color_change : MessageTarget → Option Text → System P → Fallible (System P)
  unfolding modify iter_visible_selected
  item_color_change target color s =
      on_waves (λ w. ok (modify_target (set_color color) target w))
        (save_current_canvas (codes "Change item color to " ++ unwrap_or color (codes "default")) s)

  unfoldable pub item_background_color_change :
      MessageTarget → Option Text → System P → Fallible (System P)
  unfolding modify iter_visible_selected
  item_background_color_change target color s =
      on_waves (λ w. ok (modify_target (set_background_color color) target w))
        (save_current_canvas
          (codes "Change item background color to " ++ unwrap_or color (codes "default")) s)

  unfoldable pub item_name_change :
      Option VisibleItemIndex → Option Text → System P → Fallible (System P)
  unfolding modify
  item_name_change vidx name s =
      on_waves
        (λ w. elim (or_else vidx w.focused_item) [
          | none ↦ ok w
          | some v ↦ ok (modify_visible (set_name name) (get_visible w.items_tree v) w)
        ])
        (save_current_canvas (codes "Change item name to " ++ unwrap_or name (codes "default")) s)

  unfoldable pub item_name_reset : MessageTarget → System P → Fallible (System P)
  unfolding modify iter_visible_selected
  item_name_reset (explicit vidx) s =
      on_waves (λ w. ok (modify_visible (set_name none) (get_visible w.items_tree vidx) w))
        (save_current_canvas (codes "Resetting item name(s)") s)
  item_name_reset current_selection s =
      on_waves (λ w. ok (modify_selected (set_name none) w))
        (save_current_canvas (codes "Resetting item name(s)") s)

  unfoldable pub remove_each : List DisplayedItemRef → WaveData P → Fallible (WaveData P)
  unfolding remove_displayed_item
  remove_each [] w = ok w
  remove_each (r ∷ rs) w = remove_displayed_item r w >>= remove_each rs

  -- The name of the only item, where there is one
  abbrev pub removal_of : List DisplayedItemRef → WaveData P → Text
  removal_of [] w = codes "Remove 0 items"
  removal_of (r ∷ []) w = elim (get r w.displayed_items) [
    | none ↦ []
    | some item ↦ codes "Remove item " ++ name item
  ]
  removal_of (r ∷ q ∷ rs) w =
      codes "Remove " ++ (digits_of 10 (length (r ∷ q ∷ rs)) ++ codes " items")

  abbrev pub removal_message : List DisplayedItemRef → Option (WaveData P) → Text
  removal_message items none = []
  removal_message items (some w) = removal_of items w

  unfoldable pub remove_items : List DisplayedItemRef → System P → Fallible (System P)
  unfolding remove_each sorted_down
  remove_items items s =
      on_waves (remove_each (sorted_down items))
        (save_current_canvas (removal_message items s.waves) s)

  abbrev pub dissolve_at : WaveData P → ItemIndex → Fallible (WaveData P)
  dissolve_at w item_index = do
    (removed, items) ← Edit.remove_dissolve w.items_tree item_index
    ok (record w { items_tree = items; displayed_items = remove removed w.displayed_items })

  unfoldable pub group_dissolve : Option DisplayedItemRef → System P → Fallible (System P)
  unfolding index_for_ref_or_focus
  group_dissolve item_ref s =
      on_waves
        (λ w. elim (index_for_ref_or_focus w item_ref) [
          | none ↦ ok w
          | some item_index ↦ dissolve_at w item_index
        ])
        (save_current_canvas (codes "Dissolve group") s)

  abbrev pub fold_at : Bool → Bool → WaveData P → ItemIndex → Fallible (WaveData P)
  fold_at open_it recursive w item = do
    focus ← kept_focus w.items_tree item w.focused_item
    items ← folded recursive w.items_tree item open_it
    ok (record w { items_tree = items; focused_item = focus })

  -- GroupFold, GroupUnfold and their recursive forms
  unfoldable pub group_fold : Bool → Bool → Option DisplayedItemRef → System P → Fallible (System P)
  unfolding index_for_ref_or_focus
  group_fold open_it recursive item_ref s =
      on_waves
        (λ w. elim (index_for_ref_or_focus w item_ref) [
          | none ↦ ok w
          | some item ↦ fold_at open_it recursive w item
        ])
        (save_current_canvas (fold_message open_it recursive) s)

  -- GroupFoldAll and GroupUnfoldAll; the two texts are as in the source.
  unfoldable pub group_fold_all : Bool → System P → Fallible (System P)
  unfolding get_visible
  group_fold_all open_it s =
      on_waves
        (λ w. do
          focus ← focus_at_root open_it w.items_tree w.focused_item
          ok (record w { items_tree = Edit.xfold_all w.items_tree open_it; focused_item = focus }))
        (save_current_canvas
          (if open_it then codes "Fold all groups" else codes "Unfold all groups") s)

  unfoldable pub remove_placeholders_message : System P → Fallible (System P)
  unfolding remove_placeholders
  remove_placeholders_message s = on_waves remove_placeholders s

  unfoldable pub decoder_configure :
      ℕ → DecoderSettings → RoleBindings P.VarId P.ScopeId → System P → Fallible (System P)
  unfolding configure_decoder
  decoder_configure instance_id settings bindings s =
      on_waves (λ w. ok (configure_decoder instance_id settings bindings w))
        (save_current_canvas (codes "Configure decoder") s)
