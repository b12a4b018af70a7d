-- ===== src/Tree/Visible.antt =====
-- The iterators over the visible nodes, and the queries and changes by visible index. The three
-- iterators of the source step alike, by `next_visible_item`; each is a loop on fuel here, and the
-- number of nodes is fuel enough, since the index grows with each step.
use kahuna.Common.{
  ℕ, zero, suc, ◌+◌, Bool, false, ◌&&◌, List, [], ◌∷◌, Option, none, some, ltb, leb, if◌then◌else◌,
  length, get_elem?, drop, take, update_at, ok, ◌>>=◌, unwrap,
}
use kahuna.Tree.{Node, Items, ItemIndex, VisibleItemIndex, Fallible, saturating_add}

-- The `while` of `next_visible_item`: how many of the next nodes are deeper than `level`.
unfoldable pub skip_deeper : ℕ → Items → ℕ
skip_deeper level [] = 0
skip_deeper level (x ∷ xs) = if ltb level x.level then suc (skip_deeper level xs) else 0

-- `next_visible_item` behind the look at `items[this_idx]`, which is `this`.
unfoldable pub next_after : Node → Items → ℕ → ℕ
unfolding skip_deeper
next_after this items idx =
    if this.unfolded then idx + 1 else idx + 1 + skip_deeper this.level (drop (idx + 1) items)

unfoldable pub next_visible_item : Items → ℕ → Fallible ℕ
unfolding next_after
next_visible_item items idx = do this ← unwrap (get_elem? items idx); ok (next_after this items idx)

-- `VisibleItemIterator`
unfoldable pub iter_visible_from : ℕ → Items → ℕ → List Node
unfolding next_after
iter_visible_from zero items idx = []
iter_visible_from (suc fuel) items idx = elim (get_elem? items idx) [
  | none ↦ []
  | some n ↦ n ∷ iter_visible_from fuel items (next_after n items idx)
]

unfoldable pub iter_visible : Items → List Node
unfolding iter_visible_from
iter_visible items = iter_visible_from (length items) items 0

pub record Info : Type 0 where
  pub node : Node
  pub idx : ItemIndex
  pub vidx : VisibleItemIndex
  pub has_children : Bool
  pub last : Bool

-- `items.get(i).is_some_and(|item| item.level > level)`
abbrev pub is_deeper : Option Node → ℕ → Bool
is_deeper none level = false
is_deeper (some n) level = ltb level n.level

abbrev pub info_at : Items → Node → ℕ → ℕ → Info
info_at items n idx vidx = record {
  node = n;
  idx = idx;
  vidx = vidx;
  has_children = is_deeper (get_elem? items (idx + 1)) n.level;
  last = leb (length items) (next_after n items idx);
}

-- `VisibleItemIteratorExtraInfo`
unfoldable pub iter_visible_extra_from : ℕ → Items → ℕ → ℕ → List Info
unfolding next_after
iter_visible_extra_from zero items idx vidx = []
iter_visible_extra_from (suc fuel) items idx vidx = elim (get_elem? items idx) [
  | none ↦ []
  | some n ↦
      info_at items n idx vidx
      ∷ iter_visible_extra_from fuel items (next_after n items idx) (vidx + 1)
]

unfoldable pub iter_visible_extra : Items → List Info
unfolding iter_visible_extra_from
iter_visible_extra items = iter_visible_extra_from (length items) items 0 0

unfoldable pub get_visible : Items → VisibleItemIndex → Option Node
unfolding iter_visible
get_visible items vidx = get_elem? (iter_visible items) vidx

unfoldable pub get_visible_extra : Items → VisibleItemIndex → Option Info
unfolding iter_visible_extra
get_visible_extra items vidx = get_elem? (iter_visible_extra items) vidx

unfoldable pub to_displayed : Items → VisibleItemIndex → Option ItemIndex
unfolding get_visible_extra
to_displayed items vidx = elim (get_visible_extra items vidx) [ none ↦ none | some i ↦ some i.idx ]

-- `VisibleItemIteratorMut` in a loop whose body changes the node with visible index `v` by `f v`.
unfoldable pub update_visible_from : ℕ → (ℕ → Node → Node) → Items → ℕ → ℕ → Items
unfolding next_after
update_visible_from zero f items idx vidx = items
update_visible_from (suc fuel) f items idx vidx = elim (get_elem? items idx) [
  | none ↦ items
  | some n ↦
      update_visible_from fuel f (update_at idx (f vidx) items) (next_after n items idx) (vidx + 1)
]

abbrev pub select : Bool → Node → Node
select b n = record n { selected = b }

unfoldable pub xselect : Items → VisibleItemIndex → Bool → Items
unfolding to_displayed
xselect items vidx b = elim (to_displayed items vidx) [
  | none ↦ items
  | some i ↦ update_at i (select b) items
]

unfoldable pub xselect_all_visible : Items → Bool → Items
unfolding update_visible_from
xselect_all_visible items b = update_visible_from (length items) (λ _. select b) items 0 0

-- `from < to` decides the order of the ends, and both ends belong to the range.
unfoldable pub xselect_visible_range : Items → VisibleItemIndex → VisibleItemIndex → Bool → Items
unfolding update_visible_from
xselect_visible_range items from to b =
    let lo = if ltb from to then from else to in
    let hi = if ltb from to then to + 1 else from + 1 in
    update_visible_from (length items) (λ v n. if leb lo v && ltb v hi then select b n else n) items
      0 0

-- The half-open range of levels that an item may be dropped at, above the visible item `vidx`.
abbrev pub room_below : (Node → Bool) → Node → ℕ
room_below f n = saturating_add n.level (if f n && n.unfolded then 2 else 1)

unfoldable pub levels_between : (Node → Bool) → List Node → ℕ × ℕ
levels_between f [] = (0, 1)
levels_between f (last ∷ []) = (0, room_below f last)
levels_between f (pre ∷ post ∷ rest) = (post.level, room_below f pre)

unfoldable pub valid_levels_visible : Items → VisibleItemIndex → (Node → Bool) → ℕ × ℕ
unfolding iter_visible levels_between
valid_levels_visible items zero f = (0, 1)
valid_levels_visible items (suc split) f =
    levels_between f (take 2 (drop split (iter_visible items)))
