-- ===== src/Tree.antt =====
-- libsurfer/src/displayed_item_tree.rs: the tree of displayed items, a flat vector of nodes with
-- nesting levels. Here are its types and its queries by index; the changing methods are in the
-- children. The newtypes `DisplayedItemRef`, `VisibleItemIndex` and `ItemIndex` wrap a `usize`
-- each and are numbers here. A `u8` level is a number, with the wrap-around written out.
pub mod Split
pub mod Nesting
pub mod Remove
pub mod Location
pub mod Preserve
pub mod Correct
pub mod Drain
pub mod Contains
pub mod Visible
pub mod Edit
pub mod Move
mod Tests
use kahuna.Common.{
  ℕ, suc, ◌+◌, ◌-◌, ◌%◌, Bool, true, false, ◌&&◌, List, [], ◌∷◌, Option, none, some, ltb, leb, ◌==◌,
  if◌then◌else◌, length, get_elem?, drop, Outcome, ok, err, panic, ◌>>=◌, unwrap, min,
}

abbrev pub DisplayedItemRef : Type 0
DisplayedItemRef = ℕ

abbrev pub VisibleItemIndex : Type 0
VisibleItemIndex = ℕ

abbrev pub ItemIndex : Type 0
ItemIndex = ℕ

pub record Node : Type 0 where
  pub item_ref : DisplayedItemRef
  pub level : ℕ
  pub unfolded : Bool
  pub selected : Bool

pub data MoveError : Type 0 where
  invalid_index invalid_level circular_move level_too_deep : MoveError

pub record TargetPosition : Type 0 where
  pub before : ItemIndex
  pub level : ℕ

abbrev pub Items : Type 0
Items = List Node

abbrev pub Fallible : Type 0 → Type 0
Fallible A = Outcome MoveError A

-- `u8::saturating_add` and `u8::saturating_sub`
abbrev pub saturating_add : ℕ → ℕ → ℕ
saturating_add a b = min 255 (a + b)

abbrev pub saturating_sub : ℕ → ℕ → ℕ
saturating_sub a b = a - b

-- The `find_map` of `subtree_end`: the index of the first node that is no deeper than `level`.
unfoldable pub find_le : ℕ → Items → Option ℕ
find_le level [] = none
find_le level (x ∷ xs) =
    if leb x.level level
    then some 0
    else elim (find_le level xs) [ none ↦ none | some i ↦ some (suc i) ]

abbrev pub offset_or : Option ℕ → ℕ → ℕ → ℕ
offset_or none base all = all
offset_or (some i) base all = i + base

unfoldable pub subtree_end : Items → ItemIndex → Fallible ℕ
unfolding find_le
subtree_end items start = do
  root ← unwrap (get_elem? items start)
  ok (offset_or (find_le root.level (drop (start + 1) items)) (start + 1) (length items))

-- The levels that `check_location` accepts between the two neighbours, as an inclusive range.
abbrev pub LevelRange : Type 0
LevelRange = ℕ × ℕ

unfoldable pub valid_range : Option Node → Option Node → LevelRange
valid_range none after = (0, 0)
valid_range (some b) none = (0, saturating_add b.level 1)
valid_range (some b) (some a) =
    if ltb b.level a.level
    then (a.level, a.level)
    else if a.level == b.level
    then (b.level, saturating_add a.level 1)
    else (a.level, saturating_add b.level 1)

-- `before.checked_sub(1).and_then(|i| items.get(i))`
abbrev pub node_before : Items → ℕ → Option Node
node_before items n = if n == 0 then none else get_elem? items (n - 1)

unfoldable pub check_location : Items → TargetPosition → Fallible (Unit {0})
unfolding valid_range
check_location items target =
    if ltb (length items) target.before
    then err invalid_index
    else let range =
        valid_range (node_before items target.before) (get_elem? items target.before) in
      if leb range.0 target.level && leb target.level range.1 then ok tt else err invalid_level

-- `subtree_contains`, as it is written: the range ends where the subtree of `candidate` does.
unfoldable pub subtree_contains : Items → ItemIndex → ItemIndex → Fallible Bool
subtree_contains items root candidate = do
  end ← subtree_end items candidate
  ok (leb root candidate && ltb candidate end)
