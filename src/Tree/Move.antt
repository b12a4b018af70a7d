-- ===== src/Tree/Move.antt =====
-- `move_item` and `move_items`. An error of `move_item` may come after nodes were changed, so
-- what these functions return is the vector as they leave it, beside the result.
pub mod Block
pub mod Refs
pub mod Keeps
pub mod Correct
use kahuna.Common.{
  ℕ, zero, suc, ◌+◌, ◌-◌, ◌%◌, Bool, false, ◌&&◌, ◌||◌, not, List, [], ◌∷◌, ◌++◌, Option, none,
  some, ltb, leb, ◌==◌, if◌then◌else◌, length, get_elem?, take, drop, slice, without, insert_all,
  ok, err, panic, ◌>>=◌, unwrap, require,
}
use kahuna.Tree.{
  Node, Items, ItemIndex, VisibleItemIndex, TargetPosition, invalid_index, invalid_level,
  circular_move, Fallible, saturating_sub, subtree_end, check_location,
}
use kahuna.Tree.Visible.{to_displayed}

-- `(i16::from(elem.level) + level_corr).try_into::<u8>()`, where the correction is `to - from`.
unfoldable pub shift_level : ℕ → ℕ → ℕ → Option ℕ
shift_level from to level =
    if ltb (level + to) from
    then none
    else if ltb 255 (level + to - from)
    then none
    else some (level + to - from)

abbrev pub Changed : Type 0 → Type 0
Changed A = Fallible A × Items

unfoldable pub shift_all : ℕ → ℕ → Items → Changed (Unit {0})
unfolding shift_level
shift_all from to [] = (ok tt, [])
shift_all from to (x ∷ xs) =
    let rest = shift_all from to xs in
    elim (shift_level from to x.level) [
      | none ↦ (err invalid_level, x ∷ xs)
      | some l ↦ (rest.0, record x { level = l } ∷ rest.1)
    ]

unfoldable pub shift_subtree_to_level : Items → ℕ → Changed (Unit {0})
unfolding shift_all
shift_subtree_to_level [] target = (ok tt, [])
shift_subtree_to_level (x ∷ xs) target = shift_all x.level target (x ∷ xs)

-- `indices.into_iter().sorted_by_key(|ii| usize::MAX - ii.0)`
abbrev pub insert_sorted : ItemIndex → List ItemIndex → List ItemIndex
insert_sorted i [] = i ∷ []
insert_sorted i (j ∷ js) = if ltb i j then j ∷ insert_sorted i js else i ∷ j ∷ js

abbrev pub sorted_back_to_front : List ItemIndex → List ItemIndex
sorted_back_to_front [] = []
sorted_back_to_front (i ∷ is) = insert_sorted i (sorted_back_to_front is)

-- `dedup()` of itertools: of a run of equal elements the first is kept.
abbrev pub dedup_after : ItemIndex → List ItemIndex → List ItemIndex
dedup_after i [] = []
dedup_after i (j ∷ js) = let rest = dedup_after j js in if i == j then rest else j ∷ rest

abbrev pub dedup : List ItemIndex → List ItemIndex
dedup [] = []
dedup (i ∷ is) = i ∷ dedup_after i is

-- The variables of the loop of `move_items`.
pub record Moving : Type 0 where
  pub result : Items
  pub extracted : Items
  pub shifted_target : ℕ

-- One round: the subtree is measured in `items`, and taken out of `result`. The subtraction does
-- not wrap: a target behind `start` and not in the subtree is not before its end.
unfoldable pub extract_one : Items → ℕ → ItemIndex → Moving → Fallible Moving
unfolding subtree_end shift_subtree_to_level
extract_one items level start m = do
  end ← subtree_end items start
  if leb (start + 1) m.shifted_target && ltb m.shifted_target end
      then err circular_move
      else require (leb end (length m.result)) (do
        let shifted = shift_subtree_to_level (slice start end m.result) level
        _ ← shifted.0
        ok (record {
          result = without start end m.result;
          extracted = shifted.1 ++ m.extracted;
          shifted_target =
              if ltb start m.shifted_target
              then m.shifted_target - (end - start)
              else m.shifted_target;
        }))

unfoldable pub extract_all : Items → ℕ → List ItemIndex → Moving → Fallible Moving
unfolding extract_one
extract_all items level [] m = ok m
extract_all items level (i ∷ is) m = do
  m' ← extract_one items level i m
  extract_all items level is m'

-- `if let Some(idx) = indices.last() && idx.0 >= self.items.len()`
abbrev pub last_out_of_range : ℕ → List ItemIndex → Bool
last_out_of_range n [] = false
last_out_of_range n (i ∷ []) = leb n i
last_out_of_range n (i ∷ j ∷ is) = last_out_of_range n (j ∷ is)

unfoldable pub move_items : Items → List ItemIndex → TargetPosition → Fallible Items
unfolding extract_all check_location
move_items items indices target =
    if last_out_of_range (length items) indices then err invalid_index else do
      m ←
          extract_all items target.level (dedup (sorted_back_to_front indices))
            (record { result = items; extracted = []; shifted_target = target.before })
      _ ← check_location m.result (record { before = m.shifted_target; level = target.level })
      let moved = insert_all m.shifted_target m.extracted m.result
      require (length items == length moved) (ok moved)

pub data MoveDir : Type 0 where
  up down : MoveDir

-- The loop of `visible_predecessor`; `zero` is the underflow of `idx -= 1`.
unfoldable pub predecessor_from : Items → ℕ → ℕ → ℕ → ℕ → Fallible ℕ
predecessor_from items start_level limit candidate zero = panic
predecessor_from items start_level limit candidate (suc idx) = elim (get_elem? items idx) [
  | none ↦ panic
  | some n ↦
      let closer = ltb n.level limit in
      let limit' = if closer then n.level else limit in
      let candidate' = if closer && not n.unfolded then idx else candidate in
      let rest = predecessor_from items start_level limit' candidate' idx in
      if leb n.level start_level || idx == 0 then ok candidate' else rest
]

unfoldable pub visible_predecessor : Items → ℕ → Fallible (Option ℕ)
unfolding predecessor_from
visible_predecessor items idx = if idx == 0 || ltb (length items) idx then ok none else do
  this ← unwrap (get_elem? items idx)
  above ← unwrap (get_elem? items (idx - 1))
  found ← predecessor_from items this.level above.level (idx - 1) idx
  ok (some found)

-- `shift_subtree_to_level(&mut self.items[idx..end], level)?`, and then the result `vidx`.
unfoldable pub shift_in_place : Items → ℕ → ℕ → ℕ → VisibleItemIndex → Changed VisibleItemIndex
unfolding shift_subtree_to_level
shift_in_place items idx end level vidx =
    let shifted = shift_subtree_to_level (slice idx end items) level in
    (shifted.0 >>= (λ _. ok vidx), take idx items ++ (shifted.1 ++ drop end items))

-- `self.move_items(..)?`, and then the result `vidx`; an error leaves the vector as it was.
unfoldable pub move_one :
    Items → ItemIndex → TargetPosition → VisibleItemIndex → Changed VisibleItemIndex
unfolding move_items
move_one items idx target vidx = elim (move_items items (idx ∷ []) target) [
  | ok moved ↦ (ok vidx, moved)
  | err e ↦ (err e, items)
  | panic ↦ (panic, items)
]

-- The last arm of `MoveDir::Down`: jump over the next sibling.
unfoldable pub jump_over : Items → ItemIndex → ℕ → ℕ → VisibleItemIndex → Changed VisibleItemIndex
unfolding subtree_end move_one
jump_over items idx end this_level vidx = elim (subtree_end items end) [
  | ok behind ↦ move_one items idx (record { before = behind; level = this_level }) (vidx + 1)
  | err e ↦ (err e, items)
  | panic ↦ (panic, items)
]

unfoldable pub move_down :
    Items → ItemIndex → ℕ → ℕ → (Node → Bool) → VisibleItemIndex → Changed VisibleItemIndex
unfolding shift_in_place move_one jump_over
move_down items idx end this_level f vidx = elim (get_elem? items end) [
  | none ↦ shift_in_place items idx end (saturating_sub this_level 1) vidx
  | some n ↦
      if ltb n.level this_level
      then shift_in_place items idx end (this_level - 1) vidx
      else if n.unfolded && f n
      then move_one items idx (record { before = end + 1; level = (n.level + 1) % 256 }) (vidx + 1)
      else jump_over items idx end this_level vidx
]

-- `VisibleItemIndex(vidx.0 - 1)`: where this is reached something visible is above, so `vidx` is
-- not 0.
unfoldable pub move_up :
    Items → ItemIndex → ℕ → ℕ → (Node → Bool) → VisibleItemIndex → Changed VisibleItemIndex
unfolding visible_predecessor shift_in_place move_one
move_up items idx end this_level f vidx = elim (visible_predecessor items idx) [
  | err e ↦ (err e, items)
  | panic ↦ (panic, items)
  | ok none ↦ (ok vidx, items)
  | ok (some i) ↦ elim (get_elem? items i) [
    | none ↦ (panic, items)
    | some n ↦
        if leb this_level n.level && f n && n.unfolded || ltb this_level n.level
        then shift_in_place items idx end ((this_level + 1) % 256) vidx
        else move_one items idx (record { before = i; level = n.level }) (vidx - 1)
  ]
]

abbrev pub move_in :
    MoveDir
    → Items
    → ItemIndex
    → ℕ
    → ℕ
    → (Node → Bool)
    → VisibleItemIndex
    → Changed VisibleItemIndex
move_in down = move_down
move_in up = move_up

-- `self.items[idx].level` and `self.subtree_end(idx)`
abbrev pub measure : Items → ItemIndex → Fallible (ℕ × ℕ)
measure items idx = do
  this ← unwrap (get_elem? items idx)
  end ← subtree_end items idx
  ok (this.level, end)

unfoldable pub move_item :
    Items → VisibleItemIndex → MoveDir → (Node → Bool) → Changed VisibleItemIndex
unfolding to_displayed move_down move_up
move_item items vidx direction f = elim (to_displayed items vidx) [
  | none ↦ (err invalid_index, items)
  | some idx ↦ elim (measure items idx) [
    | ok (this_level, end) ↦ move_in direction items idx end this_level f vidx
    | err e ↦ (err e, items)
    | panic ↦ (panic, items)
  ]
]
