-- ===== src/Tree/Edit.antt =====
-- The methods that insert, remove and fold. Each returns the new vector behind its result.
use kahuna.Common.{
  ℕ, zero, suc, ◌+◌, ◌%◌, Bool, true, false, not, ◌&&◌, List, [], ◌∷◌, ◌++◌, map, none, some, ltb,
  if◌then◌else◌, length, get_elem?, slice, without, insert_all, update_range, update_at, ok, panic,
  ◌>>=◌, unwrap,
}
use kahuna.Tree.{
  DisplayedItemRef, Node, Items, ItemIndex, TargetPosition, Fallible, subtree_end, check_location,
}

abbrev pub new_node : DisplayedItemRef → ℕ → Node
new_node item l = record { item_ref = item; level = l; unfolded = true; selected = false }

unfoldable pub insert_item :
    Items → DisplayedItemRef → TargetPosition → Fallible (ItemIndex × Items)
unfolding check_location
insert_item items item position = do
  _ ← check_location items position
  ok (position.before, insert_all position.before (new_node item position.level ∷ []) items)

abbrev pub refs : Items → List DisplayedItemRef
refs = map (λ x. x.item_ref)

unfoldable pub remove_recursive : Items → ItemIndex → Fallible (List DisplayedItemRef × Items)
unfolding subtree_end
remove_recursive items item = do
  end ← subtree_end items item
  ok (refs (slice item end items), without item end items)

-- `x.level -= 1` on a `u8`
abbrev pub raise : Node → Node
raise x = record x { level = (x.level + 255) % 256 }

unfoldable pub remove_dissolve : Items → ItemIndex → Fallible (DisplayedItemRef × Items)
unfolding subtree_end
remove_dissolve items item = do
  end ← subtree_end items item
  let raised = update_range (item + 1) end raise items
  removed ← unwrap (get_elem? raised item)
  ok (removed.item_ref, without item (item + 1) raised)

-- The loop of `drain_recursive_if`. The nodes behind `idx` get fewer in each round, so their
-- number is fuel enough; without fuel it would not have ended.
unfoldable pub drain_from :
    ℕ → (Node → Bool) → ℕ → Items → List DisplayedItemRef → Fallible (List DisplayedItemRef × Items)
unfolding subtree_end
drain_from zero f idx items removed = if ltb idx (length items) then panic else ok (removed, items)
drain_from (suc fuel) f idx items removed = elim (get_elem? items idx) [
  | none ↦ ok (removed, items)
  | some n ↦ elim (f n) [
    | true ↦ do
      end ← subtree_end items idx
      drain_from fuel f idx (without idx end items) (removed ++ refs (slice idx end items))
    | false ↦ drain_from fuel f (idx + 1) items removed
  ]
]

unfoldable pub drain_recursive_if : Items → (Node → Bool) → Fallible (List DisplayedItemRef × Items)
unfolding drain_from
drain_recursive_if items f = drain_from (length items) f 0 items []

abbrev pub fold : Bool → Node → Node
fold b n = record n { unfolded = b }

abbrev pub deselect : Node → Node
deselect n = record n { selected = false }

unfoldable pub xfold : Items → ItemIndex → Bool → Fallible Items
unfolding subtree_end
xfold items item b = do
  _ ← unwrap (get_elem? items item)
  let folded = update_at item (fold b) items
  if b
      then ok folded
      else do end ← subtree_end folded item; ok (update_range item end deselect folded)

unfoldable pub xfold_all : Items → Bool → Items
xfold_all items b =
    map (λ x. if not b && ltb 0 x.level then deselect (fold b x) else fold b x) items

-- The body of the loop of `xfold_recursive`.
abbrev pub marked : Bool → Node → Node
marked b x = if not b then deselect (fold b x) else fold b x

unfoldable pub xfold_recursive : Items → ItemIndex → Bool → Fallible Items
unfolding subtree_end
xfold_recursive items item b = do
  end ← subtree_end items item
  let folded = update_at item (fold b) items
  ok (update_range (item + 1) end (marked b) folded)
