-- ===== src/Tree/Tests.antt =====
-- Runs of the tree's methods, and the theorems at concrete trees.
use mathlib.Core.List.{Perm}
use kahuna.Common.{
  ℕ, ◌+◌, ◌↔◌, Bool, true, false, List, [], ◌∷◌, ◌++◌, ◌≡◌, refl, map, ok, Outcome, Safe, length,
  arith, none, ◌==◌, take, drop,
}
use kahuna.Tree.{Node, Items, MoveError, TargetPosition, check_location, subtree_contains}
use kahuna.Tree.Split.{SplitAt, ClosedBy}
use kahuna.Tree.Nesting.{WellFormed}
use kahuna.Tree.Location.{Located, check_location_iff}
use kahuna.Tree.Preserve.{insert_item-WellFormed}
use kahuna.Tree.Remove.{xfolded}
use kahuna.Tree.Correct.{remove_recursive_correct, remove_dissolve_correct, xfold_correct}
use kahuna.Tree.Drain.{kept, gone, NoneIs, drain_recursive_if_correct}
use kahuna.Tree.Contains.{subtree_contains_lem}
use kahuna.Tree.Visible.{iter_visible}
use kahuna.Tree.Edit.{
  remove_recursive, remove_dissolve, refs, drain_recursive_if, insert_item, new_node, xfold, raise,
}
use kahuna.Tree.Move.{move_items}
use kahuna.Tree.Move.Correct.{move_items_keeps}

abbrev node : ℕ → ℕ → Bool → Node
node r l u = record { item_ref = r; level = l; unfolded = u; selected = false }

-- `test_tree` of the source's tests
abbrev test_tree : Items
test_tree =
    node 0 0 true
    ∷ node 1 0 false
    ∷ node 2 0 false
    ∷ node 20 1 true
    ∷ node 200 2 true
    ∷ node 3 0 true
    ∷ node 30 1 true
    ∷ node 31 1 true
    ∷ node 4 0 true
    ∷ node 5 0 true
    ∷ []

test_tree-WellFormed : WellFormed test_tree
test_tree-WellFormed = omega arith

iter_visible_test : refs (iter_visible test_tree) ≡ 0 ∷ 1 ∷ 2 ∷ 3 ∷ 30 ∷ 31 ∷ 4 ∷ 5 ∷ []
unfolding iter_visible
iter_visible_test = refl

abbrev to : ℕ → ℕ → TargetPosition
to b l = record { before = b; level = l }

abbrev order : Outcome MoveError Items → List ℕ
order (ok t) = refs t
order _ = []

-- `test_move_items_before_self_shallower` of the source
move_items_test :
    order (move_items test_tree (0 ∷ 4 ∷ 9 ∷ []) (to 4 1))
    ≡ 1 ∷ 2 ∷ 20 ∷ 0 ∷ 200 ∷ 5 ∷ 3 ∷ 30 ∷ 31 ∷ 4 ∷ []
unfolding move_items
move_items_test = refl

abbrev dropped : Node → Bool
dropped n = n.item_ref == 2

abbrev leaf :
    (i : ℕ) (n : Node)
    → test_tree ≡ take i test_tree ++ n ∷ drop (i + 1) test_tree
    → i ≡ length (take i test_tree)
    → ClosedBy n.level (drop (i + 1) test_tree)
    → SplitAt test_tree i
leaf i n e h c = record {
  above = take i test_tree;
  root = n;
  inner = [];
  below = drop (i + 1) test_tree;
  splits = e;
  at_root = h;
  deeper = tt;
  closed = c;
}

check_location_iff_example : (check_location test_tree (to 4 2) ≡ ok tt) ↔ Located test_tree 4 2
check_location_iff_example = check_location_iff (to 4 2) test_tree-WellFormed (omega arith)

insert_item-WellFormed_example : WellFormed (node 0 0 true ∷ new_node 7 1 ∷ node 1 0 true ∷ [])
insert_item-WellFormed_example =
    insert_item-WellFormed {items = node 0 0 true ∷ node 1 0 true ∷ []} 7 (to 1 1) {idx = 1}
      (omega arith) (omega arith) inserted
  where
    inserted :
        insert_item (node 0 0 true ∷ node 1 0 true ∷ []) 7 (to 1 1)
        ≡ ok (1, node 0 0 true ∷ new_node 7 1 ∷ node 1 0 true ∷ [])
    inserted = unfold insert_item in refl

remove_recursive_correct_example :
    (s : SplitAt test_tree 2) × (remove_recursive test_tree 2
      ≡ ok (refs (s.root ∷ s.inner), s.above ++ s.below))
    × WellFormed (s.above ++ s.below)
remove_recursive_correct_example =
    remove_recursive_correct test_tree 2 test_tree-WellFormed (omega arith)

remove_dissolve_correct_example :
    (s : SplitAt test_tree 2) × (remove_dissolve test_tree 2
      ≡ ok (s.root.item_ref, s.above ++ (map raise s.inner ++ s.below)))
    × WellFormed (s.above ++ (map raise s.inner ++ s.below))
remove_dissolve_correct_example =
    remove_dissolve_correct test_tree 2 test_tree-WellFormed (omega arith)

xfold_correct_example :
    (s : SplitAt test_tree 5) × (xfold test_tree 5 false ≡ ok (xfolded s false))
    × WellFormed (xfolded s false)
xfold_correct_example = xfold_correct test_tree 5 false test_tree-WellFormed (omega arith)

drain_recursive_if_correct_example :
    (drain_recursive_if test_tree dropped
      ≡ ok (refs (gone dropped none test_tree), kept dropped none test_tree))
    × NoneIs dropped (kept dropped none test_tree)
    × WellFormed (kept dropped none test_tree)
drain_recursive_if_correct_example =
    drain_recursive_if_correct test_tree dropped test_tree-WellFormed

move_items_keeps_example :
    Safe
      (λ after. WellFormed after × Perm (refs after) (refs test_tree))
      (move_items test_tree (1 ∷ 8 ∷ []) (to 5 1))
move_items_keeps_example =
    move_items_keeps test_tree (1 ∷ 8 ∷ []) (to 5 1) test_tree-WellFormed (omega arith) (
      (leaf 8 (node 4 0 true) refl refl (omega arith), omega arith),
      ((leaf 1 (node 1 0 false) refl refl (omega arith), omega arith), tt),
    )

-- Node 20 is not under node 0, and `subtree_contains` says that it is.
subtree_contains_lem_example : subtree_contains test_tree 0 3 ≡ ok true
subtree_contains_lem_example = subtree_contains_lem test_tree 0 3 (omega arith)

abbrev nested_tree : Items
nested_tree = node 0 0 true ∷ node 1 1 true ∷ node 2 0 true ∷ node 3 0 true ∷ []

-- A root and the node under it are moved to the end, and node 2 is taken along.
move_items_nested_test : order (move_items nested_tree (0 ∷ 1 ∷ []) (to 4 0)) ≡ 3 ∷ 0 ∷ 2 ∷ 1 ∷ []
unfolding move_items
move_items_nested_test = refl
