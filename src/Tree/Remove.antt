-- ===== src/Tree/Remove.antt =====
-- What the methods that take an index do to the subtree at that index and to the rest.
use kahuna.Common.{
  ◌+◌, ◌≡◌, refl, ap, ◌∙◌, Bool, true, false, [], ◌∷◌, ◌++◌, map, ok, arith, append_assoc,
  without-append, slice-append, update_range-append, get_elem?-append_of_eq, update_at-append,
  slice, without, update_range, update_at, length-append,
}
use kahuna.Tree.{Node, Items, ItemIndex}
use kahuna.Tree.Split.{SplitAt, behind, subtree_end_split, root_at}
use kahuna.Tree.Edit.{
  refs, remove_recursive, remove_dissolve, raise, fold, deselect, marked, xfold, xfold_recursive,
}

-- The vector behind `xfold`.
abbrev pub xfolded : {items : Items} {idx : ItemIndex} → SplitAt items idx → Bool → Items
xfolded s true = s.above ++ fold true s.root ∷ (s.inner ++ s.below)
xfolded s false = s.above ++ deselect (fold false s.root) ∷ (map deselect s.inner ++ s.below)

module _ {items : Items} {idx : ItemIndex} (s : SplitAt items idx) where
  open s use {above, root, inner, below, splits, at_root, deeper, closed}

  pub slice_subtree : slice idx (behind s) items ≡ root ∷ inner
  slice_subtree = rw splits (slice-append above (root ∷ inner) below at_root (omega arith))

  pub without_subtree : without idx (behind s) items ≡ above ++ below
  without_subtree = rw splits (without-append above (root ∷ inner) below at_root (omega arith))

  -- `remove_recursive` takes out the node and its subtree, in order, and nothing else.
  pub remove_recursive_split : remove_recursive items idx ≡ ok (refs (root ∷ inner), above ++ below)
  unfolding remove_recursive
  remove_recursive_split = rw (subtree_end_split s, slice_subtree, without_subtree)

  update_inner :
      (f : Node → Node) (g : Node)
      → update_range (idx + 1) (behind s) f (above ++ g ∷ (inner ++ below))
        ≡ above ++ g ∷ (map f inner ++ below)
  update_inner f g = rw (← append_assoc above (g ∷ []) (inner ++ below)) (
      update_range-append (above ++ g ∷ []) inner below
        (omega (arith, at_root, length-append above (g ∷ []))) refl f
      ∙ append_assoc above (g ∷ []) (map f inner ++ below))

  -- `remove_dissolve` takes out the node alone; its subtree stays in place, one level up.
  pub remove_dissolve_split :
      remove_dissolve items idx ≡ ok (root.item_ref, above ++ (map raise inner ++ below))
  unfolding remove_dissolve
  remove_dissolve_split =
      rw (subtree_end_split s, raised)
        (rw (get_elem?-append_of_eq above (map raise inner ++ below) root idx at_root) (
          ap (λ xs. ok (root.item_ref, xs))
            (without-append above (root ∷ []) (map raise inner ++ below) at_root refl)))
    where
      raised :
          update_range (idx + 1) (behind s) raise items ≡ above ++ root ∷ (map raise inner ++ below)
      raised = rw splits (update_inner raise root)

  root_folded : (b : Bool) → update_at idx (fold b) items ≡ above ++ fold b root ∷ (inner ++ below)
  root_folded b = rw splits (update_at-append above (inner ++ below) root (fold b) idx at_root)

  folded_split : (b : Bool) → SplitAt (update_at idx (fold b) items) idx
  folded_split b = record {
    above = above;
    root = fold b root;
    inner = inner;
    below = below;
    splits = root_folded b;
    at_root = at_root;
    deeper = deeper;
    closed = closed;
  }

  -- `xfold` marks the node; on folding it also deselects the node and its whole subtree.
  pub xfold_split : (b : Bool) → xfold items idx b ≡ ok (xfolded s b)
  unfolding xfold folded_split
  xfold_split true = rw (root_at s, root_folded true)
  xfold_split false =
      rw (root_at s, subtree_end_split (folded_split false), root_folded false)
        (ap ok (
          update_range-append above (fold false root ∷ inner) below at_root (omega arith) deselect))

  -- `xfold_recursive` marks the node and its subtree; on folding it deselects the subtree, and
  -- not the node, which stays visible.
  pub xfold_recursive_split :
      (b : Bool)
      → xfold_recursive items idx b ≡ ok (above ++ fold b root ∷ (map (marked b) inner ++ below))
  unfolding xfold_recursive
  xfold_recursive_split b =
      rw (subtree_end_split s, root_folded b) (ap ok (update_inner (marked b) (fold b root)))
