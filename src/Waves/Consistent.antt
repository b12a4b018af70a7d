-- ===== src/Waves/Consistent.antt =====
-- The invariant of the displayed items: each node of the tree has its item, and the methods keep it so.
use mathlib.Core.Path.{subst}
use kahuna.Common.{
  ℕ, ◌≤◌, ◌≡◌, refl, sym, ap, ◌∙◌, true, false, not, ◌&&◌, List, [], ◌∷◌, ◌++◌, none, some, ok,
  ◌>>=◌, ◌⊎◌, arith, map-append, Option-cases, inl, inr,
}
use kahuna.Tree.{Items, ItemIndex, DisplayedItemRef}
use kahuna.Tree.Edit
use kahuna.Tree.Edit.{refs, new_node}
use kahuna.Tree.Split.{SplitAt, root_at}
use kahuna.Tree.Nesting.{WellFormed}
use kahuna.Tree.Correct.{remove_recursive_correct}
use kahuna.Waves.{Parts, WaveData}
use kahuna.Waves.Edit.{
  forget, forget_all, remove_all, left_behind, remove_displayed_item, position_of, refocused,
}
use kahuna.Waves.Refs.{
  mem, Unique, has, mem-append, mem-without, Unique-without, has-remove_all, position_of-lt,
  position_of-at, position_of-none,
}

-- The tree is well-formed and holds each reference once; it holds those that have an item and no
-- other; and none is above the counter.
pub record Consistent {P : Parts} (w : WaveData P) : Type 0 where
  pub tree : WellFormed w.items_tree
  pub unique : Unique (refs w.items_tree)
  pub keyed : (r : DisplayedItemRef) → has r w.displayed_items ≡ mem r (refs w.items_tree)
  pub counted :
      (r : DisplayedItemRef) → mem r (refs w.items_tree) ≡ true → r ≤ w.display_item_ref_counter

module _ {P : Parts} where
  forget_all-items :
      (rs : List ℕ) (w : WaveData P)
      → (forget_all rs w).displayed_items ≡ remove_all rs w.displayed_items
  unfolding forget_all remove_all
  forget_all-items [] w = refl
  forget_all-items (r ∷ rs) w = forget_all-items rs (forget r w)

  forget_all-tree : (rs : List ℕ) (w : WaveData P) → (forget_all rs w).items_tree ≡ w.items_tree
  unfolding forget_all
  forget_all-tree [] w = refl
  forget_all-tree (r ∷ rs) w = forget_all-tree rs (forget r w)

  forget_all-counter :
      (rs : List ℕ) (w : WaveData P)
      → (forget_all rs w).display_item_ref_counter ≡ w.display_item_ref_counter
  unfolding forget_all
  forget_all-counter [] w = refl
  forget_all-counter (r ∷ rs) w = forget_all-counter rs (forget r w)

  -- The invariant looks at three fields only.
  Consistent-fields :
      (v w : WaveData P)
      → v.items_tree ≡ w.items_tree
      → v.displayed_items ≡ w.displayed_items
      → v.display_item_ref_counter ≡ w.display_item_ref_counter
      → Consistent v
      → Consistent w
  Consistent-fields v w t i n c = record {
    tree = rw (← t) c.tree;
    unique = rw (← t) c.unique;
    keyed = λ r. rw (← t, ← i) (c.keyed r);
    counted = λ r m. rw (← n) (c.counted r (rw t m));
  }

  -- A part of the tree is taken out with its items; the rest may change its levels.
  pub without_part :
      (w : WaveData P) (above part below items : Items)
      → Consistent w
      → w.items_tree ≡ above ++ (part ++ below)
      → refs items ≡ refs above ++ refs below
      → WellFormed items
      → Consistent (record w {
        items_tree = items;
        displayed_items = remove_all (refs part) w.displayed_items;
      })
  without_part w above part below items c e together wf = record {
    tree = wf;
    unique = rw together (Unique-without (refs above) (refs part) (refs below) apart);
    keyed = λ r.
        has-remove_all r (refs part) w.displayed_items
        ∙ ap (λ b. not (mem r (refs part)) && b) (c.keyed r ∙ ap (mem r) split)
        ∙ mem-without r (refs above) (refs part) (refs below) apart
        ∙ ap (mem r) (sym together);
    counted = λ r m. c.counted r (rw split (left r (rw together at m)));
  }
    where
      split : refs w.items_tree ≡ refs above ++ (refs part ++ refs below)
      split = rw e (simp map-append)

      apart : Unique (refs above ++ (refs part ++ refs below))
      apart = subst Unique split c.unique

      left :
          (r : ℕ)
          → mem r (refs above ++ refs below) ≡ true
          → mem r (refs above ++ (refs part ++ refs below)) ≡ true
      left r m = ground (
        arith,
        mem-append r (refs above) (refs part ++ refs below),
        mem-append r (refs part) (refs below),
        mem-append r (refs above) (refs below),
      )

  -- What a removal did: nothing where the item is not in the tree, and else the subtree went.
  abbrev pub Removed : DisplayedItemRef → WaveData P → WaveData P → Type 0
  Removed id w w' =
      ((mem id (refs w.items_tree) ≡ false) × (w' ≡ w))
      ⊎ ((idx : ItemIndex) × (s : SplitAt w.items_tree idx) × (s.root.item_ref ≡ id)
          × (w'.items_tree ≡ s.above ++ s.below))

  absent_at :
      (id : DisplayedItemRef) (w : WaveData P)
      → position_of id w.items_tree ≡ none
      → remove_displayed_item id w ≡ ok w
  unfolding remove_displayed_item
  absent_at id w e =
      ap
        (λ o. elim o [
          | none ↦ ok w
          | some idx ↦ Edit.remove_recursive w.items_tree idx >>= left_behind w
        ])
        e

  removed_at :
      (id : DisplayedItemRef) (w : WaveData P) (idx : ItemIndex) (rs : List DisplayedItemRef)
      (items : Items)
      → position_of id w.items_tree ≡ some idx
      → Edit.remove_recursive w.items_tree idx ≡ ok (rs, items)
      → remove_displayed_item id w ≡ left_behind w (rs, items)
  unfolding remove_displayed_item
  removed_at id w idx rs items e h =
      ap
        (λ o. elim o [
          | none ↦ ok w
          | some i ↦ Edit.remove_recursive w.items_tree i >>= left_behind w
        ])
        e
      ∙ ap (λ o. o >>= left_behind w) h

  -- Removing any reference does not panic. It takes out the item and the items of its subtree and
  -- no other, and keeps the invariant.
  pub remove_displayed_item-Consistent :
      (id : DisplayedItemRef) (w : WaveData P)
      → Consistent w
      → (w' : WaveData P) × (remove_displayed_item id w ≡ ok w')
        × Consistent w'
        × (w'.display_item_ref_counter ≡ w.display_item_ref_counter)
        × Removed id w w'
  unfolding remove_displayed_item
  remove_displayed_item-Consistent id w c = elim (Option-cases (position_of id w.items_tree)) [
    | inl absent ↦
        (w, absent_at id w absent, c, refl, inl (position_of-none id w.items_tree absent, refl))
    | inr (idx, found) ↦
        let (s, removes, wf) =
          remove_recursive_correct w.items_tree idx c.tree
            (position_of-lt id w.items_tree idx found) in
        let left : WaveData P =
          forget_all (refs (s.root ∷ s.inner)) (record w { items_tree = s.above ++ s.below }) in
        (
          record left { focused_item = refocused w (s.above ++ s.below) },
          removed_at id w idx (refs (s.root ∷ s.inner)) (s.above ++ s.below) found removes,
          Consistent-fields
              (record w {
                items_tree = s.above ++ s.below;
                displayed_items = remove_all (refs (s.root ∷ s.inner)) w.displayed_items;
              })
              _ (sym (forget_all-tree _ _)) (sym (forget_all-items _ _))
              (sym (forget_all-counter _ _))
              (without_part w s.above (s.root ∷ s.inner) s.below (s.above ++ s.below) c s.splits
                (map-append _ s.above s.below) wf),
          forget_all-counter _ _,
          inr (
            idx,
            s,
            position_of-at id w.items_tree idx s.root found (root_at s),
            forget_all-tree _ _,
          ),
        )
  ]
