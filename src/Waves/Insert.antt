-- ===== src/Waves/Insert.antt =====
-- The invariant of the displayed items and `insert_item`.
use kahuna.Common.{
  ℕ, ◌+◌, ◌<◌, ◌≡◌, refl, sym, ap, ◌∙◌, Bool, false, ◌||◌, List, [], ◌∷◌, ◌++◌, take, drop, length,
  Option, some, ok, ◌>>=◌, arith, take-append-drop, map-append, insert_all, ◌==◌, Bool-cases, inl,
  inr, map-take, map-drop,
}
use kahuna.Tree.{Items, DisplayedItemRef, TargetPosition, check_location}
use kahuna.Tree.Edit
use kahuna.Tree.Edit.{refs, new_node}
use kahuna.Tree.Nesting.{WellFormed}
use kahuna.Tree.Preserve.{insert_item-WellFormed}
use kahuna.Tree.Correct.{WellFormed-levels}
use kahuna.Tree.Visible.{xselect_all_visible, select}
use kahuna.Waves.{Parts, WaveData, DisplayedItem, get, insert}
use kahuna.Waves.Edit.{insert_item, or_focus, inserted, unwrap_ok}
use kahuna.Waves.Refs.{
  mem, Unique, mem-append, Unique-append, Unique-append_left, Unique-append_right, Unique-apart,
  has-insert, update_visible_from-Same,
}
use kahuna.Waves.Consistent.{Consistent}

xselect_all_visible-refs :
    (items : Items) (b : Bool) → refs (xselect_all_visible items b) ≡ refs items
unfolding xselect_all_visible
xselect_all_visible-refs items b =
    (update_visible_from-Same (length items) (λ _. select b) items 0 0 (λ v n. (refl, refl))).0

xselect_all_visible-WellFormed :
    (items : Items) (b : Bool) → WellFormed items → WellFormed (xselect_all_visible items b)
unfolding xselect_all_visible
xselect_all_visible-WellFormed items b = WellFormed-levels items _ (
    sym (update_visible_from-Same (length items) (λ _. select b) items 0 0 (λ v n. (refl, refl))).1)

-- A new reference between two lists.
mem-between :
    (r new : ℕ) (xs ys : List ℕ) → mem r (xs ++ (new ∷ [] ++ ys)) ≡ (new == r || mem r (xs ++ ys))
mem-between r new xs ys = ground (arith, mem-append r xs (new ∷ ys), mem-append r xs ys)

Unique-between :
    (new : ℕ) (xs ys : List ℕ)
    → mem new (xs ++ ys) ≡ false
    → Unique (xs ++ ys)
    → Unique (xs ++ (new ∷ [] ++ ys))
Unique-between new xs ys h u =
    Unique-append xs (new ∷ ys) (Unique-append_left xs ys u)
      (ground (arith, mem-append new xs ys), Unique-append_right xs ys u)
      (λ r m. ground (arith, mem-append new xs ys, Unique-apart r xs ys u))

-- A new node in the vector, at a place in it.
abbrev pub with_new : DisplayedItemRef → TargetPosition → Items → Items
with_new item position items = insert_all position.before (new_node item position.level ∷ []) items

tree_accepted :
    (items : Items) (item : DisplayedItemRef) (position : TargetPosition)
    → check_location items position ≡ ok tt
    → Edit.insert_item items item position ≡ ok (position.before, with_new item position items)
unfolding Edit.insert_item
tree_accepted items item position e =
    ap (λ o. o >>= λ _. ok (position.before, with_new item position items)) e

refs-with_new :
    (item : DisplayedItemRef) (position : TargetPosition) (items : Items)
    → refs (with_new item position items)
      ≡ take position.before (refs items) ++ (item ∷ [] ++ drop position.before (refs items))
refs-with_new item position items = simp (map-append, map-take, map-drop)

module _ {P : Parts} (new_item : DisplayedItem P) (target : Option TargetPosition)
    (move_focus : Bool) (w : WaveData P) where
  abbrev pub new_ref : DisplayedItemRef
  new_ref = w.display_item_ref_counter + 1

  abbrev pub place : TargetPosition
  place = or_focus w target

  abbrev pub after : WaveData P
  after = inserted new_ref new_item move_focus w (place.before, with_new new_ref place w.items_tree)

  pub insert_accepted :
      check_location w.items_tree place ≡ ok tt
      → insert_item new_item target move_focus w ≡ ok (new_ref, after)
  unfolding insert_item
  insert_accepted e =
      ap (λ o. unwrap_ok o >>= λ r. ok (new_ref, inserted new_ref new_item move_focus w r))
        (tree_accepted w.items_tree new_ref place e)

  module _ (c : Consistent w) where
    new_is_new : mem new_ref (refs w.items_tree) ≡ false
    new_is_new = elim (Bool-cases (mem new_ref (refs w.items_tree))) [
      | inl old ↦ absurd (omega (arith, c.counted new_ref old))
      | inr new ↦ new
    ]

    refs-after :
        refs after.items_tree
        ≡ take place.before (refs w.items_tree)
          ++ (new_ref ∷ [] ++ drop place.before (refs w.items_tree))
    refs-after =
        xselect_all_visible-refs (with_new new_ref place w.items_tree) false
        ∙ refs-with_new new_ref place w.items_tree

    mem-after :
        (r : ℕ) → mem r (refs after.items_tree) ≡ (new_ref == r || mem r (refs w.items_tree))
    mem-after r =
        ap (mem r) refs-after
        ∙ mem-between r new_ref (take place.before (refs w.items_tree))
            (drop place.before (refs w.items_tree))
        ∙ ap (λ l. new_ref == r || mem r l) (take-append-drop place.before (refs w.items_tree))

    pub after-Consistent :
        place.level < 256 → check_location w.items_tree place ≡ ok tt → Consistent after
    after-Consistent l e = record {
      tree = xselect_all_visible-WellFormed _ false (
          insert_item-WellFormed new_ref place c.tree l
            (tree_accepted w.items_tree new_ref place e));
      unique = rw refs-after (
          Unique-between new_ref _ _
            (rw (take-append-drop place.before (refs w.items_tree)) new_is_new)
            (rw (take-append-drop place.before (refs w.items_tree)) c.unique));
      keyed = λ r.
          has-insert r new_ref new_item w.displayed_items
          ∙ ap (λ b. new_ref == r || b) (c.keyed r)
          ∙ sym (mem-after r);
      counted = λ r m. ground (arith, mem-after r, c.counted r);
    }

    -- An item at an accepted target gets a reference that no item had, and stands in the tree at
    -- the target, between the nodes that were there. The invariant is kept.
    pub insert_item-Consistent :
        place.level < 256
        → check_location w.items_tree place ≡ ok tt
        → (w' : WaveData P) × (insert_item new_item target move_focus w ≡ ok (new_ref, w'))
          × (mem new_ref (refs w.items_tree) ≡ false)
          × (get new_ref w'.displayed_items ≡ some new_item)
          × (refs w'.items_tree
              ≡ take place.before (refs w.items_tree)
                ++ (new_ref ∷ [] ++ drop place.before (refs w.items_tree)))
          × Consistent w'
    unfolding insert get
    insert_item-Consistent l e =
        (after, insert_accepted e, new_is_new, ground arith, refs-after, after-Consistent l e)
