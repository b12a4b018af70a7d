-- ===== src/Waves/Insertion.antt =====
-- The invariant and the messages that insert items.
use kahuna.Common.{
  ℕ, zero, suc, ◌<◌, ◌≡◌, refl, sym, ap, ◌∙◌, Bool, true, false, [], ◌∷◌, Option, none, some, ok,
  err, panic, ◌>>=◌, arith, passed, ok-injective, get_elem?,
}
use mathlib.Core.Path.{subst}
use kahuna.Decoders.{Text}
use kahuna.Tree.{Node, Items, TargetPosition, Fallible, VisibleItemIndex, check_location}
use kahuna.Tree.Edit
use kahuna.Tree.Visible.{to_displayed}
use kahuna.Tree.Nesting.{Fits, WellFormed}
use kahuna.Waves.{Parts, WaveData, DisplayedItem, get, is_group, unwrap_or}
use kahuna.Waves.Edit.{
  insert_item, insert_position, or_focus, unwrap_ok, add_divider, add_timeline, position_at,
  end_insert_position,
}
use kahuna.Waves.Consistent.{Consistent}
use kahuna.Waves.Insert.{insert_accepted, after-Consistent}
use kahuna.Waves.Messages.{after_insert}
use kahuna.Waves.Sound.{Keeper}
use kahuna.Waves.Marks.{Kept}

Fits-get_elem? : (xs : Items) (i : ℕ) (n : Node) → Fits xs → get_elem? xs i ≡ some n → n.level < 256
Fits-get_elem? [] i n h e = cc
Fits-get_elem? (x ∷ xs) zero n h e = ground arith
Fits-get_elem? (x ∷ xs) (suc i) n h e = Fits-get_elem? xs i n h.1 e

abbrev pub Small : Option TargetPosition → Type 0
Small none = Unit
Small (some t) = t.level < 256

-- A chain that ends in a value was not stopped by the location.
accepted :
    {A B : Type 0} (a : A) {b : B} (o : Fallible (Unit {0})) (k : A → Fallible B)
    → ((unwrap_ok (o >>= λ _. ok a)) >>= k) ≡ ok b
    → o ≡ ok tt
accepted a (ok u) k e = refl
accepted a (err x) k e = cc
accepted a panic k e = cc

module _ {P : Parts} where
  insert_position-Small :
      (w : WaveData P) (v : Option VisibleItemIndex)
      → WellFormed w.items_tree
      → Small (insert_position w v)
  unfolding insert_position
  insert_position-Small w none h = tt
  insert_position-Small w (some v) h =
      elim (to_displayed w.items_tree v)
        as (λ o. Small (elim o [
          | none ↦ none
          | some idx ↦ elim (get_elem? w.items_tree idx) [
            | none ↦ none
            | some node ↦ elim (get node.item_ref w.displayed_items) [
              | none ↦ none
              | some item ↦ some (position_at w v idx node (is_group (some item)))
            ]
          ]
        ])) [
          | none ↦ tt
          | some idx ↦
              elim (get_elem? w.items_tree idx)
                  as (λ o.
                    (get_elem? w.items_tree idx ≡ o)
                    → Small (elim o [
                      | none ↦ none
                      | some node ↦ elim (get node.item_ref w.displayed_items) [
                        | none ↦ none
                        | some item ↦ some (position_at w v idx node (is_group (some item)))
                      ]
                    ])) [
                      | none ↦ λ _. tt
                      | some node ↦ λ e.
                          elim (get node.item_ref w.displayed_items)
                            as (λ o. Small (elim o [
                              | none ↦ none
                              | some item ↦ some (position_at w v idx node (is_group (some item)))
                            ])) [
                              | none ↦ tt
                              | some item ↦
                                  small node idx (is_group (some item))
                                    (Fits-get_elem? w.items_tree idx node h.fits e)
                            ]
                    ]
                refl
        ]
    where
      small :
          (node : Node) (idx : ℕ) (b : Bool)
          → node.level < 256
          → Small (some (position_at w v idx node b))
      small node idx true l = ground arith
      small node idx false l = l

  or_focus-Small :
      (w : WaveData P) (t : Option TargetPosition)
      → WellFormed w.items_tree
      → Small t
      → (or_focus w t).level < 256
  unfolding end_insert_position
  or_focus-Small w (some t) h l = l
  or_focus-Small w none h l =
      or_end (insert_position w w.focused_item) (insert_position-Small w w.focused_item h)
    where
      or_end :
          (o : Option TargetPosition) → Small o → (unwrap_or o (end_insert_position w)).level < 256
      or_end none k = omega arith
      or_end (some t) k = k

  pub insert_item-Keeper :
      (new_item : DisplayedItem P) (target : Option TargetPosition) (w w' : WaveData P)
      → Consistent w
      → Small target
      → after_insert (insert_item new_item target true w) ≡ ok w'
      → Kept w w'
  unfolding insert_item Edit.insert_item
  insert_item-Keeper new_item target w w' c l e =
      let (r, last, done) = passed (λ r. ok r.1) (insert_item new_item target true w) e in
      let at = accepted _ (check_location w.items_tree (or_focus w target)) _ done in
      subst (Kept w)
        (ok-injective (sym (ap after_insert (insert_accepted new_item target true w at)) ∙ e))
        (
          after-Consistent new_item target true w c (or_focus-Small w target c.tree l) at,
          omega arith,
        )

  pub add_divider-Keeper :
      (name : Option Text) (vidx : Option VisibleItemIndex)
      → Keeper {P = P} (λ w. after_insert (add_divider name vidx w))
  unfolding add_divider
  add_divider-Keeper name vidx w w' c e =
      insert_item-Keeper _ _ w w' c (insert_position-Small w vidx c.tree) e

  pub add_timeline-Keeper :
      (vidx : Option VisibleItemIndex) → Keeper {P = P} (λ w. after_insert (add_timeline vidx w))
  unfolding add_timeline
  add_timeline-Keeper vidx w w' c e =
      insert_item-Keeper _ _ w w' c (insert_position-Small w vidx c.tree) e
