-- ===== src/Waves/Groups.antt =====
-- The invariant and the messages that remove items, dissolve groups and fold them.
use mathlib.Core.Path.{subst}
use kahuna.Common.{
  ◌<◌, ◌≡◌, refl, sym, ap, ◌∙◌, Bool, true, false, List, [], ◌∷◌, ◌++◌, map, Option, none, some,
  length, ok, panic, ◌>>=◌, unwrap, arith, Option-cases, inl, inr, passed, ok-injective, get_elem?,
  get_elem?-lt, map-append,
}
use kahuna.Tree.{Node, Items, ItemIndex, DisplayedItemRef, Fallible, subtree_end}
use kahuna.Tree.Edit
use kahuna.Tree.Edit.{refs, raise, fold, deselect, marked}
use kahuna.Tree.Split.{SplitAt}
use kahuna.Tree.Nesting.{WellFormed}
use kahuna.Tree.Remove.{xfolded}
use kahuna.Tree.Correct.{remove_dissolve_correct, xfold_correct, xfold_recursive_correct}
use kahuna.Waves.{Parts, WaveData, remove}
use kahuna.Waves.Edit.{index_for_ref_or_focus, remove_all}
use kahuna.Waves.Consistent.{Consistent, without_part, remove_displayed_item-Consistent}
use kahuna.Waves.Messages.{remove_each, kept_focus, folded, dissolve_at, fold_at}
use kahuna.Waves.Sound.{Keeper, Consistent-same}
use kahuna.Waves.Marks.{Kept}

panic-ne-ok : {B : Type 0} {b : B} → ◌≡◌ {A = Fallible B} panic (ok b) → ⊥
panic-ne-ok e = cc

-- A method that looks at the node at an index went on, so there is one.
looked_at :
    {B : Type 0} (items : Items) (idx : ItemIndex) (f : Node → Fallible B) {b : B}
    → (unwrap (get_elem? items idx) >>= f) ≡ ok b
    → idx < length items
looked_at items idx f e = elim (Option-cases (get_elem? items idx)) [
  | inl absent ↦ absurd (panic-ne-ok (sym (ap (λ o. unwrap o >>= f) absent) ∙ e))
  | inr (n, there) ↦ get_elem?-lt items idx there
]

measured :
    {A B : Type 0} (items : Items) (idx : ItemIndex) (f : Node → Fallible A) (k : A → Fallible B)
    {b : B}
    → ((unwrap (get_elem? items idx) >>= f) >>= k) ≡ ok b
    → idx < length items
measured items idx f k e =
    let (_, _, done) = passed k (unwrap (get_elem? items idx) >>= f) e in looked_at items idx f done

dissolve-lt :
    (items : Items) (idx : ItemIndex) {r : DisplayedItemRef × Items}
    → Edit.remove_dissolve items idx ≡ ok r
    → idx < length items
unfolding Edit.remove_dissolve subtree_end
dissolve-lt items idx e = measured items idx _ _ e

xfold-lt :
    (items : Items) (idx : ItemIndex) (b : Bool) {r : Items}
    → Edit.xfold items idx b ≡ ok r
    → idx < length items
unfolding Edit.xfold
xfold-lt items idx b e = looked_at items idx _ e

xfold_recursive-lt :
    (items : Items) (idx : ItemIndex) (b : Bool) {r : Items}
    → Edit.xfold_recursive items idx b ≡ ok r
    → idx < length items
unfolding Edit.xfold_recursive subtree_end
xfold_recursive-lt items idx b e = measured items idx _ _ e

refs-map :
    (f : Node → Node) (xs : Items)
    → ((n : Node) → (f n).item_ref ≡ n.item_ref)
    → refs (map f xs) ≡ refs xs
refs-map f [] h = refl
refs-map f (x ∷ xs) h = rw (h x, refs-map f xs h) refl

marked_ref : (b : Bool) (n : Node) → (marked b n).item_ref ≡ n.item_ref
marked_ref true n = refl
marked_ref false n = refl

xfold_recursive-refs :
    {items : Items} {idx : ItemIndex} (s : SplitAt items idx) (b : Bool)
    → refs (s.above ++ fold b s.root ∷ (map (marked b) s.inner ++ s.below)) ≡ refs items
xfold_recursive-refs {items} s b =
    rw s.splits (simp (map-append, refs-map (marked b) s.inner (marked_ref b)))

xfolded-refs :
    {items : Items} {idx : ItemIndex} (s : SplitAt items idx) (b : Bool)
    → refs (xfolded s b) ≡ refs items
xfolded-refs {items} s true = rw s.splits (simp map-append)
xfolded-refs {items} s false =
    rw s.splits (simp (map-append, refs-map deselect s.inner (λ n. refl)))

folded-refs :
    (recursive : Bool) (items : Items) (idx : ItemIndex) (b : Bool) {after : Items}
    → WellFormed items
    → folded recursive items idx b ≡ ok after
    → (refs after ≡ refs items) × WellFormed after
folded-refs true items idx b {after} w e =
    let (s, is, wf) = xfold_recursive_correct items idx b w (xfold_recursive-lt items idx b e) in
    let same = ok-injective (sym is ∙ e) in
    (ap refs (sym same) ∙ xfold_recursive-refs s b, subst WellFormed same wf)
folded-refs false items idx b {after} w e =
    let (s, is, wf) = xfold_correct items idx b w (xfold-lt items idx b e) in
    let same = ok-injective (sym is ∙ e) in
    (ap refs (sym same) ∙ xfolded-refs s b, subst WellFormed same wf)

module _ {P : Parts} where
  pub remove_each-Keeper : (rs : List DisplayedItemRef) → Keeper {P = P} (remove_each rs)
  unfolding remove_each
  remove_each-Keeper [] w w' c e = subst (Kept w) (ok-injective e) (c, omega arith)
  remove_each-Keeper (r ∷ rs) w w' c e =
      let (v, done, cv, same, _) = remove_displayed_item-Consistent r w c in
      let rest = remove_each-Keeper rs v w' cv (sym (ap (λ o. o >>= remove_each rs) done) ∙ e) in
      (rest.0, omega (arith, rest.1, same))

  dissolved :
      (w : WaveData P) (idx : ItemIndex) {r : DisplayedItemRef × Items}
      → Consistent w
      → Edit.remove_dissolve w.items_tree idx ≡ ok r
      → Consistent (record w { items_tree = r.1; displayed_items = remove r.0 w.displayed_items })
  unfolding remove_all
  dissolved w idx {r} c e =
      let (s, is, wf) =
        remove_dissolve_correct w.items_tree idx c.tree (dissolve-lt w.items_tree idx e) in
      subst
        (λ (q : DisplayedItemRef × Items).
          Consistent
            (record w { items_tree = q.1; displayed_items = remove q.0 w.displayed_items }))
        (ok-injective (sym is ∙ e))
        (without_part w s.above (s.root ∷ []) (s.inner ++ s.below)
          (s.above ++ (map raise s.inner ++ s.below)) c s.splits
          (simp (map-append, refs-map raise s.inner (λ n. refl))) wf)

  pub group_dissolve-Keeper :
      (item_ref : Option DisplayedItemRef)
      → Keeper {P = P} (λ w. elim (index_for_ref_or_focus w item_ref) [
        | none ↦ ok w
        | some item_index ↦ dissolve_at w item_index
      ])
  group_dissolve-Keeper item_ref w w' c e =
      elim (index_for_ref_or_focus w item_ref)
          as (λ o.
            elim o [ none ↦ ok w | some item_index ↦ dissolve_at w item_index ] ≡ ok w'
            → Kept w w') [
              | none ↦ λ e. subst (Kept w) (ok-injective e) (c, omega arith)
              | some idx ↦ λ e.
                  let (r, last, done) = passed _ (Edit.remove_dissolve w.items_tree idx) e in
                  subst (Kept w) (ok-injective last) (dissolved w idx c done, omega arith)
            ]
        e

  pub group_fold-Keeper :
      (open_it recursive : Bool) (item_ref : Option DisplayedItemRef)
      → Keeper {P = P} (λ w. elim (index_for_ref_or_focus w item_ref) [
        | none ↦ ok w
        | some item ↦ fold_at open_it recursive w item
      ])
  group_fold-Keeper open_it recursive item_ref w w' c e =
      elim (index_for_ref_or_focus w item_ref)
          as (λ o.
            elim o [ none ↦ ok w | some item ↦ fold_at open_it recursive w item ] ≡ ok w'
            → Kept w w') [
              | none ↦ λ e. subst (Kept w) (ok-injective e) (c, omega arith)
              | some item ↦ λ e.
                  let (focus, rest, _) = passed _ (kept_focus w.items_tree item w.focused_item) e in
                  let (items, last, done) =
                    passed _ (folded recursive w.items_tree item open_it) rest in
                  let same = folded-refs recursive w.items_tree item open_it c.tree done in
                  subst (Kept w) (ok-injective last) (
                    Consistent-same w (record w { items_tree = items; focused_item = focus }) c
                        same.0 same.1 (λ r. refl) (omega arith),
                    omega arith,
                  )
            ]
        e
