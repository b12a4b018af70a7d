-- ===== src/Tree/Correct.antt =====
-- The methods that take an index, as a whole: what they return, what they leave, and the invariant.
use kahuna.Common.{
  ℕ, suc, ◌<◌, ◌≡◌, refl, sym, Bool, true, false, List, [], ◌∷◌, ◌++◌, map, length, ok, map-append,
}
use kahuna.Tree.{Node, Items, ItemIndex}
use kahuna.Tree.Split.{SplitAt, split_at}
use kahuna.Tree.Nesting.{Nested, Fits, WellFormed}
use kahuna.Tree.Edit.{
  refs, remove_recursive, remove_dissolve, raise, fold, deselect, marked, xfold, xfold_recursive,
}
use kahuna.Tree.Remove.{
  remove_recursive_split, remove_dissolve_split, xfold_split, xfold_recursive_split, xfolded,
}
use kahuna.Tree.Preserve.{without-WellFormed, dissolve-WellFormed}

-- At a valid index `remove_recursive` returns the node and its subtree, in order, leaves all
-- other nodes as they are, and the vector stays well-formed.
pub remove_recursive_correct :
    (items : Items) (idx : ItemIndex)
    → WellFormed items
    → idx < length items
    → (s : SplitAt items idx) × (remove_recursive items idx
        ≡ ok (refs (s.root ∷ s.inner), s.above ++ s.below))
      × WellFormed (s.above ++ s.below)
remove_recursive_correct items idx w h =
    let s = split_at items idx h in (s, remove_recursive_split s, without-WellFormed w s)

-- At a valid index `remove_dissolve` returns the node alone; its subtree moves one level up, all
-- other nodes are left as they are, and the vector stays well-formed.
pub remove_dissolve_correct :
    (items : Items) (idx : ItemIndex)
    → WellFormed items
    → idx < length items
    → (s : SplitAt items idx) × (remove_dissolve items idx
        ≡ ok (s.root.item_ref, s.above ++ (map raise s.inner ++ s.below)))
      × WellFormed (s.above ++ (map raise s.inner ++ s.below))
remove_dissolve_correct items idx w h =
    let s = split_at items idx h in (s, remove_dissolve_split s, dissolve-WellFormed w s)

abbrev pub levels : Items → List ℕ
levels = map (λ x. x.level)

Nested-levels :
    (bound : ℕ) (xs ys : Items) → levels xs ≡ levels ys → Nested bound xs → Nested bound ys
Nested-levels bound xs [] e n = tt
Nested-levels bound [] (y ∷ ys) e n = cc
Nested-levels bound (x ∷ xs) (y ∷ ys) e n =
    let h : x.level ≡ y.level = cc in
    let t : levels xs ≡ levels ys = cc in
    (rw (← h) n.0, rw (← h) (Nested-levels (suc x.level) xs ys t n.1))

Fits-levels : (xs ys : Items) → levels xs ≡ levels ys → Fits xs → Fits ys
Fits-levels xs [] e n = tt
Fits-levels [] (y ∷ ys) e n = cc
Fits-levels (x ∷ xs) (y ∷ ys) e n =
    let h : x.level ≡ y.level = cc in
    let t : levels xs ≡ levels ys = cc in (rw (← h) n.0, Fits-levels xs ys t n.1)

pub WellFormed-levels : (xs ys : Items) → levels xs ≡ levels ys → WellFormed xs → WellFormed ys
WellFormed-levels xs ys e w = record {
  nested = Nested-levels 0 xs ys e w.nested;
  fits = Fits-levels xs ys e w.fits;
}

levels-map :
    (f : Node → Node) (xs : Items)
    → ((x : Node) → (f x).level ≡ x.level)
    → levels (map f xs) ≡ levels xs
levels-map f [] h = refl
levels-map f (x ∷ xs) h = rw (h x, levels-map f xs h)

levels-parts :
    (above inner below : Items) (root root' : Node) (f : Node → Node)
    → root'.level ≡ root.level
    → ((x : Node) → (f x).level ≡ x.level)
    → levels (above ++ root' ∷ (map f inner ++ below)) ≡ levels (above ++ root ∷ (inner ++ below))
levels-parts above inner below root root' f e h = simp (map-append, e, levels-map f inner h)

marked_level : (b : Bool) (x : Node) → (marked b x).level ≡ x.level
marked_level true x = refl
marked_level false x = refl

xfolded-WellFormed :
    {items : Items} {idx : ItemIndex} (s : SplitAt items idx) (b : Bool)
    → WellFormed items
    → WellFormed (xfolded s b)
xfolded-WellFormed s true w = WellFormed-levels _ _ (simp map-append) (rw s.splits at w)
xfolded-WellFormed s false w =
    WellFormed-levels _ _
      (sym (
        levels-parts s.above s.inner s.below s.root (deselect (fold false s.root)) deselect refl
          (λ x. refl)))
      (rw s.splits at w)

-- At a valid index `xfold` sets the mark of the node. On folding it deselects the node and its
-- whole subtree, and on unfolding it changes nothing else. The vector stays well-formed.
pub xfold_correct :
    (items : Items) (idx : ItemIndex) (b : Bool)
    → WellFormed items
    → idx < length items
    → (s : SplitAt items idx) × (xfold items idx b ≡ ok (xfolded s b)) × WellFormed (xfolded s b)
xfold_correct items idx b w h =
    let s = split_at items idx h in (s, xfold_split s b, xfolded-WellFormed s b w)

pub xfold_recursive_correct :
    (items : Items) (idx : ItemIndex) (b : Bool)
    → WellFormed items
    → idx < length items
    → (s : SplitAt items idx) × (xfold_recursive items idx b
        ≡ ok (s.above ++ fold b s.root ∷ (map (marked b) s.inner ++ s.below)))
      × WellFormed (s.above ++ fold b s.root ∷ (map (marked b) s.inner ++ s.below))
xfold_recursive_correct items idx b w h =
    let s = split_at items idx h in
    (
      s,
      xfold_recursive_split s b,
      WellFormed-levels _ _
          (sym (
            levels-parts s.above s.inner s.below s.root (fold b s.root) (marked b) refl
              (marked_level b)))
          (rw s.splits at w),
    )
