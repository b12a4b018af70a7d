-- ===== src/Tree/Preserve.antt =====
-- The invariant of the vector and the methods.
use mathlib.Core.Path.{subst}
use kahuna.Common.{
  ℕ, suc, ◌≤◌, ◌<◌, ◌≡◌, [], ◌∷◌, ◌++◌, map, take, drop, ok, arith, take-append-drop, insert_all,
  passed, ok-injective, ap,
}
use kahuna.Tree.{Items, ItemIndex, TargetPosition, DisplayedItemRef, check_location}
use kahuna.Tree.Split.{Deeper, SplitAt}
use kahuna.Tree.Nesting.{
  Nested, Fits, WellFormed, bound_after, Nested-append, Nested-append_left, Nested-append_right,
  Nested-ClosedBy, Nested-mono, Fits-append, Fits-append_left, Fits-append_right,
}
use kahuna.Tree.Location.{Located, check_location_iff}
use kahuna.Tree.Edit.{new_node, insert_item, raise}

-- No level is below `level`.
abbrev pub AtLeast : ℕ → Items → Type 0
AtLeast level [] = Unit
AtLeast level (x ∷ xs) = (level ≤ x.level) × AtLeast level xs

pub bound_after-ge :
    (level bound : ℕ) (xs : Items) → AtLeast level xs → level ≤ bound → level ≤ bound_after bound xs
bound_after-ge level bound [] h l = l
bound_after-ge level bound (x ∷ xs) h l =
    bound_after-ge level (suc x.level) xs h.1 (omega (arith, h.0))

-- A block of nodes at an accepted location keeps the invariant.
pub insert_all-WellFormed :
    {items : Items} (n level : ℕ) (block : Items)
    → WellFormed items
    → Located items n level
    → Nested level block
    → AtLeast level block
    → Fits block
    → WellFormed (insert_all n block items)
insert_all-WellFormed {items} n level block w l nb al fb = record {
  nested = Nested-append 0 above (block ++ below) (Nested-append_left 0 above below whole) (
      Nested-append bound block below (Nested-mono level bound block nb l.under_bound) (
        Nested-ClosedBy bound (bound_after bound block) level below
          (Nested-append_right 0 above below whole) l.closes
          (bound_after-ge level bound block al l.under_bound)));
  fits =
      Fits-append above (block ++ below) (Fits-append_left above below fitting)
        (Fits-append block below fb (Fits-append_right above below fitting));
}
  where
    above : Items
    above = take n items

    below : Items
    below = drop n items

    bound : ℕ
    bound = bound_after 0 above

    whole : Nested 0 (above ++ below)
    whole = rw take-append-drop w.nested

    fitting : Fits (above ++ below)
    fitting = rw take-append-drop w.fits

-- `insert_item` on any target: on success the invariant holds again.
pub insert_item-WellFormed :
    {items after : Items} (item : DisplayedItemRef) (position : TargetPosition) {idx : ItemIndex}
    → WellFormed items
    → position.level < 256
    → insert_item items item position ≡ ok (idx, after)
    → WellFormed after
unfolding insert_item
insert_item-WellFormed {items} item position w h e =
    let (_, rest, accepted) = passed _ (check_location items position) e in
    let located = (check_location_iff position w h).0 accepted in
    subst WellFormed (ap (λ r. r.1) (ok-injective rest)) (
      insert_all-WellFormed position.before position.level (new_node item position.level ∷ []) w
        located (omega arith) (omega arith) (omega arith))

module _ {items : Items} {idx : ItemIndex} (w : WellFormed items) (s : SplitAt items idx) where
  open s use {above, root, inner, below, splits, at_root, deeper, closed}

  pub Nested-parts : Nested 0 above × Nested (bound_after 0 above) (root ∷ (inner ++ below))
  Nested-parts =
      let whole = rw splits at w.nested in
      (Nested-append_left 0 above _ whole, Nested-append_right 0 above _ whole)

  pub Fits-parts : Fits above × (root.level < 256) × Fits inner × Fits below
  Fits-parts =
      let whole = rw splits at w.fits in
      let tail = Fits-append_right above (root ∷ (inner ++ below)) whole in
      (
        Fits-append_left above _ whole,
        tail.0,
        Fits-append_left inner below tail.1,
        Fits-append_right inner below tail.1,
      )

  Nested-below : Nested (bound_after (suc root.level) inner) below
  Nested-below = Nested-append_right (suc root.level) inner below Nested-parts.1.1

  pub without-WellFormed : WellFormed (above ++ below)
  without-WellFormed = record {
    nested = Nested-append 0 above below Nested-parts.0 (
        Nested-ClosedBy _ (bound_after 0 above) root.level below Nested-below closed
          Nested-parts.1.0);
    fits = Fits-append above below Fits-parts.0 Fits-parts.3;
  }

  Nested-raise :
      (level bound : ℕ) (xs : Items)
      → Deeper level xs
      → Fits xs
      → Nested (suc bound) xs
      → Nested bound (map raise xs)
  Nested-raise level bound [] d f n = tt
  Nested-raise level bound (x ∷ xs) d f n = (
    omega (arith, d.0, f.0, n.0),
    Nested-mono x.level _ (map raise xs) (Nested-raise level x.level xs d.1 f.1 n.1)
        (omega (arith, d.0, f.0)),
  )

  Fits-raise : (xs : Items) → Fits (map raise xs)
  Fits-raise [] = tt
  Fits-raise (x ∷ xs) = (omega arith, Fits-raise xs)

  AtLeast-raise :
      (level : ℕ) (xs : Items) → Deeper level xs → Fits xs → AtLeast level (map raise xs)
  AtLeast-raise level [] d f = tt
  AtLeast-raise level (x ∷ xs) d f = (omega (arith, d.0, f.0), AtLeast-raise level xs d.1 f.1)

  pub dissolve-WellFormed : WellFormed (above ++ (map raise inner ++ below))
  dissolve-WellFormed = record {
    nested = Nested-append 0 above _ Nested-parts.0 (
        Nested-append bound (map raise inner) below
          (Nested-mono root.level bound _
            (Nested-raise root.level root.level inner deeper Fits-parts.2
              (Nested-append_left (suc root.level) inner below Nested-parts.1.1))
            Nested-parts.1.0)
          (Nested-ClosedBy _ _ root.level below Nested-below closed (
            bound_after-ge root.level bound (map raise inner)
              (AtLeast-raise root.level inner deeper Fits-parts.2) Nested-parts.1.0)));
    fits = Fits-append above _ Fits-parts.0 (Fits-append _ below (Fits-raise inner) Fits-parts.3);
  }
    where
      bound : ℕ
      bound = bound_after 0 above
