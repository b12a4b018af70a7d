-- ===== src/Tree/Move/Block.antt =====
-- A subtree shifted to a level: a block that may stand at that level.
use kahuna.Common.{
  ℕ, suc, ◌+◌, ◌<◌, ◌≡◌, refl, [], ◌∷◌, ◌++◌, some, Option-cases, inl, inr, ok, Safe, arith,
}
use kahuna.Tree.{Items}
use kahuna.Tree.Split.{Deeper}
use kahuna.Tree.Nesting.{Nested, Fits, Fits-append, Nested-append, Nested-mono}
use kahuna.Tree.Preserve.{AtLeast, bound_after-ge}
use kahuna.Tree.Edit.{refs}
use kahuna.Tree.Move.{shift_level, shift_all}

pub record Block (level : ℕ) (xs : Items) : Type 0 where
  pub nested : Nested level xs
  pub at_least : AtLeast level xs
  pub fits : Fits xs

pub AtLeast-append :
    (level : ℕ) (xs ys : Items) → AtLeast level xs → AtLeast level ys → AtLeast level (xs ++ ys)
AtLeast-append level [] ys h k = k
AtLeast-append level (x ∷ xs) ys h k = (h.0, AtLeast-append level xs ys h.1 k)

-- Blocks at one level stand one behind another.
pub Block-append :
    {level : ℕ} (xs ys : Items) → Block level xs → Block level ys → Block level (xs ++ ys)
Block-append {level} xs ys a b = record {
  nested =
      Nested-append level xs ys a.nested
        (Nested-mono level _ ys b.nested (bound_after-ge level level xs a.at_least (omega arith)));
  at_least = AtLeast-append level xs ys a.at_least b.at_least;
  fits = Fits-append xs ys a.fits b.fits;
}

pub Deeper-AtLeast : (level : ℕ) (xs : Items) → Deeper level xs → AtLeast level xs
Deeper-AtLeast level [] d = tt
Deeper-AtLeast level (x ∷ xs) d = (omega (arith, d.0), Deeper-AtLeast level xs d.1)

shift_level-eq_some :
    (from to level : ℕ) {l : ℕ}
    → shift_level from to level ≡ some l
    → (l + from ≡ level + to) × (l < 256)
unfolding shift_level
shift_level-eq_some from to level h = ground arith

pub shift_all-Block :
    (from to bound : ℕ) (xs : Items)
    → (shift_all from to xs).0 ≡ ok tt
    → AtLeast from xs
    → Nested bound xs
    → (b' : ℕ) → b' + from ≡ bound + to
    → Nested b' (shift_all from to xs).1
      × AtLeast to (shift_all from to xs).1
      × Fits (shift_all from to xs).1
unfolding shift_all
shift_all-Block from to bound [] e al n b' h = (tt, tt, tt)
shift_all-Block from to bound (x ∷ xs) e al n b' h =
    elim (Option-cases (shift_level from to x.level)) [
      | inl over ↦ absurd (ground (arith, over))
      | inr (l, fine) ↦
          let at = shift_level-eq_some from to x.level fine in
          let rest =
            shift_all-Block from to (suc x.level) xs (ground (arith, fine)) al.1 n.1 (suc l)
              (omega (arith, at)) in
          rw (fine, shift_all)
            ((omega (arith, at, n.0, h), rest.0), (omega (arith, at, al.0), rest.1), (at.1, rest.2))
    ]

pub refs-shift_all : (from to : ℕ) (xs : Items) → refs (shift_all from to xs).1 ≡ refs xs
unfolding shift_all
refs-shift_all from to [] = refl
refs-shift_all from to (x ∷ xs) = ground (arith, refs-shift_all from to xs)

-- A shift succeeds, or ends in an error.
pub shift_all-Safe : (from to : ℕ) (xs : Items) → Safe (λ _. Unit {0}) (shift_all from to xs).0
unfolding shift_all
shift_all-Safe from to [] = tt
shift_all-Safe from to (x ∷ xs) = elim (Option-cases (shift_level from to x.level)) [
  | inl over ↦ rw (over, shift_all) tt
  | inr (l, fine) ↦ rw (fine, shift_all) (shift_all-Safe from to xs)
]
