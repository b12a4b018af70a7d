-- ===== src/Tree/Nesting.antt =====
-- The invariant that the source states for its vector: a level goes up by one at most from a node
-- to the next, and the first is 0. With it, that a level fits its `u8`.
use kahuna.Common.{ℕ, suc, ◌≤◌, ◌<◌, [], ◌∷◌, ◌++◌, arith}
use kahuna.Tree.{Items}
use kahuna.Tree.Split.{ClosedBy}

-- Each level is at most one more than that before it; the first is at most `bound`.
abbrev pub Nested : ℕ → Items → Type 0
Nested bound [] = Unit
Nested bound (x ∷ xs) = (x.level ≤ bound) × Nested (suc x.level) xs

abbrev pub Fits : Items → Type 0
Fits [] = Unit
Fits (x ∷ xs) = (x.level < 256) × Fits xs

pub record WellFormed (items : Items) : Type 0 where
  pub nested : Nested 0 items
  pub fits : Fits items

-- The bound for what follows `xs`.
abbrev pub bound_after : ℕ → Items → ℕ
bound_after bound [] = bound
bound_after bound (x ∷ xs) = bound_after (suc x.level) xs

pub Nested-append :
    (bound : ℕ) (xs ys : Items)
    → Nested bound xs
    → Nested (bound_after bound xs) ys
    → Nested bound (xs ++ ys)
Nested-append bound [] ys h k = k
Nested-append bound (x ∷ xs) ys h k = (h.0, Nested-append (suc x.level) xs ys h.1 k)

pub Nested-append_left : (bound : ℕ) (xs ys : Items) → Nested bound (xs ++ ys) → Nested bound xs
Nested-append_left bound [] ys h = tt
Nested-append_left bound (x ∷ xs) ys h = (h.0, Nested-append_left (suc x.level) xs ys h.1)

pub Nested-append_right :
    (bound : ℕ) (xs ys : Items) → Nested bound (xs ++ ys) → Nested (bound_after bound xs) ys
Nested-append_right bound [] ys h = h
Nested-append_right bound (x ∷ xs) ys h = Nested-append_right (suc x.level) xs ys h.1

-- Only the first level looks at the bound.
pub Nested-ClosedBy :
    (b c level : ℕ) (xs : Items) → Nested b xs → ClosedBy level xs → level ≤ c → Nested c xs
Nested-ClosedBy b c level [] h k l = tt
Nested-ClosedBy b c level (x ∷ xs) h k l = (omega arith, h.1)

pub Nested-mono : (b c : ℕ) (xs : Items) → Nested b xs → b ≤ c → Nested c xs
Nested-mono b c [] h l = tt
Nested-mono b c (x ∷ xs) h l = (omega arith, h.1)

pub Fits-append : (xs ys : Items) → Fits xs → Fits ys → Fits (xs ++ ys)
Fits-append [] ys h k = k
Fits-append (x ∷ xs) ys h k = (h.0, Fits-append xs ys h.1 k)

pub Fits-append_left : (xs ys : Items) → Fits (xs ++ ys) → Fits xs
Fits-append_left [] ys h = tt
Fits-append_left (x ∷ xs) ys h = (h.0, Fits-append_left xs ys h.1)

pub Fits-append_right : (xs ys : Items) → Fits (xs ++ ys) → Fits ys
Fits-append_right [] ys h = h
Fits-append_right (x ∷ xs) ys h = Fits-append_right xs ys h.1
