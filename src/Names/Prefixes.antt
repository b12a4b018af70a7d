-- ===== src/Names/Prefixes.antt =====
-- Common prefixes of scopes that are in order: libsurfer/src/variable_name_type.rs.
use mathlib.Core.Path.{subst, ap₂}
use kahuna.Common.{
  ℕ, zero, suc, ◌≤◌, ◌<◌, ◌≡◌, ◌≢◌, refl, sym, ◌∙◌, true, false, List, [], ◌∷◌, ltb, ◌==◌, take,
  arith, Bool-cases, inl, inr,
}
use kahuna.Decoders.{Text}
use kahuna.References.{same_text}
use kahuna.Names.{common_prefix_len, scope_before}
use kahuna.Names.Order.{lex, IsOrder, ltb-IsOrder, lex-IsOrder, lex-parts}

pub text-IsOrder : IsOrder (lex ltb)
text-IsOrder = lex-IsOrder ltb ltb-IsOrder

pub scope-IsOrder : IsOrder scope_before
scope-IsOrder = lex-IsOrder (lex ltb) text-IsOrder

same_text_equal : (s t : Text) → same_text s t ≡ true → s ≡ t
same_text_equal [] [] h = refl
same_text_equal [] (d ∷ ds) h = cc
same_text_equal (c ∷ cs) [] h = cc
same_text_equal (c ∷ cs) (d ∷ ds) h = ground (arith, same_text_equal cs ds, h)

same_text_refl : (t : Text) → same_text t t ≡ true
same_text_refl [] = refl
same_text_refl (c ∷ cs) = let e : (c == c) ≡ true = ground arith in rw (e, same_text_refl cs) refl

-- Between two scopes the common prefix is no longer than with what stands between them.
pub squeeze :
    (a b c : List Text)
    → scope_before b a ≡ false
    → scope_before c b ≡ false
    → (common_prefix_len a c ≤ common_prefix_len a b)
      × (common_prefix_len a c ≤ common_prefix_len c b)
unfolding common_prefix_len
squeeze [] b c h k = (omega arith, omega arith)
squeeze (x ∷ xs) b [] h k = (omega arith, omega arith)
squeeze (x ∷ xs) [] (z ∷ zs) h k = cc
squeeze (x ∷ xs) (y ∷ ys) (z ∷ zs) h k = elim (Bool-cases (same_text x z)) [
  | inr other ↦ rw other (omega arith, omega arith)
  | inl e ↦
      let same : x ≡ z = same_text_equal x z e in
      let p = lex-parts (lex ltb) text-IsOrder x y xs ys h in
      let q = lex-parts (lex ltb) text-IsOrder y z ys zs k in
      let yx : y ≡ x = text-IsOrder.antisym y x p.0 (rw (← same) at q.0) in
      let xy : x ≡ y = sym yx in
      let zy : z ≡ y = sym same ∙ xy in
      let before_xy : lex ltb x y ≡ false = rw same q.0 in
      let before_yz : lex ltb y z ≡ false = rw (← same) p.0 in
      let sxy : same_text x y ≡ true =
        subst (λ (t : Text). same_text x t ≡ true) xy (same_text_refl x) in
      let szy : same_text z y ≡ true =
        subst (λ (t : Text). same_text z t ≡ true) zy (same_text_refl z) in
      let rest = squeeze xs ys zs (p.1 before_xy) (q.1 before_yz) in
      rw (e, sxy, szy) (omega (arith, rest.0), omega (arith, rest.1))
]

cons-head : {x y : Text} (xs ys : List Text) → ◌≡◌ {A = List Text} (x ∷ xs) (y ∷ ys) → x ≡ y
cons-head xs ys e = cc

cons-tail : (x y : Text) {xs ys : List Text} → ◌≡◌ {A = List Text} (x ∷ xs) (y ∷ ys) → xs ≡ ys
cons-tail x y e = cc

-- Scopes that differ still differ after one component more than they share.
pub take-apart :
    (a b : List Text) (m n : ℕ)
    → a ≢ b
    → common_prefix_len a b < m
    → common_prefix_len a b < n
    → take m a ≢ take n b
unfolding common_prefix_len
take-apart a b zero n d h k e = absurd (omega (arith, h))
take-apart a b (suc m) zero d h k e = absurd (omega (arith, k))
take-apart [] [] (suc m) (suc n) d h k e = absurd (d refl)
take-apart [] (y ∷ ys) (suc m) (suc n) d h k e = cc
take-apart (x ∷ xs) [] (suc m) (suc n) d h k e = cc
take-apart (x ∷ xs) (y ∷ ys) (suc m) (suc n) d h k e =
    let same : x ≡ y = cons-head (take m xs) (take n ys) e in
    let s : same_text x y ≡ true =
      subst (λ (t : Text). same_text x t ≡ true) same (same_text_refl x) in
    take-apart xs ys m n (λ q. d (ap₂ ◌∷◌ same q)) (omega (arith, rw s at h))
      (omega (arith, rw s at k)) (cons-tail x y e)
