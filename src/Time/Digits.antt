-- ===== src/Time/Digits.antt =====
-- Decimal digits as a number, and zeros at the end of a fraction.
use native.Mathlib.Nat.{pow-suc, mul_assoc}
use kahuna.Common.{
  ℕ, ◌+◌, ◌-◌, ◌*◌, ◌^◌, ◌≡◌, refl, ap, ◌∙◌, Bool, true, false, ◌&&◌, [], ◌∷◌, ◌++◌, Option, some,
  length, ◌==◌, is_digit, is_empty, all_of, trim_end_matches, arith, Bool-cases, inl, inr,
}
use kahuna.Decoders.{Text}
use kahuna.Time.Input.{is_zero_digit}

-- The number of decimal digits, after the given one
abbrev pub number_onto : ℕ → Text → ℕ
number_onto n [] = n
number_onto n (c ∷ cs) = number_onto (n * 10 + (c - 48)) cs

-- `BigInt::parse_bytes` of digits in base 10
abbrev pub ReadsDigits : (Text → Option ℕ) → Type 0
ReadsDigits parse_bytes =
    (t : Text)
    → all_of is_digit t ≡ true
    → is_empty t ≡ false
    → parse_bytes t ≡ some (number_onto 0 t)

pub number-append : (n : ℕ) (s t : Text) → number_onto n (s ++ t) ≡ number_onto (number_onto n s) t
number-append n [] t = refl
number-append n (c ∷ s) t = number-append (n * 10 + (c - 48)) s t

-- Digits that are all zero
abbrev pub AllZero : Text → Type 0
AllZero [] = Unit
AllZero (c ∷ cs) = (c ≡ 48) × AllZero cs

pub number-AllZero : (n : ℕ) (zs : Text) → AllZero zs → number_onto n zs ≡ n * 10 ^ length zs
number-AllZero n [] h = omega arith
number-AllZero n (c ∷ cs) h =
    let z : n * 10 + (c - 48) ≡ n * 10 = omega (arith, h.0) in
    rw (z, pow-suc 10 (length cs))
      (number-AllZero (n * 10) cs h.1 ∙ mul_assoc n 10 (10 ^ length cs) ∙ ap (n *◌) (omega arith))

pub is_empty_nil : (t : Text) → is_empty t ≡ true → t ≡ []
is_empty_nil [] e = refl
is_empty_nil (c ∷ cs) e = cc

-- What is trimmed at the end of a fraction is zeros.
pub trim_end_matches-zeros :
    (t : Text) → (zs : Text) × (t ≡ trim_end_matches is_zero_digit t ++ zs) × AllZero zs
trim_end_matches-zeros [] = ([], refl, tt)
trim_end_matches-zeros (c ∷ cs) =
    let rest = trim_end_matches-zeros cs in
    elim (Bool-cases (is_empty (trim_end_matches is_zero_digit cs))) [
      | inl none_left ↦ elim (Bool-cases (c == 48)) [
        | inl zero_digit ↦
            let e = is_empty_nil (trim_end_matches is_zero_digit cs) none_left in
            let same : cs ≡ rest.0 = rw e at rest.1 in
            let first : c ≡ 48 = ground (arith, zero_digit) in
            rw (none_left, zero_digit) (c ∷ cs, refl, (first, rw same rest.2))
        | inr other ↦ rw (none_left, other) (rest.0, ap (c ∷◌) rest.1, rest.2)
      ]
      | inr some_left ↦ rw some_left (rest.0, ap (c ∷◌) rest.1, rest.2)
    ]

pub all_of-append :
    (test : ℕ → Bool) (s t : Text) → all_of test (s ++ t) ≡ (all_of test s && all_of test t)
all_of-append test [] t = refl
all_of-append test (c ∷ s) t = elim (Bool-cases (test c)) [
  | inl passes ↦ rw passes (all_of-append test s t)
  | inr fails ↦ rw fails refl
]
