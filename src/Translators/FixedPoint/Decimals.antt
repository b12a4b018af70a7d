-- ===== src/Translators/FixedPoint/Decimals.antt =====
-- Reading decimal texts: what a digit, a number and a fraction say.
use kahuna.Common.{
  ℕ, zero, suc, ◌+◌, ◌*◌, ◌/◌, ◌%◌, ◌≤◌, ◌<◌, ◌≡◌, refl, ap, ◌∙◌, Bool-cases, true, false, [], ◌∷◌,
  ◌++◌, ltb, ◌==◌, if◌then◌else◌, is_digit, all_of, inl, inr, arith,
}
use native.Mathlib.Nat.{mod-lt}
use kahuna.Decoders.{Text, digit_char, digits_of, digits_onto}
use kahuna.Decoders.Formats.{
  read_onto, read-digits_of, digits_onto-last, digits_onto-more, below-quotient,
}
use kahuna.Time.Digits.{number_onto}

-- A text in front of its first point
abbrev pub before_point : Text → Text
before_point [] = []
before_point (c ∷ cs) = let rest = before_point cs in if c == 46 then [] else c ∷ rest

-- The places behind the first point
abbrev pub places : Text → Text
places [] = []
places (c ∷ cs) = let rest = places cs in if c == 46 then cs else rest

-- All the digits of a text with at most one point, as a number
abbrev pub digits_value : Text → ℕ
digits_value t = number_onto 0 (before_point t ++ places t)

pub is_digit-digit_char : (d : ℕ) → d < 10 → is_digit (digit_char d) ≡ true
unfolding digit_char
is_digit-digit_char d h = ground arith

digits_onto-digits :
    (fuel n : ℕ) (rest : Text)
    → n < fuel
    → all_of is_digit rest ≡ true
    → all_of is_digit (digits_onto fuel 10 n rest) ≡ true
digits_onto-digits zero n rest enough h = absurd (omega arith)
digits_onto-digits (suc fuel) n rest enough h = elim (Bool-cases (ltb n 10)) [
  | inl last ↦
      let d = is_digit-digit_char n (ground (arith, last)) in
      rw (digits_onto-last fuel 10 n rest last, d) h
  | inr more ↦
      let above : 10 ≤ n = ground (arith, more) in
      let d = is_digit-digit_char (n % 10) (mod-lt n (omega arith)) in
      rw (digits_onto-more fuel 10 n rest more) (
        digits_onto-digits fuel (n / 10) _ (below-quotient fuel n 10 (omega arith) above enough)
          (rw d h))
]

pub digits_of-digits : (n : ℕ) → all_of is_digit (digits_of 10 n) ≡ true
unfolding digits_of
digits_of-digits n = digits_onto-digits (suc n) n [] (omega arith) refl

number_onto-read :
    (n : ℕ) (t : Text) → all_of is_digit t ≡ true → number_onto n t ≡ read_onto 10 n t
number_onto-read n [] h = refl
number_onto-read n (c ∷ cs) h = elim (Bool-cases (is_digit c)) [
  | inl d ↦
      let below : ltb c 65 ≡ true = ground (arith, d) in
      rw below (number_onto-read (n * 10 + _) cs (rw d at h))
  | inr other ↦ absurd (cc (rw other at h))
]

pub number_onto-digits_of : (n : ℕ) → number_onto 0 (digits_of 10 n) ≡ n
number_onto-digits_of n =
    number_onto-read 0 (digits_of 10 n) (digits_of-digits n)
    ∙ read-digits_of 10 n (omega arith) (omega arith)

-- A single digit
pub digits_of-digit : (d : ℕ) → d < 10 → digits_of 10 d ≡ (48 + d) ∷ []
unfolding digits_of digit_char
digits_of-digit d h =
    let small : ltb d 10 ≡ true = ground arith in rw (digits_onto-last d 10 d [] small, small) refl

pub before_point-digits : (t : Text) → all_of is_digit t ≡ true → before_point t ≡ t
before_point-digits [] h = refl
before_point-digits (c ∷ cs) h = elim (Bool-cases (is_digit c)) [
  | inl d ↦
      let other : (c == 46) ≡ false = ground (arith, d) in
      rw other (ap (c ∷◌) (before_point-digits cs (rw d at h)))
  | inr other ↦ absurd (cc (rw other at h))
]

pub places-digits : (t : Text) → all_of is_digit t ≡ true → places t ≡ []
places-digits [] h = refl
places-digits (c ∷ cs) h = elim (Bool-cases (is_digit c)) [
  | inl d ↦
      let other : (c == 46) ≡ false = ground (arith, d) in rw other (places-digits cs (rw d at h))
  | inr other ↦ absurd (cc (rw other at h))
]

pub before_point-fraction :
    (t f : Text)
    → all_of is_digit t ≡ true
    → (before_point (t ++ 46 ∷ f) ≡ t) × (places (t ++ 46 ∷ f) ≡ f)
before_point-fraction [] f h = (refl, refl)
before_point-fraction (c ∷ cs) f h = elim (Bool-cases (is_digit c)) [
  | inl d ↦
      let other : (c == 46) ≡ false = ground (arith, d) in
      let rest = before_point-fraction cs f (rw d at h) in rw other (ap (c ∷◌) rest.0, rest.1)
  | inr other ↦ absurd (cc (rw other at h))
]
