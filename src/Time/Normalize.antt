-- ===== src/Time/Normalize.antt =====
-- A decimal number with a unit as a whole number of a smaller unit.
use native.Mathlib.Nat.{mul_assoc}
use kahuna.Common.{
  ℕ, ◌+◌, ◌-◌, ◌*◌, ◌%◌, ◌^◌, ◌≤◌, ◌<◌, ◌≡◌, refl, sym, ap, ◌∙◌, Bool, true, false, ◌&&◌, List, [],
  ◌∷◌, ◌++◌, append_assoc, append-nil, Option, none, some, length, length-append, ltb, ◌==◌, ok,
  err, ok-injective, pos, ◌-ℤ◌, is_digit, is_empty, all_of, trim_end_matches, trim, arith,
  Bool-cases, inl, inr,
}
use kahuna.Decoders.{Text}
use kahuna.Time.{TimeUnit, exponent, from_exponent}
use kahuna.Time.Input.{
  NumberError, too_many_places, too_much_precision, checked_parts, two_parts, split_points,
  strip_plus, starts_with, split_numeric_parts, is_zero_digit, div_ceil, with_zeros, is_no_unit,
  with_fraction, normalize_numeric_with_unit,
}
use kahuna.Time.Units.{
  below, exponent-below, pow10_lem, pow10_add, sub_pos, unit_found, no_unit_found, thirds,
}
use kahuna.Time.Digits.{
  number_onto, ReadsDigits, number-append, AllZero, number-AllZero, trim_end_matches-zeros,
  all_of-append, is_empty_nil,
}

smaller_unit :
    (u : TimeUnit) (steps : ℕ)
    → below u + steps * 3 ≤ 21
    → (v : TimeUnit) × (from_exponent (exponent u -ℤ pos (steps * 3)) ≡ some v)
      × (below v ≡ below u + steps * 3)
      × (is_no_unit v ≡ false)
smaller_unit u steps h =
    let j = thirds u in
    let z : below u + steps * 3 ≡ (j.0 + steps) * 3 = omega (arith, j.1) in
    let found = unit_found (j.0 + steps) (omega (arith, z)) in
    rw (exponent-below u, sub_pos 0 (below u) (steps * 3), z) found

no_smaller_unit :
    (u : TimeUnit) (steps : ℕ)
    → 21 < below u + steps * 3
    → from_exponent (exponent u -ℤ pos (steps * 3)) ≡ none
no_smaller_unit u steps h =
    rw (exponent-below u, sub_pos 0 (below u) (steps * 3)) (no_unit_found (below u + steps * 3) h)

-- What is known of the two parts of a number.
record AreDigits (parts : Text × Text) : Type 0 where
  integer : all_of is_digit parts.0 ≡ true
  some_digit : is_empty parts.0 ≡ false
  fraction : all_of is_digit parts.1 ≡ true

checked_digits :
    (t a b : Text) (parts : Text × Text) → checked_parts t a b ≡ ok parts → AreDigits parts
checked_digits t a b parts e = elim (Bool-cases (all_of is_digit a)) [
  | inl first ↦ elim (Bool-cases (all_of is_digit b)) [
    | inl second ↦
        let z = ok-injective (rw (first, second) at e) in
        rw (← z) (elim (Bool-cases (is_empty a)) [
          | inl none_given ↦
              rw none_given (record { integer = refl; some_digit = refl; fraction = second })
          | inr given ↦ rw given (record { integer = first; some_digit = given; fraction = second })
        ])
    | inr wrong ↦ let contra = rw (first, wrong) at e in cc
  ]
  | inr wrong ↦ let contra = rw wrong at e in cc
]

two_digits :
    (t : Text) (ps : List Text) (parts : Text × Text) → two_parts t ps ≡ ok parts → AreDigits parts
two_digits t [] parts e = checked_digits t [] [] parts e
two_digits t (a ∷ []) parts e = checked_digits t a [] parts e
two_digits t (a ∷ b ∷ []) parts e = checked_digits t a b parts e
two_digits t (a ∷ b ∷ c ∷ ps) parts e = cc

split_digits : (t : Text) (parts : Text × Text) → split_numeric_parts t ≡ ok parts → AreDigits parts
unfolding split_numeric_parts
split_digits t parts e = elim (Bool-cases (is_empty (trim t))) [
  | inl nothing ↦ let contra = rw nothing at e in cc
  | inr given ↦ elim (Bool-cases (starts_with 45 (trim t))) [
    | inl minus ↦ let contra = rw (given, minus) at e in cc
    | inr positive ↦
        two_digits t (split_points (strip_plus (trim t))) parts (rw (given, positive) at e)
  ]
]

is_empty-append : (s t : Text) → is_empty s ≡ false → is_empty (s ++ t) ≡ false
is_empty-append [] t e = cc
is_empty-append (c ∷ s) t e = refl

-- Digits by the thousand: enough, and less than a thousand more
div_ceil_bounds : (n : ℕ) → (n ≤ div_ceil n 3 * 3) × (div_ceil n 3 * 3 ≤ n + 2)
unfolding div_ceil
div_ceil_bounds n = elim (Bool-cases (n % 3 == 0)) [
  | inl even ↦ rw even (ground (arith, even), ground (arith, even))
  | inr more ↦ rw more (ground (arith, more), ground (arith, more))
]

with_zeros_lem : (v k : ℕ) → with_zeros v k ≡ v * 10 ^ k
unfolding with_zeros
with_zeros_lem v k = elim (Bool-cases (ltb 0 k)) [
  | inl some_zeros ↦ rw some_zeros (ap (v *◌) (pow10_lem k))
  | inr nothing ↦ let z : k ≡ 0 = ground (arith, nothing) in rw z (omega arith)
]

module _ (parse_bytes : Text → Option ℕ) (reads : ReadsDigits parse_bytes) (unit : TimeUnit)
    (i f : Text) (integer : all_of is_digit i ≡ true) (given : is_empty i ≡ false)
    (fraction : all_of is_digit f ≡ true) where
  -- The places of a fraction that fit above the zeptosecond
  with_fraction-ok :
      length f + below unit ≤ 21
      → (v : TimeUnit) × (with_fraction parse_bytes i f unit
          ≡ ok (number_onto 0 (i ++ f) * 10 ^ (div_ceil (length f) 3 * 3 - length f), v))
        × (below v ≡ below unit + div_ceil (length f) 3 * 3)
        × (is_no_unit v ≡ false)
  unfolding with_fraction
  with_fraction-ok h =
      let fits : ltb 21 (length f) ≡ false = ground (arith, h) in
      let j = thirds unit in
      let bounds = div_ceil_bounds (length f) in
      let found = smaller_unit unit (div_ceil (length f) 3) (omega (arith, h, j.1, bounds.1)) in
      let all : all_of is_digit (i ++ f) ≡ true =
        all_of-append is_digit i f ∙ rw (integer, fraction) refl in
      let read = reads (i ++ f) all (is_empty-append i f given) in
      (
        found.0,
        rw
            (
              fits,
              found.1,
              read,
              with_zeros_lem (number_onto 0 (i ++ f)) (div_ceil (length f) 3 * 3 - length f),
            )
            refl,
        found.2,
        found.3,
      )

  with_fraction-err :
      21 < length f + below unit → (e : NumberError) × (with_fraction parse_bytes i f unit ≡ err e)
  unfolding with_fraction
  with_fraction-err h = elim (Bool-cases (ltb 21 (length f))) [
    | inl long ↦ (too_many_places, rw long refl)
    | inr fits ↦
        let bounds = div_ceil_bounds (length f) in
        (
          too_much_precision,
          rw (fits, no_smaller_unit unit (div_ceil (length f) 3) (omega (arith, h, bounds.0))) refl,
        )
  ]

  -- A value with zeros for the places that are left, over the places of the fraction and its zeros
  places :
      (n k : ℕ)
      → n * 10 ^ (div_ceil (length f) 3 * 3 - length f) * 10 ^ (length f + k)
        ≡ n * 10 ^ k * 10 ^ (div_ceil (length f) 3 * 3)
  places n k =
      let extra = div_ceil (length f) 3 * 3 - length f in
      let z : extra + (length f + k) ≡ k + div_ceil (length f) 3 * 3 =
        omega (arith, (div_ceil_bounds (length f)).0) in
      mul_assoc n (10 ^ extra) (10 ^ (length f + k))
      ∙ ap (n *◌) (
          sym (pow10_add extra (length f + k))
          ∙ ap (10 ^◌) z
          ∙ pow10_add k (div_ceil (length f) 3 * 3))
      ∙ sym (mul_assoc n (10 ^ k) (10 ^ (div_ceil (length f) 3 * 3)))

and_left : (a b : Bool) → (a && b) ≡ true → a ≡ true
and_left a b h = ground arith

module _ (parse_bytes : Text → Option ℕ) (reads : ReadsDigits parse_bytes) (text : Text)
    (unit : TimeUnit) (parts : Text × Text) (split : split_numeric_parts text ≡ ok parts) where
  abbrev places_of : ℕ
  places_of = length (trim_end_matches is_zero_digit parts.1)

  trimmed_digits : all_of is_digit (trim_end_matches is_zero_digit parts.1) ≡ true
  trimmed_digits =
      let zeros = trim_end_matches-zeros parts.1 in
      let all = ap (all_of is_digit) (sym zeros.1) ∙ (split_digits text parts split).fraction in
      and_left _ (all_of is_digit zeros.0)
        (sym (all_of-append is_digit (trim_end_matches is_zero_digit parts.1) zeros.0) ∙ all)

  -- The digits of both parts, for the zeros that are dropped.
  whole_number :
      (zs : Text)
      → AllZero zs
      → parts.1 ≡ trim_end_matches is_zero_digit parts.1 ++ zs
      → number_onto 0 (parts.0 ++ parts.1)
        ≡ number_onto 0 (parts.0 ++ trim_end_matches is_zero_digit parts.1) * 10 ^ length zs
  whole_number zs all e =
      let kept = trim_end_matches is_zero_digit parts.1 in
      ap (λ (t : Text). number_onto 0 (parts.0 ++ t)) e
      ∙ ap (number_onto 0) (sym (append_assoc parts.0 kept zs))
      ∙ number-append 0 (parts.0 ++ kept) zs
      ∙ number-AllZero (number_onto 0 (parts.0 ++ kept)) zs all

  -- A decimal number whose places fit above the zeptosecond becomes a whole number of the same or a
  -- smaller unit (a unit of time stays one), and keeps its value: the whole number over the powers of ten of the unit is the number of
  -- all digits over the places of the fraction. `parse_bytes` reads decimal digits.
  pub normalize_numeric_with_unit-exact :
      places_of + below unit ≤ 21
      → (value : ℕ) × (smaller : TimeUnit) × (normalize_numeric_with_unit parse_bytes text unit
          ≡ ok (value, smaller))
        × (below unit ≤ below smaller)
        × (is_no_unit unit ≡ false → is_no_unit smaller ≡ false)
        × (value * 10 ^ length parts.1
            ≡ number_onto 0 (parts.0 ++ parts.1) * 10 ^ (below smaller - below unit))
  unfolding normalize_numeric_with_unit
  normalize_numeric_with_unit-exact h =
      let digits = split_digits text parts split in
      let zeros = trim_end_matches-zeros parts.1 in
      let kept = trim_end_matches is_zero_digit parts.1 in
      let size : length parts.1 ≡ length kept + length zeros.0 =
        ap length zeros.1 ∙ length-append kept zeros.0 in
      let whole = whole_number zeros.0 zeros.2 zeros.1 in
      elim (Bool-cases (is_empty kept)) [
        | inl no_fraction ↦
            let e = is_empty_nil kept no_fraction in
            let same : length parts.1 ≡ length zeros.0 = omega (arith, size, ap length e) in
            let z : below unit - below unit ≡ 0 = omega arith in
            let alone : number_onto 0 (parts.0 ++ kept) ≡ number_onto 0 parts.0 =
              ap (λ (t : Text). number_onto 0 (parts.0 ++ t)) e
              ∙ ap (number_onto 0) (append-nil parts.0) in
            let read = reads parts.0 digits.integer digits.some_digit in
            (
              number_onto 0 parts.0,
              unit,
              rw (split, no_fraction, read) refl,
              omega arith,
              λ proper. proper,
              rw (same, z, whole, alone) (omega arith),
            )
        | inr fraction ↦
            let run =
              with_fraction-ok parse_bytes reads unit parts.0 kept digits.integer digits.some_digit
                trimmed_digits h in
            let z : below run.0 - below unit ≡ div_ceil (length kept) 3 * 3 =
              omega (arith, run.2) in
            (
              number_onto 0 (parts.0 ++ kept) * 10 ^ (div_ceil (length kept) 3 * 3 - length kept),
              run.0,
              rw (split, fraction) run.1,
              omega (arith, run.2),
              λ proper. run.3,
              rw (size, z, whole)
                  (places parse_bytes reads unit parts.0 kept digits.integer digits.some_digit
                    trimmed_digits (number_onto 0 (parts.0 ++ kept)) (length zeros.0)),
            )
      ]

  -- A decimal number with more places than fit above the zeptosecond is refused.
  pub normalize_numeric_with_unit-too_fine :
      21 < places_of + below unit
      → (e : NumberError) × (normalize_numeric_with_unit parse_bytes text unit ≡ err e)
  unfolding normalize_numeric_with_unit
  normalize_numeric_with_unit-too_fine h =
      let digits = split_digits text parts split in
      let kept = trim_end_matches is_zero_digit parts.1 in
      elim (Bool-cases (is_empty kept)) [
        | inl no_fraction ↦ absurd (
            omega (
              arith,
              h,
              ap length (is_empty_nil kept no_fraction),
              (thirds unit).1,
              (thirds unit).2,
            ))
        | inr fraction ↦
            let run =
              with_fraction-err parse_bytes reads unit parts.0 kept digits.integer digits.some_digit
                trimmed_digits h in
            (run.0, rw (split, fraction) run.1)
      ]
