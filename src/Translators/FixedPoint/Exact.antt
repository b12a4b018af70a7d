-- ===== src/Translators/FixedPoint/Exact.antt =====
-- The value of a fixed point text: libsurfer/src/translation/fixed_point.rs.
use mathlib.Core.Path.{subst}
use native.Mathlib.Nat.{
  pow-suc, mod-lt, div-add-mod', mul-mod_left, mul-add-mod_self_left, mod-eq_of_lt,
  div-lt_iff_lt-mul, div-eq_of_lt,
}
use kahuna.Common.{
  ℕ, zero, suc, ◌+◌, ◌-◌, ◌*◌, ◌/◌, ◌%◌, ◌^◌, ◌≤◌, ◌<◌, ◌≡◌, refl, sym, ap, ◌∙◌, Bool-cases, true,
  false, [], ◌∷◌, ◌++◌, ltb, leb, ◌==◌, length, inl, inr, arith, ℤ, ◌⊎◌, pos, negsuc, ok,
}
use kahuna.Common.Bits.{bit_and-mask, pow-le}
use kahuna.Decoders.{Text, digits_of}
use kahuna.Time.Digits.{number_onto, number-append}
use kahuna.Translators.FixedPoint.{fractional_part, big_uint_to_ufixed, big_uint_to_sfixed}
use kahuna.Translators.FixedPoint.Decimals.{
  digits_value, places, before_point-digits, before_point-fraction, places-digits, digits_of-digits,
  digits_of-digit, number_onto-digits_of,
}

ten_powers : (k r : ℕ) → r * 10 ^ k ≡ r * 5 ^ k * 2 ^ k
ten_powers zero r = omega arith
ten_powers (suc k) r = rw (pow-suc 10 k, pow-suc 5 k, pow-suc 2 k) (omega (arith, ten_powers k r))

-- After as many rounds as there are places in base 2 nothing is left.
ends : (k r : ℕ) → r * 10 ^ k % 2 ^ k ≡ 0
ends k r = rw (ten_powers k r) (mul-mod_left (r * 5 ^ k) (2 ^ k))

module _ (k : ℕ) where
  abbrev weight : ℕ
  weight = 2 ^ k

  positive : 0 < weight
  positive = omega (arith, pow-le 0 k (omega arith))

  round :
      (r : ℕ) (rounds : ℕ)
      → r * 10 ^ suc rounds % weight ≡ 0
      → r * 10 % weight * 10 ^ rounds % weight ≡ 0
  round r rounds h =
      let whole : r * 10 / weight * weight + r * 10 % weight ≡ r * 10 =
        div-add-mod' (r * 10) weight in
      let e : r * 10 ^ suc rounds
          ≡ weight * (r * 10 / weight * 10 ^ rounds) + r * 10 % weight * 10 ^ rounds =
        rw (pow-suc 10 rounds) (omega (arith, ap (λ (t : ℕ). t * 10 ^ rounds) whole)) in
      sym (
        mul-add-mod_self_left weight (r * 10 / weight * 10 ^ rounds)
          (r * 10 % weight * 10 ^ rounds))
      ∙ ap (λ (t : ℕ). t % weight) (sym e)
      ∙ h

  digit : (r : ℕ) → r < weight → r * 10 / weight < 10
  digit r h = (div-lt_iff_lt-mul {k = weight} {x = r * 10} {y = 10} positive).1 (omega (arith, h))

  module _ (rounds r : ℕ) (small : r < weight) where
    fractional_part-last :
        (r * 10 % weight == 0) ≡ true
        → fractional_part (suc rounds) k r ≡ (48 + r * 10 / weight) ∷ []
    unfolding fractional_part
    fractional_part-last last =
        rw (bit_and-mask k (r * 10), digits_of-digit (r * 10 / weight) (digit r small), last) refl

    fractional_part-more :
        (r * 10 % weight == 0) ≡ false
        → fractional_part (suc rounds) k r
          ≡ (48 + r * 10 / weight) ∷ fractional_part rounds k (r * 10 % weight)
    unfolding fractional_part
    fractional_part-more more =
        rw (bit_and-mask k (r * 10), digits_of-digit (r * 10 / weight) (digit r small), more) refl

  abbrev Scaled : ℕ → ℕ → Text → Type 0
  Scaled w r f = number_onto w f * weight ≡ (w * weight + r) * 10 ^ length f

  -- The number of the digits behind a number
  pub fractional_part-Scaled :
      (rounds w r : ℕ)
      → r < weight
      → r * 10 ^ rounds % weight ≡ 0
      → Scaled w r (fractional_part rounds k r)
  unfolding fractional_part
  fractional_part-Scaled zero w r small h =
      let one : r * 10 ^ 0 ≡ r = omega arith in
      let z : r ≡ 0 = sym (mod-eq_of_lt small) ∙ rw one at h in rw z (omega arith)
  fractional_part-Scaled (suc rounds) w r small h =
      let d = r * 10 / weight in
      let left = r * 10 % weight in
      let whole : d * weight + left ≡ r * 10 = div-add-mod' (r * 10) weight in
      let shown : w * 10 + (48 + d - 48) ≡ w * 10 + d = omega arith in
      elim (Bool-cases (left == 0)) [
        | inl last ↦
            let z : left ≡ 0 = ground (arith, last) in
            let value : (w * 10 + d) * weight ≡ (w * weight + r) * 10 ^ 1 =
              omega (arith, whole, z) in
            subst (Scaled w r) (sym (fractional_part-last rounds r small last))
              (ap (λ (t : ℕ). t * weight) shown ∙ value)
        | inr more ↦
            let f = fractional_part rounds k left in
            let rest : Scaled (w * 10 + d) left f =
              fractional_part-Scaled rounds (w * 10 + d) left (mod-lt (r * 10) positive)
                (round r rounds h) in
            let value : ((w * 10 + d) * weight + left) * 10 ^ length f
                ≡ (w * weight + r) * 10 ^ suc (length f) =
              rw (pow-suc 10 (length f)) (omega (arith, ap (λ (t : ℕ). t * 10 ^ length f) whole)) in
            subst (Scaled w r) (sym (fractional_part-more rounds r small more))
              (ap (λ (t : ℕ). number_onto t f * weight) shown ∙ rest ∙ value)
      ]

-- The text is that of the number divided by a power of two, exactly.
abbrev pub Shows : ℤ → ℕ → Text → Type 0
Shows (pos k) uint t = digits_value t * 2 ^ k ≡ uint * 10 ^ length (places t)
Shows (negsuc n) uint t = (digits_value t ≡ uint * 2 ^ suc n) × (places t ≡ [])

integer-value : (n : ℕ) → digits_value (digits_of 10 n) ≡ n
integer-value n =
    let d = digits_of-digits n in
    ap (λ (t : Text). number_onto 0 (t ++ places (digits_of 10 n)))
      (before_point-digits (digits_of 10 n) d)
    ∙ ap (λ (t : Text). number_onto 0 (digits_of 10 n ++ t)) (places-digits (digits_of 10 n) d)
    ∙ number-append 0 (digits_of 10 n) []
    ∙ number_onto-digits_of n

integer-Shows : (k n uint : ℕ) → n * 2 ^ k ≡ uint → Shows (pos k) uint (digits_of 10 n)
integer-Shows k n uint e =
    let p = places-digits (digits_of 10 n) (digits_of-digits n) in
    ap (λ (m : ℕ). m * 2 ^ k) (integer-value n)
    ∙ e
    ∙ omega arith
    ∙ ap (λ (t : Text). uint * 10 ^ length t) (sym p)

fraction-Shows :
    (k n r uint : ℕ)
    → r < 2 ^ k
    → n * 2 ^ k + r ≡ uint
    → Shows (pos k) uint (digits_of 10 n ++ 46 ∷ fractional_part k k r)
fraction-Shows k n r uint small e =
    let f = fractional_part k k r in
    let split = before_point-fraction (digits_of 10 n) f (digits_of-digits n) in
    let w : number_onto 0 (digits_of 10 n ++ f) ≡ number_onto n f =
      number-append 0 (digits_of 10 n) f
      ∙ ap (λ (m : ℕ). number_onto m f) (number_onto-digits_of n) in
    rw (split.0, split.1, w)
      (fractional_part-Scaled k k n r small (ends k r) ∙ ap (λ (m : ℕ). m * 10 ^ length f) e)

-- The text of an unsigned number reads as the number divided by the power of two of the scaling
-- factor, exactly: its digits as one number, times the power, are the number times ten for each
-- place behind the point. For a negative factor the text is the product, without a point.
pub big_uint_to_ufixed-Shows :
    (uint : ℕ) (scaling : ℤ) → Shows scaling uint (big_uint_to_ufixed uint scaling)
unfolding big_uint_to_ufixed
big_uint_to_ufixed-Shows uint (negsuc n) =
    let m = uint * 2 ^ suc n in
    (integer-value m, places-digits (digits_of 10 m) (digits_of-digits m))
big_uint_to_ufixed-Shows uint (pos zero) = integer-Shows zero uint uint (omega arith)
big_uint_to_ufixed-Shows uint (pos (suc n)) =
    let k = suc n in
    let whole : uint / 2 ^ k * 2 ^ k + uint % 2 ^ k ≡ uint = div-add-mod' uint (2 ^ k) in
    rw (bit_and-mask k uint) (elim (Bool-cases (uint % 2 ^ k == 0)) [
      | inl none_left ↦
          let z : uint % 2 ^ k ≡ 0 = ground (arith, none_left) in
          rw none_left (integer-Shows k (uint / 2 ^ k) uint (omega (arith, whole, z)))
      | inr some_left ↦
          rw some_left
            (fraction-Shows k (uint / 2 ^ k) (uint % 2 ^ k) uint (mod-lt uint (positive k)) whole)
    ])

-- What a text of a signed value says of the bits of the value
abbrev pub SignedShows : ℕ → ℤ → ℕ → Text → Type 0
SignedShows n scaling uint t =
    ((uint < 2 ^ n) × Shows scaling uint t)
    ⊎ ((2 ^ n ≤ uint) × (m : Text) × (t ≡ 45 ∷ m) × Shows scaling (2 ^ suc n - uint) m)

quotient_one : (a p : ℕ) → p ≤ a → a / p < 2 → a / p * p + a % p ≡ a → a % p < p → a / p ≡ 1
quotient_one a p large q whole low = by_cases (a / p) q whole
  where
    by_cases : (d : ℕ) → d < 2 → d * p + a % p ≡ a → d ≡ 1
    by_cases zero q w = absurd (omega (arith, w, large, low))
    by_cases (suc zero) q w = refl
    by_cases (suc (suc d)) q w = absurd (omega (arith, q))

-- A number that fits its bits has a text as a signed value, without a panic: that of the number where
-- its top bit is not set, else a minus sign and the text of its two's complement.
pub big_uint_to_sfixed-SignedShows :
    (uint n : ℕ) (scaling : ℤ)
    → uint < 2 ^ suc n
    → (t : Text) × (big_uint_to_sfixed uint (suc n) scaling ≡ ok t) × SignedShows n scaling uint t
unfolding big_uint_to_sfixed
big_uint_to_sfixed-SignedShows uint n scaling fits =
    let p : 2 ^ suc n ≡ 2 ^ n * 2 = omega (arith, pow-suc 2 n) in
    let whole : uint / 2 ^ n * 2 ^ n + uint % 2 ^ n ≡ uint = div-add-mod' uint (2 ^ n) in
    let low : uint % 2 ^ n < 2 ^ n = mod-lt uint (positive n) in
    let q : uint / 2 ^ n < 2 =
      (div-lt_iff_lt-mul {k = 2 ^ n} {x = uint} {y = 2} (positive n)).1 (omega (arith, p)) in
    elim (Bool-cases (ltb uint (2 ^ n))) [
      | inl below ↦
          let small : uint < 2 ^ n = ground (arith, below) in
          let z : uint / 2 ^ n ≡ 0 = div-eq_of_lt small in
          let bit : (uint / 2 ^ n % 2 == 1) ≡ false = rw z refl in
          rw bit (
            big_uint_to_ufixed uint scaling,
            refl,
            inl (small, big_uint_to_ufixed-Shows uint scaling),
          )
      | inr above ↦
          let large : 2 ^ n ≤ uint = ground (arith, above) in
          let one : uint / 2 ^ n ≡ 1 = quotient_one uint (2 ^ n) large q whole low in
          let bit : (uint / 2 ^ n % 2 == 1) ≡ true = rw one refl in
          let room : leb uint (2 ^ suc n) ≡ true = ground (arith, fits) in
          let m = big_uint_to_ufixed (2 ^ suc n - uint) scaling in
          rw (bit, room)
            (
              45 ∷ m,
              refl,
              inr (large, m, refl, big_uint_to_ufixed-Shows (2 ^ suc n - uint) scaling),
            )
    ]
