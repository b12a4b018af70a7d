-- ===== src/Time/Units.antt =====
-- Units and powers of ten: the exponent of a unit as a number below 0.
use native.Mathlib.Nat.{pow-suc, one-le-pow, mul_assoc}
use kahuna.Common.{
  ℕ, zero, suc, ◌+◌, ◌-◌, ◌*◌, ◌^◌, ◌≤◌, ◌<◌, ◌≡◌, refl, sym, ap, ◌∙◌, true, false, List, [], ◌∷◌,
  none, some, get_elem?, leb, pos, negsuc, ◌⊖◌, ◌-ℤ◌, arith, Bool-cases, inl, inr,
}
use kahuna.Time.{
  TimeUnit, zepto_seconds, atto_seconds, femto_seconds, pico_seconds, nano_seconds, micro_seconds,
  milli_seconds, seconds, no_unit, auto, exponent, from_exponent, powers, power_or, pow10,
}
use kahuna.Time.Input.{is_no_unit}

-- The entries are powers of ten, from the given exponent on.
abbrev IsPowers : ℕ → List ℕ → Type 0
IsPowers e [] = Unit
IsPowers e (p ∷ ps) = (p ≡ 10 ^ e) × IsPowers (suc e) ps

power_lem :
    (e i : ℕ) (ps : List ℕ) → IsPowers e ps → power_or (e + i) (get_elem? ps i) ≡ 10 ^ (e + i)
power_lem e i [] h = refl
power_lem e zero (p ∷ ps) h = let z : e + 0 ≡ e = omega arith in rw z h.0
power_lem e (suc i) (p ∷ ps) h =
    let z : e + suc i ≡ suc e + i = omega arith in rw z (power_lem (suc e) i ps h.1)

pub pow10_lem : (e : ℕ) → pow10 e ≡ 10 ^ e
unfolding pow10
pow10_lem e =
    let z : 0 + e ≡ e = omega arith in
    rw z at (
      power_lem 0 e powers (
        refl,
        (
          refl,
          (
            refl,
            (
              refl,
              (
                refl,
                (
                  refl,
                  (
                    refl,
                    (
                      refl,
                      (
                        refl,
                        (
                          refl,
                          (
                            refl,
                            (
                              refl,
                              (
                                refl,
                                (
                                  refl,
                                  (
                                    refl,
                                    (refl, (refl, (refl, (refl, (refl, (refl, (refl, tt))))))),
                                  ),
                                ),
                              ),
                            ),
                          ),
                        ),
                      ),
                    ),
                  ),
                ),
              ),
            ),
          ),
        ),
      ))

pub pow10_pos : (e : ℕ) → 0 < 10 ^ e
pow10_pos e = one-le-pow e 10 (omega arith)

-- How far the exponent of a unit is below 0.
abbrev pub below : TimeUnit → ℕ
below zepto_seconds = 21
below atto_seconds = 18
below femto_seconds = 15
below pico_seconds = 12
below nano_seconds = 9
below micro_seconds = 6
below milli_seconds = 3
below seconds = 0
below no_unit = 0
below auto = 0

pub exponent-below : (u : TimeUnit) → exponent u ≡ 0 ⊖ below u
exponent-below zepto_seconds = refl
exponent-below atto_seconds = refl
exponent-below femto_seconds = refl
exponent-below pico_seconds = refl
exponent-below nano_seconds = refl
exponent-below micro_seconds = refl
exponent-below milli_seconds = refl
exponent-below seconds = refl
exponent-below no_unit = refl
exponent-below auto = refl

pub difference : (m n : ℕ) → n ≤ m → m ⊖ n ≡ pos (m - n)
difference m n h = let fits : leb n m ≡ true = ground arith in rw fits refl

pub deficit : (m n k : ℕ) → n ≡ m + suc k → m ⊖ n ≡ negsuc k
deficit m n k h =
    let late : leb n m ≡ false = ground arith in
    let z : n - m - 1 ≡ k = omega arith in rw (late, z) refl

pub difference_below : (m n : ℕ) → m ≤ n → m ⊖ n ≡ 0 ⊖ (n - m)
difference_below m n h = elim (Bool-cases (leb n m)) [
  | inl same ↦
      let z : n - m ≡ 0 = ground (arith, same) in
      let y : m - n ≡ 0 = ground (arith, same) in
      difference m n (ground (arith, same)) ∙ rw (y, z) refl
  | inr less_of ↦
      let k = n - m - 1 in
      deficit m n k (ground (arith, less_of)) ∙ sym (deficit 0 (n - m) k (ground (arith, less_of)))
]

suc-difference : (m n : ℕ) → m ⊖ n ≡ suc m ⊖ suc n
suc-difference m n = elim (Bool-cases (leb n m)) [
  | inl fits ↦
      let z : suc m - suc n ≡ m - n = omega arith in
      difference m n (ground (arith, fits))
      ∙ sym (difference (suc m) (suc n) (ground (arith, fits)) ∙ ap pos z)
  | inr late ↦
      let k = n - m - 1 in
      deficit m n k (ground (arith, late)) ∙ sym (deficit (suc m) (suc n) k (ground (arith, late)))
]

pub sub_negative : (a b : ℕ) → (0 ⊖ a) -ℤ (0 ⊖ b) ≡ b ⊖ a
sub_negative zero zero = refl
sub_negative zero (suc b) =
    let z : 0 + b + 1 ≡ suc b - 0 = omega arith in
    rw (deficit 0 (suc b) b (omega arith)) (ap pos z ∙ sym (difference (suc b) 0 (omega arith)))
sub_negative (suc a) zero =
    let z : a + 0 ≡ a = omega arith in rw (deficit 0 (suc a) a (omega arith)) (ap negsuc z)
sub_negative (suc a) (suc b) =
    rw (deficit 0 (suc a) a (omega arith), deficit 0 (suc b) b (omega arith)) (suc-difference b a)

pub sub_pos : (b c m : ℕ) → (b ⊖ c) -ℤ pos m ≡ b ⊖ (c + m)
sub_pos b c m = elim (Bool-cases (leb c b)) [
  | inl fits ↦ rw (difference b c (ground (arith, fits))) (elim (Bool-cases (leb m (b - c))) [
    | inl more ↦
        let z : b - c - m ≡ b - (c + m) = omega arith in
        difference (b - c) m (ground (arith, more))
        ∙ ap pos z
        ∙ sym (difference b (c + m) (ground (arith, more, fits)))
    | inr less_of ↦
        let k = m - (b - c) - 1 in
        deficit (b - c) m k (ground (arith, less_of))
        ∙ sym (deficit b (c + m) k (ground (arith, less_of, fits)))
  ])
  | inr late ↦
      let k = c - b - 1 in
      rw (deficit b c k (ground (arith, late)))
        (sym (deficit b (c + m) (k + m) (ground (arith, late))))
]

pub pow10_add : (a b : ℕ) → 10 ^ (a + b) ≡ 10 ^ a * 10 ^ b
pow10_add a zero = let z : a + 0 ≡ a = omega arith in rw z (omega arith)
pow10_add a (suc b) =
    let z : a + suc b ≡ suc (a + b) = omega arith in
    rw (z, pow-suc 10 (a + b), pow-suc 10 b, pow10_add a b) (mul_assoc (10 ^ a) (10 ^ b) 10)

-- The thousands below a second that have a unit, by their number
pub unit_found :
    (j : ℕ)
    → j ≤ 7
    → (u : TimeUnit) × (from_exponent (0 ⊖ j * 3) ≡ some u)
      × (below u ≡ j * 3)
      × (is_no_unit u ≡ false)
unit_found zero h = (seconds, refl, refl, refl)
unit_found (suc zero) h = (milli_seconds, refl, refl, refl)
unit_found (suc (suc zero)) h = (micro_seconds, refl, refl, refl)
unit_found (suc (suc (suc zero))) h = (nano_seconds, refl, refl, refl)
unit_found (suc (suc (suc (suc zero)))) h = (pico_seconds, refl, refl, refl)
unit_found (suc (suc (suc (suc (suc zero))))) h = (femto_seconds, refl, refl, refl)
unit_found (suc (suc (suc (suc (suc (suc zero)))))) h = (atto_seconds, refl, refl, refl)
unit_found (suc (suc (suc (suc (suc (suc (suc zero))))))) h = (zepto_seconds, refl, refl, refl)
unit_found (suc (suc (suc (suc (suc (suc (suc (suc j)))))))) h = absurd (omega arith)

pub no_unit_found : (n : ℕ) → 21 < n → from_exponent (0 ⊖ n) ≡ none
no_unit_found n h = let k = n - 1 in rw (deficit 0 n k (omega arith)) (ground arith)

pub thirds : (u : TimeUnit) → (j : ℕ) × (below u ≡ j * 3) × (j ≤ 7)
thirds zepto_seconds = (7, refl, omega arith)
thirds atto_seconds = (6, refl, omega arith)
thirds femto_seconds = (5, refl, omega arith)
thirds pico_seconds = (4, refl, omega arith)
thirds nano_seconds = (3, refl, omega arith)
thirds micro_seconds = (2, refl, omega arith)
thirds milli_seconds = (1, refl, omega arith)
thirds seconds = (0, refl, omega arith)
thirds no_unit = (0, refl, omega arith)
thirds auto = (0, refl, omega arith)
