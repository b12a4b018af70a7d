-- ===== src/Time/Scale.antt =====
-- Ticks of a time scale: the value of a time in its own unit, divided by the length of a tick.
use native.Mathlib.Nat.{mul-div_cancel, mul-div-mul_right, mul_assoc}
use kahuna.Common.{
  ℕ, suc, ◌+◌, ◌-◌, ◌*◌, ◌/◌, ◌^◌, ◌≡◌, sym, ap, ◌∙◌, some, leb, ◌==◌, pos, ◌⊖◌, ◌-ℤ◌, ok, arith,
  Bool-cases, inl, inr,
}
use kahuna.Time.{TimeUnit, TimeScale, multiplier_digits, exponent, scaled, scale_time}
use kahuna.Time.Units.{
  below, exponent-below, pow10_lem, pow10_pos, pow10_add, difference, deficit, sub_negative,
  sub_pos,
}

times_power : (v k : ℕ) → scaled v (pos k) ≡ v * 10 ^ k
times_power v k = elim (Bool-cases (k == 0)) [
  | inl whole ↦ let z : k ≡ 0 = ground (arith, whole) in rw z (omega arith)
  | inr more ↦ rw more (ap (v *◌) (pow10_lem k))
]

scaled_lem : (v b c : ℕ) → scaled v (b ⊖ c) ≡ v * 10 ^ b / 10 ^ c
scaled_lem v b c = elim (Bool-cases (leb c b)) [
  | inl fits ↦
      let k = b - c in
      let z : k + c ≡ b = ground (arith, fits) in
      rw (difference b c (ground (arith, fits))) (
        times_power v k
        ∙ sym (mul-div_cancel (v * 10 ^ k) (pow10_pos c))
        ∙ ap (λ (n : ℕ). n / 10 ^ c)
            (mul_assoc v (10 ^ k) (10 ^ c) ∙ ap (v *◌) (sym (pow10_add k c) ∙ ap (10 ^◌) z)))
  | inr late ↦
      let k = c - b - 1 in
      let z : suc k + b ≡ c = ground (arith, late) in
      rw (deficit b c k (ground (arith, late))) (
        ap (λ (n : ℕ). v / n) (pow10_lem (suc k))
        ∙ sym (mul-div-mul_right v (10 ^ suc k) (pow10_pos b))
        ∙ ap (λ (n : ℕ). v * 10 ^ b / n) (sym (pow10_add (suc k) b) ∙ ap (10 ^◌) z))
]

exponents : (u t : TimeUnit) → exponent u -ℤ exponent t ≡ below t ⊖ below u
exponents u t = rw (exponent-below u, exponent-below t) (sub_negative (below u) (below t))

-- A number of units is turned into ticks by one division, which rounds down: a unit is
-- 10 ^ -(below u) seconds, and a tick the multiplier of the scale in its own unit.
pub scale_time-ratio :
    (value : ℕ) (u : TimeUnit) (timescale : TimeScale) {m : ℕ}
    → multiplier_digits timescale ≡ ok m
    → scale_time value (exponent u -ℤ exponent timescale.unit) timescale
      ≡ ok (some (value * 10 ^ below timescale.unit / 10 ^ (below u + m)))
unfolding scale_time
scale_time-ratio value u timescale {m} digits =
    rw (digits, exponents u timescale.unit, sub_pos (below timescale.unit) (below u) m)
      (ap (λ n. ok (some n)) (scaled_lem value (below timescale.unit) (below u + m)))
