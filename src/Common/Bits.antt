-- ===== src/Common/Bits.antt =====
-- The bitwise "or" and "and" of the native numbers at variables: by digits, on disjoint numbers, and on a
-- shifted number with a new lowest bit.
use Prim.Native.Nat.{
  ℕ, zero, suc, ◌+◌, ◌-◌, ◌*◌, ◌/◌, ◌%◌, ◌^◌, ◌≤◌, ◌<◌, min, max, bit_or, bit_and, digits,
  bit_or-bitwise, bit_and-bitwise,
}
use mathlib.Core.Path.{◌≡◌, refl, sym, ap, ◌∙◌}
use native.Mathlib.Omega.{arith}
use native.Mathlib.Numerals.{add-one}
use native.Mathlib.Nat.{
  pow-suc, pow-le-pow_right, div-add-mod', mod-lt, mul-add-mod_self_left, mod-eq_of_lt,
}

pub pow-le : (j k : ℕ) → j ≤ k → 2 ^ j ≤ 2 ^ k
pow-le j k h = pow-le-pow_right (omega arith) h

pub pow-next : (i : ℕ) → 2 ^ (i + 1) ≡ 2 ^ i * 2
pow-next i = rw (add-one i) (omega (arith, pow-suc 2 i))

abbrev or_digits : ℕ → ℕ → ℕ → ℕ
or_digits n a b = digits (λ b. b) max n a b

or_digits_fuel : (n m a b : ℕ) → a ≤ n → a ≤ m → or_digits n a b ≡ or_digits m a b
or_digits_fuel zero zero a b p q = refl
or_digits_fuel zero (suc m) zero b p q = refl
or_digits_fuel zero (suc m) (suc a) b p q = absurd (omega arith)
or_digits_fuel (suc n) zero zero b p q = refl
or_digits_fuel (suc n) zero (suc a) b p q = absurd (omega arith)
or_digits_fuel (suc n) (suc m) zero b p q = refl
or_digits_fuel (suc n) (suc m) (suc a) b p q =
    omega (arith, or_digits_fuel n m (suc a / 2) (b / 2) (omega arith) (omega arith))

pub zero-bit_or : (b : ℕ) → bit_or 0 b ≡ b
zero-bit_or b = bit_or-bitwise 0 b

bit_or_step : (a b : ℕ) → bit_or a b ≡ bit_or (a / 2) (b / 2) * 2 + max (a % 2) (b % 2)
bit_or_step zero b = omega (arith, zero-bit_or b, zero-bit_or (b / 2))
bit_or_step (suc a) b = omega (
  arith,
  bit_or-bitwise (suc a) b,
  bit_or-bitwise (suc a / 2) (b / 2),
  or_digits_fuel a (suc a / 2) (suc a / 2) (b / 2) (omega arith) (omega arith),
)

bit_or-zero_fuel : (n a : ℕ) → a ≤ n → bit_or a 0 ≡ a
bit_or-zero_fuel n zero h = refl
bit_or-zero_fuel zero (suc a) h = absurd (omega arith)
bit_or-zero_fuel (suc n) (suc a) h =
    omega (arith, bit_or_step (suc a) 0, bit_or-zero_fuel n (suc a / 2) (omega arith))

pub bit_or-zero : (a : ℕ) → bit_or a 0 ≡ a
bit_or-zero a = bit_or-zero_fuel a a (omega arith)

-- `(a << 1) | b` for one bit `b`
pub bit_or-double : (a b : ℕ) → b ≤ 1 → bit_or (a * 2) b ≡ a * 2 + b
bit_or-double a b h =
    let e : a * 2 / 2 ≡ a = omega arith in
    let z : b / 2 ≡ 0 = omega arith in
    let half : bit_or (a * 2 / 2) (b / 2) ≡ a = rw (e, z) (bit_or-zero a) in
    omega (arith, bit_or_step (a * 2) b)

-- `a | (b << k)` where `a` has no bit at `k` or above
pub bit_or-disjoint : (k a b : ℕ) → a < 2 ^ k → bit_or a (b * 2 ^ k) ≡ a + b * 2 ^ k
bit_or-disjoint zero a b h =
    let z : a ≡ 0 = omega arith in rw z (omega (arith, zero-bit_or (b * 2 ^ 0)))
bit_or-disjoint (suc k) a b h =
    let p : 2 ^ suc k ≡ 2 ^ k * 2 = omega (arith, pow-suc 2 k) in
    let e : b * 2 ^ suc k / 2 ≡ b * 2 ^ k = rw p (omega arith) in
    let low : b * 2 ^ suc k % 2 ≡ 0 = rw p (omega arith) in
    let small : a / 2 < 2 ^ k = omega arith in
    let half : bit_or (a / 2) (b * 2 ^ suc k / 2) ≡ a / 2 + b * 2 ^ k =
      rw e (bit_or-disjoint k (a / 2) b small) in
    omega (arith, bit_or_step a (b * 2 ^ suc k))

abbrev and_digits : ℕ → ℕ → ℕ → ℕ
and_digits n a b = digits (λ b. zero) min n a b

and_digits-bound : (n m a b : ℕ) → a ≤ n → a ≤ m → and_digits n a b ≡ and_digits m a b
and_digits-bound zero zero a b p q = refl
and_digits-bound (suc n) zero zero b p q = refl
and_digits-bound (suc n) zero (suc a) b p q = absurd (omega arith)
and_digits-bound zero (suc m) zero b p q = refl
and_digits-bound zero (suc m) (suc a) b p q = absurd (omega arith)
and_digits-bound (suc n) (suc m) zero b p q = refl
and_digits-bound (suc n) (suc m) (suc a) b p q =
    let below : suc a / 2 ≤ n = omega arith in
    let below' : suc a / 2 ≤ m = omega arith in
    omega (arith, and_digits-bound n m (suc a / 2) (b / 2) below below')

bit_and_halves : (a b : ℕ) → bit_and a b ≡ bit_and (a / 2) (b / 2) * 2 + min (a % 2) (b % 2)
bit_and_halves zero b = omega (arith, bit_and-bitwise 0 b, bit_and-bitwise 0 (b / 2))
bit_and_halves (suc a) b =
    let small : suc a / 2 ≤ a = omega arith in
    let half : and_digits a (suc a / 2) (b / 2) ≡ and_digits (suc a / 2) (suc a / 2) (b / 2) =
      and_digits-bound a (suc a / 2) (suc a / 2) (b / 2) small (omega arith) in
    omega (arith, bit_and-bitwise (suc a) b, bit_and-bitwise (suc a / 2) (b / 2))

bit_and-zero_below : (n a : ℕ) → a ≤ n → bit_and a 0 ≡ 0
bit_and-zero_below n zero h = omega (arith, bit_and-bitwise 0 0)
bit_and-zero_below zero (suc a) h = absurd (omega arith)
bit_and-zero_below (suc n) (suc a) h =
    omega (arith, bit_and_halves (suc a) 0, bit_and-zero_below n (suc a / 2) (omega arith))

-- `acc & (1 << k)` where `h` is the bit at `k`, and no bit stands above it
pub bit_and-pow : (k h l : ℕ) → h ≤ 1 → l < 2 ^ k → bit_and (l + h * 2 ^ k) (2 ^ k) ≡ h * 2 ^ k
bit_and-pow zero zero l bit small = let z : l ≡ 0 = omega arith in rw z (bit_and-bitwise 0 1)
bit_and-pow zero (suc zero) l bit small = let z : l ≡ 0 = omega arith in rw z refl
bit_and-pow zero (suc (suc h)) l bit small = absurd (omega arith)
bit_and-pow (suc k) h l bit small =
    let p : 2 ^ suc k ≡ 2 ^ k * 2 = omega (arith, pow-suc 2 k) in
    let q : h * 2 ^ suc k ≡ h * 2 ^ k * 2 = rw p (omega arith) in
    let a : (l + h * 2 ^ suc k) / 2 ≡ l / 2 + h * 2 ^ k = omega arith in
    let b : 2 ^ suc k / 2 ≡ 2 ^ k = omega arith in
    let low : 2 ^ suc k % 2 ≡ 0 = omega arith in
    let half : bit_and ((l + h * 2 ^ suc k) / 2) (2 ^ suc k / 2) ≡ h * 2 ^ k =
      rw (a, b) (bit_and-pow k h (l / 2) bit (omega arith)) in
    omega (arith, bit_and_halves (l + h * 2 ^ suc k) (2 ^ suc k))

-- `a & ((1 << k) - 1)`
pub bit_and-mask : (k a : ℕ) → bit_and a (2 ^ k - 1) ≡ a % 2 ^ k
bit_and-mask zero a = omega (arith, bit_and-zero_below a a (omega arith))
bit_and-mask (suc k) a =
    let p : 2 ^ suc k ≡ 2 ^ k * 2 = omega (arith, pow-suc 2 k) in
    let whole : 2 ^ suc k - 1 ≡ (2 ^ k - 1) * 2 + 1 = omega (arith, p, pow-le 0 k (omega arith)) in
    let b : ((2 ^ k - 1) * 2 + 1) / 2 ≡ 2 ^ k - 1 = omega arith in
    let half : bit_and (a / 2) (((2 ^ k - 1) * 2 + 1) / 2) ≡ a / 2 % 2 ^ k =
      rw b (bit_and-mask k (a / 2)) in
    let q = a / 2 / 2 ^ k in
    let r = a / 2 % 2 ^ k in
    let split : q * 2 ^ k + r ≡ a / 2 = div-add-mod' (a / 2) (2 ^ k) in
    let low : r < 2 ^ k = mod-lt (a / 2) (omega (arith, pow-le 0 k (omega arith))) in
    let parts : 2 ^ suc k * q + (r * 2 + a % 2) ≡ a = rw p (omega (arith, split)) in
    let rest : a % 2 ^ suc k ≡ r * 2 + a % 2 =
      ap (λ (x : ℕ). x % 2 ^ suc k) (sym parts)
      ∙ mul-add-mod_self_left (2 ^ suc k) q (r * 2 + a % 2)
      ∙ mod-eq_of_lt (omega (arith, p, low)) in
    rw whole (omega (arith, bit_and_halves a ((2 ^ k - 1) * 2 + 1), half, rest))
