-- ===== src/Translators/FixedPoint.antt =====
-- libsurfer/src/translation/fixed_point.rs: the text of a number with a binary point. A scaling factor
-- is an integer.
pub mod Decimals
pub mod Exact
use Prim.Native.Nat.{bit_and}
use kahuna.Common.{
  ℕ, zero, suc, ◌-◌, ◌*◌, ◌/◌, ◌%◌, ◌^◌, [], ◌∷◌, ◌++◌, leb, ◌==◌, if◌then◌else◌, ℤ, pos, negsuc,
  Outcome, ok, panic, ◌>>=◌, require,
}
use kahuna.Decoders.{Text, digits_of}
use kahuna.Analog.{Checked}

-- The digits that the loop adds in the given number of rounds
unfoldable pub fractional_part : ℕ → ℕ → ℕ → Text
unfolding digits_of
fractional_part zero scaling remainder = []
fractional_part (suc rounds) scaling remainder =
    let scaled = remainder * 10 in
    let left = bit_and scaled (2 ^ scaling - 1) in
    let rest = fractional_part rounds scaling left in
    digits_of 10 (scaled / 2 ^ scaling) ++ (if left == 0 then [] else rest)

abbrev pub with_fraction : ℕ → ℕ → ℕ → Text
with_fraction scaling integer_part remainder =
    if remainder == 0
    then digits_of 10 integer_part
    else digits_of 10 integer_part ++ 46 ∷ fractional_part scaling scaling remainder

unfoldable pub big_uint_to_ufixed : ℕ → ℤ → Text
unfolding fractional_part digits_of
big_uint_to_ufixed uint (negsuc n) = digits_of 10 (uint * 2 ^ suc n)
big_uint_to_ufixed uint (pos zero) = digits_of 10 uint
big_uint_to_ufixed uint (pos (suc n)) =
    with_fraction (suc n) (uint / 2 ^ suc n) (bit_and uint (2 ^ suc n - 1))

-- A `BigUint` that is subtracted from a smaller one panics.
unfoldable pub big_uint_to_sfixed : ℕ → ℕ → ℤ → Checked Text
unfolding big_uint_to_ufixed
big_uint_to_sfixed uint zero scaling = ok []
big_uint_to_sfixed uint (suc n) scaling =
    if uint / 2 ^ n % 2 == 1
    then require (leb uint (2 ^ suc n)) (ok (45 ∷ big_uint_to_ufixed (2 ^ suc n - uint) scaling))
    else ok (big_uint_to_ufixed uint scaling)
