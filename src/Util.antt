-- ===== src/Util.antt =====
-- libsurfer/src/util.rs: the letters that stand for the index of a visible item, and the full
-- extension of a file name.
mod Tests
pub mod Letters
use kahuna.Common.{
  ℕ, zero, suc, ◌+◌, ◌-◌, ◌*◌, ◌/◌, ◌^◌, Bool, true, false, ◌&&◌, ◌||◌, List, [], ◌∷◌, map, Option,
  none, some, ltb, leb, ◌==◌, if◌then◌else◌, Outcome, ok, panic, require, is_digit, is_empty,
  all_of,
}
use kahuna.Decoders.{Text, digits_of, zero_padded}
use kahuna.Translators.Basic.{lower_hex}

-- `n.ilog(16)`, by divisions by 16. A number is fuel enough for them.
unfoldable pub sixteenths : ℕ → ℕ → ℕ
sixteenths zero n = 0
sixteenths (suc fuel) n = let rest = suc (sixteenths fuel (n / 16)) in if ltb n 16 then 0 else rest

-- '0' to '9' are 'a' to 'j', 'a' to 'f' are 'k' to 'p', and all else is '?'.
abbrev pub alpha_of : ℕ → ℕ
alpha_of c = if is_digit c then c + 49 else if leb 97 c && leb c 102 then c + 10 else 63

-- The digit in base 16 for a letter, in lower case
abbrev pub digit_of_alpha : ℕ → ℕ
digit_of_alpha c =
    if leb 97 c && leb c 106 then c - 49 else if leb 107 c && leb c 112 then c - 10 else 63

unfoldable pub uint_idx_to_alpha_idx : ℕ → ℕ → Outcome ⊥ Text
unfolding sixteenths digits_of zero_padded
uint_idx_to_alpha_idx idx nvariables =
    let width = sixteenths nvariables nvariables + 1 in
    require (ltb 0 nvariables)
      (ok (map alpha_of (map lower_hex (zero_padded width (digits_of 16 idx)))))

abbrev pub is_hex_digit : ℕ → Bool
is_hex_digit c = is_digit c || (leb 97 c && leb c 102)

abbrev pub hex_value : ℕ → ℕ
hex_value c = if is_digit c then c - 48 else c - 87

abbrev pub hex_onto : ℕ → Text → ℕ
hex_onto n [] = n
hex_onto n (c ∷ cs) = hex_onto (n * 16 + hex_value c) cs

abbrev pub within_usize : ℕ → Option ℕ
within_usize n = if ltb n (2 ^ 64) then some n else none

-- `usize::from_str_radix(&mapped, 16)`, of a text without a sign
abbrev pub from_hex : Text → Option ℕ
from_hex t =
    let value = within_usize (hex_onto 0 t) in
    if is_empty t then none else if all_of is_hex_digit t then value else none

unfoldable pub alpha_idx_to_uint_idx : Text → Option ℕ
alpha_idx_to_uint_idx idx = from_hex (map digit_of_alpha idx)

-- `get_multi_extension_from_filename`: what is behind the first point
abbrev pub multi_extension : Text → Option Text
multi_extension [] = none
multi_extension (c ∷ cs) = let later = multi_extension cs in if c == 46 then some cs else later
