-- ===== src/Translators.antt =====
-- libsurfer/src/translation/basic_translators.rs, with what it uses of
-- surfer-translation-types/src/lib.rs and translator.rs: the texts and kinds of values. A `BigUint` is
-- a number; its `parse_bytes` and `to_bytes_be` are arguments.
mod Tests
pub mod Basic
pub mod Kinds
pub mod Leb
pub mod FixedPoint
use kahuna.Common.{
  ℕ, zero, suc, ◌+◌, ◌-◌, ◌*◌, ◌/◌, ◌%◌, ◌^◌, Bool, true, false, not, ◌&&◌, ◌||◌, List, [], ◌∷◌,
  ◌++◌, map, Option, none, some, ltb, leb, ◌==◌, if◌then◌else◌, length, replicate, Outcome, ok, err,
  panic, ◌>>=◌, all_of, is_empty,
}
use kahuna.Decoders.{Text, codes, digits_of, zero_padded}
use kahuna.Time.Input.{strip_plus}
use kahuna.Time.Format.{group_n_chars}

pub data VariableValue : Type 0 where
  big_uint : ℕ → VariableValue
  string : Text → VariableValue

-- The colour of a custom kind is its 32 bits.
pub data ValueKind : Type 0 where
  normal undef high_imp warn dont_care weak error event : ValueKind
  custom : ℕ → ValueKind

-- `s.contains(c)`
abbrev pub contains : ℕ → Text → Bool
contains c [] = false
contains c (d ∷ ds) = (d == c) || contains c ds

abbrev pub is_binary_digit : ℕ → Bool
is_binary_digit c = c == 48 || c == 49

-- The texts for values that are not of 0 and 1 only
abbrev pub undef_text : Text
undef_text = codes "UNDEF"

abbrev pub unknown_text : Text
unknown_text = codes "UNKNOWN VALUES"

-- The characters that are tested, in order: x z - u w h l
unfoldable pub check_vector_variable : Text → Option (Text × ValueKind)
check_vector_variable s =
    if contains 120 s
    then some (undef_text, undef)
    else if contains 122 s
    then some (codes "HIGHIMP", high_imp)
    else if contains 45 s
    then some (codes "DON'T CARE", dont_care)
    else if contains 117 s
    then some (undef_text, undef)
    else if contains 119 s
    then some (codes "UNDEF WEAK", undef)
    else if contains 104 s || contains 108 s
    then some (codes "WEAK", weak)
    else if all_of is_binary_digit s
    then none
    else some (unknown_text, undef)

unfoldable pub kind_for_binary_representation : Text → ValueKind
kind_for_binary_representation s =
    if contains 120 s
    then undef
    else if contains 122 s
    then high_imp
    else if contains 45 s
    then dont_care
    else if contains 117 s || contains 119 s
    then undef
    else if contains 104 s || contains 108 s
    then weak
    else normal

-- `Result<BigUint, (String, ValueKind)>`
unfoldable pub unparsable : Text → Text × ValueKind
unparsable s =
    if contains 120 s
    then (undef_text, undef)
    else if contains 122 s
    then (codes "HIGHIMP", high_imp)
    else if contains 45 s
    then (codes "DON'T CARE", dont_care)
    else if contains 117 s
    then (undef_text, undef)
    else if contains 119 s
    then (codes "UNDEF WEAK", undef)
    else if contains 104 s || contains 108 s
    then (codes "WEAK", weak)
    else (unknown_text, undef)

abbrev pub number_or : Option ℕ → Text × ValueKind → Outcome (Text × ValueKind) ℕ
number_or none other = err other
number_or (some n) other = ok n

module _ (parse_binary : Text → Option ℕ) where
  unfoldable pub map_vector_variable : Text → Outcome (Text × ValueKind) ℕ
  unfolding unparsable
  map_vector_variable s = number_or (parse_binary s) (unparsable s)

  abbrev pub parse_biguint : VariableValue → Outcome (Text × ValueKind) ℕ
  parse_biguint (big_uint v) = ok v
  parse_biguint (string s) = map_vector_variable s

-- The character that a text is extended with
abbrev pub extra_value : Text → Text
extra_value [] = []
extra_value (c ∷ cs) =
    if is_binary_digit c
    then 48 ∷ []
    else if c == 120 || c == 122 || c == 117 || c == 119 || c == 108 || c == 104 || c == 45
    then c ∷ []
    else []

abbrev pub repeat : ℕ → Text → Text
repeat zero t = []
repeat (suc n) t = t ++ repeat n t

unfoldable pub extend_string : Text → ℕ → Text
extend_string val num_bits =
    if ltb (length val) num_bits then repeat (num_bits - length val) (extra_value val) else []

-- `{:x}` of a number below 16, and `u8::from_str_radix(g, 2)` of a few binary digits
abbrev pub hex_digit : ℕ → ℕ
hex_digit d = if ltb d 10 then 48 + d else 87 + d

abbrev pub binary_onto : ℕ → Text → ℕ
binary_onto n [] = n
binary_onto n (c ∷ cs) = binary_onto (n * 2 + (c - 48)) cs

abbrev pub value_or : Bool → ℕ → ℕ
value_or true n = hex_digit n
value_or false n = 63

-- The digits may stand behind a plus sign.
abbrev pub bits_digit : Text → ℕ
bits_digit g =
    let bits = strip_plus g in
    value_or (not (is_empty bits) && all_of is_binary_digit bits) (binary_onto 0 bits)

-- A group as a digit, or as the character that stands for what is not a number
abbrev pub radix_digit : Text → ℕ
radix_digit g =
    if contains 120 g
    then 120
    else if contains 122 g
    then 122
    else if contains 45 g
    then 45
    else if contains 117 g
    then 117
    else if contains 119 g
    then 119
    else if contains 104 g
    then 104
    else if contains 108 g
    then 108
    else bits_digit g

unfoldable pub map_to_radix : Text → ℕ → ℕ → Text × ValueKind
unfolding extend_string group_n_chars kind_for_binary_representation
map_to_radix s radix num_bits =
    let formatted = map radix_digit (group_n_chars (extend_string s num_bits ++ s) radix) in
    (formatted, if contains 63 formatted then error else kind_for_binary_representation formatted)
