-- ===== src/Translators/Basic.antt =====
-- libsurfer/src/translation/basic_translators.rs and compute_signed_value of numeric_translators.rs:
-- the translators, each by its text and kind of a value.
use kahuna.Common.{
  ℕ, suc, ◌+◌, ◌-◌, ◌*◌, ◌/◌, ◌%◌, ◌^◌, not, ◌&&◌, ◌||◌, List, [], ◌∷◌, ◌++◌, map, Option, none,
  some, ltb, leb, ◌==◌, if◌then◌else◌, length, Outcome, ok, err, panic,
}
use kahuna.Decoders.{Text, codes, digits_of, zero_padded}
use kahuna.Time.Input.{div_ceil}
use kahuna.Time.Format.{group_n_chars, join, reversed}
use kahuna.Translators.{
  VariableValue, big_uint, string, ValueKind, normal, warn, check_vector_variable,
  kind_for_binary_representation, extend_string, map_to_radix,
}

-- `{v:x}`, of the digits of a number in base 16
abbrev pub lower_hex : ℕ → ℕ
lower_hex c = if leb 65 c then c + 32 else c

abbrev pub hexadecimal : ℕ → VariableValue → Text × ValueKind
hexadecimal num_bits (big_uint v) =
    (map lower_hex (zero_padded ((num_bits + 3) / 4) (digits_of 16 v)), normal)
hexadecimal num_bits (string s) = map_to_radix s 4 num_bits

abbrev pub bit : ℕ → VariableValue → Text × ValueKind
bit num_bits (big_uint v) =
    (if v == 0 then 48 ∷ [] else if v == 1 then 49 ∷ [] else 45 ∷ [], normal)
bit num_bits (string s) = (s, kind_for_binary_representation s)

abbrev pub octal : ℕ → VariableValue → Text × ValueKind
octal num_bits (big_uint v) = (zero_padded (div_ceil num_bits 3) (digits_of 8 v), normal)
octal num_bits (string s) = map_to_radix s 3 num_bits

abbrev pub binary_text : ℕ → ℕ → Text
binary_text num_bits v = zero_padded num_bits (digits_of 2 v)

abbrev pub binary : ℕ → VariableValue → Text × ValueKind
binary num_bits (big_uint v) = (binary_text num_bits v, normal)
binary num_bits (string s) = (extend_string s num_bits ++ s, kind_for_binary_representation s)

abbrev pub grouping_binary : ℕ → VariableValue → Text × ValueKind
grouping_binary num_bits value =
    (join (32 ∷ []) (group_n_chars (binary num_bits value).0 4), (binary num_bits value).1)

-- How many characters at the start are `c`
abbrev pub leading : ℕ → Text → ℕ
leading c [] = 0
leading c (d ∷ ds) = let more = suc (leading c ds) in if d == c then more else 0

abbrev pub count_of : ℕ → Text → ℕ
count_of c [] = 0
count_of c (d ∷ ds) = let more = suc (count_of c ds) in if d == c then more else count_of c ds

-- A count in decimal, with the kind of the text
abbrev pub counted : ℕ → Text → Text × ValueKind
counted n s = (digits_of 10 n, kind_for_binary_representation s)

abbrev pub leading_ones_of : ℕ → Text → Text × ValueKind
leading_ones_of num_bits s =
    if length s == num_bits
    then counted (leading 49 s) s
    else (48 ∷ [], kind_for_binary_representation s)

abbrev pub leading_ones_text : ℕ → VariableValue → Text × ValueKind
leading_ones_text num_bits (big_uint v) = leading_ones_of num_bits (binary_text num_bits v)
leading_ones_text num_bits (string s) = leading_ones_of num_bits s

abbrev pub leading_zeros_of : ℕ → Text → Text × ValueKind
leading_zeros_of num_bits s = counted (leading 48 (extend_string s num_bits ++ s)) s

abbrev pub leading_zeros_text : ℕ → VariableValue → Text × ValueKind
leading_zeros_text num_bits (big_uint v) = leading_zeros_of num_bits (binary_text num_bits v)
leading_zeros_text num_bits (string s) = leading_zeros_of num_bits s

abbrev pub identical_msbs_of : ℕ → Text → Text × ValueKind
identical_msbs_of num_bits s =
    let extended = extend_string s num_bits ++ s in
    let zeros = leading 48 extended in
    let ones = leading 49 extended in counted (if leb zeros ones then ones else zeros) s

abbrev pub identical_msbs_text : ℕ → VariableValue → Text × ValueKind
identical_msbs_text num_bits (big_uint v) = identical_msbs_of num_bits (binary_text num_bits v)
identical_msbs_text num_bits (string s) = identical_msbs_of num_bits s

-- The text translators for numbers of ones and of trailing digits
abbrev pub number_of_ones_text : Text → Text × ValueKind
number_of_ones_text s = counted (count_of 49 s) s

abbrev pub trailing_ones_text : Text → Text × ValueKind
trailing_ones_text s = counted (leading 49 (reversed s)) s

abbrev pub trailing_zeros_text : ℕ → Text → Text × ValueKind
trailing_zeros_text num_bits s = counted (leading 48 (reversed (extend_string s num_bits ++ s))) s

-- `compute_signed_value`, where the width is not 0
unfoldable pub compute_signed_value : ℕ → ℕ → Text
unfolding digits_of
compute_signed_value v num_bits =
    let signweight = 2 ^ (num_bits - 1) in
    if ltb v signweight then digits_of 10 v else 45 ∷ digits_of 10 (signweight * 2 - v)

-- The error messages of `decode_lebxxx`
pub data LebError : Type 0 where
  invalid_msb invalid_flag : LebError

-- The bytes behind the first one: a byte has its flag (bit 7) exactly where the number is not 0 yet.
unfoldable pub fold_lebxxx : ℕ → List ℕ → Outcome LebError ℕ
fold_lebxxx result [] = ok result
fold_lebxxx result (b ∷ bytes) =
    let next = fold_lebxxx (result * 128 + b % 128) bytes in
    let unflagged = ltb b 128 in
    let first = result == 0 in
    if (unflagged && first) || (not unflagged && not first) then next else err invalid_flag

-- `decode_lebxxx` of the bytes of a number, most significant first
unfoldable pub decode_lebxxx : List ℕ → Outcome LebError ℕ
unfolding fold_lebxxx
decode_lebxxx [] = ok 0
decode_lebxxx (b ∷ bytes) =
    let decoded = fold_lebxxx b bytes in if leb 128 b then err invalid_msb else decoded

abbrev pub leb_message : LebError → Text
leb_message invalid_msb = codes "invalid MSB"
leb_message invalid_flag = codes "invalid flag"

abbrev pub leb_shown : ℕ → VariableValue → Outcome LebError ℕ → Text × ValueKind
leb_shown num_bits value (ok decoded) = (digits_of 10 decoded, normal)
leb_shown num_bits value (err e) =
    (leb_message e ++ (codes ": " ++ (grouping_binary num_bits value).0), warn)
leb_shown num_bits value panic = ([], warn)

module _ (to_bytes_be : ℕ → List ℕ) (parse_binary : Text → Option ℕ) where
  abbrev pub leb_of_parsed : ℕ → Text → Option ℕ → Text × ValueKind
  leb_of_parsed num_bits s none = (codes "INVALID", warn)
  leb_of_parsed num_bits s (some v) = leb_shown num_bits (string s) (decode_lebxxx (to_bytes_be v))

  abbrev pub leb_or : ℕ → Text → Option (Text × ValueKind) → Text × ValueKind
  leb_or num_bits s (some shown) = shown
  leb_or num_bits s none = leb_of_parsed num_bits s (parse_binary s)

  abbrev pub lebxxx : ℕ → VariableValue → Text × ValueKind
  lebxxx num_bits (big_uint v) = leb_shown num_bits (big_uint v) (decode_lebxxx (to_bytes_be v))
  lebxxx num_bits (string s) = leb_or num_bits s (check_vector_variable s)
