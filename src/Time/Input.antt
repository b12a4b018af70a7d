-- ===== src/Time/Input.antt =====
-- libsurfer/src/time.rs: a time that is typed in: its text, its unit, and the ticks that it stands for.
-- `parse_bytes` of a `BigInt` is an argument.
use kahuna.Common.{
  ℕ, ◌+◌, ◌-◌, ◌*◌, ◌/◌, ◌%◌, Bool, true, false, not, ◌&&◌, ◌||◌, List, [], ◌∷◌, ◌++◌, Option, none,
  some, ltb, ◌==◌, if◌then◌else◌, length, Outcome, ok, err, panic, ◌>>=◌, pos, ◌-ℤ◌, is_whitespace,
  is_digit, is_empty, all_of, trim_end_matches, trim,
}
use kahuna.Analog.{Checked}
use kahuna.Decoders.{Text}
use kahuna.References.{same_text}
use kahuna.Time.{
  TimeUnit, zepto_seconds, atto_seconds, femto_seconds, pico_seconds, nano_seconds, micro_seconds,
  milli_seconds, seconds, no_unit, TimeScale, exponent, from_exponent, pow10, scale_time,
}

-- The texts of the units, as character codes: zs as fs ps ns μs us ms s
abbrev pub sorted_units : List (Text × TimeUnit)
sorted_units =
    (122 ∷ 115 ∷ [], zepto_seconds)
    ∷ (97 ∷ 115 ∷ [], atto_seconds)
    ∷ (102 ∷ 115 ∷ [], femto_seconds)
    ∷ (112 ∷ 115 ∷ [], pico_seconds)
    ∷ (110 ∷ 115 ∷ [], nano_seconds)
    ∷ (956 ∷ 115 ∷ [], micro_seconds)
    ∷ (117 ∷ 115 ∷ [], micro_seconds)
    ∷ (109 ∷ 115 ∷ [], milli_seconds)
    ∷ (115 ∷ [], seconds)
    ∷ []

abbrev pub put_in_front : ℕ → Option Text → Option Text
put_in_front c none = none
put_in_front c (some cs) = some (c ∷ cs)

-- What is in front of an ending, where the text has it.
abbrev pub without_end : Text → Text → Option Text
without_end ending [] = if is_empty ending then some [] else none
without_end ending (c ∷ cs) =
    let longer = put_in_front c (without_end ending cs) in
    if same_text (c ∷ cs) ending then some [] else longer

abbrev pub ends_in_number : Text → Bool
ends_in_number [] = false
ends_in_number (c ∷ []) = is_digit c || c == 46
ends_in_number (c ∷ d ∷ cs) = ends_in_number (d ∷ cs)

-- The number in front of a unit, if it is one
abbrev pub number_before : Option Text → Option Text
number_before none = none
number_before (some front) =
    let numeric = trim_end_matches is_whitespace front in
    if not (is_empty front) && ends_in_number numeric then some numeric else none

abbrev pub found_or : Option Text → TimeUnit → Text × Option TimeUnit → Text × Option TimeUnit
found_or none unit rest = rest
found_or (some numeric) unit rest = (numeric, some unit)

unfoldable pub match_units : List (Text × TimeUnit) → Text → Text × Option TimeUnit
match_units [] trimmed = (trimmed, none)
match_units (u ∷ units) trimmed =
    found_or (number_before (without_end u.0 trimmed)) u.1 (match_units units trimmed)

unfoldable pub parse_time_input : Text → Text × Option TimeUnit
unfolding match_units
parse_time_input input = match_units sorted_units (trim input)

-- The messages of `Err`
pub data NumberError : Type 0 where
  empty_input negative multiple_points too_many_places too_much_precision : NumberError
  not_a_number : Text → NumberError

-- The parts between the points; there is one at least.
abbrev pub onto_first : ℕ → List Text → List Text
onto_first c [] = (c ∷ []) ∷ []
onto_first c (part ∷ parts) = (c ∷ part) ∷ parts

abbrev pub split_points : Text → List Text
split_points [] = [] ∷ []
split_points (c ∷ cs) =
    let parts = split_points cs in if c == 46 then [] ∷ parts else onto_first c parts

abbrev pub starts_with : ℕ → Text → Bool
starts_with d [] = false
starts_with d (c ∷ cs) = c == d

abbrev pub strip_plus : Text → Text
strip_plus [] = []
strip_plus (c ∷ cs) = if c == 43 then cs else c ∷ cs

-- The integer and the fractional part, of digits
abbrev pub checked_parts : Text → Text → Text → Outcome NumberError (Text × Text)
checked_parts numeric_str integer_part fractional_part =
    if all_of is_digit integer_part && all_of is_digit fractional_part
    then ok (if is_empty integer_part then 48 ∷ [] else integer_part, fractional_part)
    else err (not_a_number numeric_str)

abbrev pub two_parts : Text → List Text → Outcome NumberError (Text × Text)
two_parts numeric_str [] = checked_parts numeric_str [] []
two_parts numeric_str (integer_part ∷ []) = checked_parts numeric_str integer_part []
two_parts numeric_str (integer_part ∷ fractional_part ∷ []) =
    checked_parts numeric_str integer_part fractional_part
two_parts numeric_str (integer_part ∷ fractional_part ∷ more ∷ parts) = err multiple_points

unfoldable pub split_numeric_parts : Text → Outcome NumberError (Text × Text)
split_numeric_parts numeric_str =
    let trimmed = trim numeric_str in
    if is_empty trimmed
    then err empty_input
    else if starts_with 45 trimmed
    then err negative
    else two_parts numeric_str (split_points (strip_plus trimmed))

abbrev pub is_zero_digit : ℕ → Bool
is_zero_digit c = c == 48

abbrev pub unwrap_or : {A : Type 0} → A → Option A → A
unwrap_or y none = y
unwrap_or y (some x) = x

unfoldable pub div_ceil : ℕ → ℕ → ℕ
div_ceil n d = if n % d == 0 then n / d else n / d + 1

unfoldable pub with_zeros : ℕ → ℕ → ℕ
unfolding pow10
with_zeros value extra_zeros = if ltb 0 extra_zeros then value * pow10 extra_zeros else value

abbrev pub ok_or : {A E : Type 0} → E → Option A → Outcome E A
ok_or e none = err e
ok_or e (some x) = ok x

module _ (parse_bytes : Text → Option ℕ) where
  -- A fraction without zeros at its end, that is not empty
  unfoldable pub with_fraction : Text → Text → TimeUnit → Outcome NumberError (ℕ × TimeUnit)
  unfolding with_zeros div_ceil
  with_fraction integer_part fractional_part unit =
      let fractional_len = length fractional_part in
      let steps = div_ceil fractional_len 3 in
      if ltb 21 fractional_len then err too_many_places else do
        new_unit ← ok_or too_much_precision (from_exponent (exponent unit -ℤ pos (steps * 3)))
        let value = unwrap_or 0 (parse_bytes (integer_part ++ fractional_part))
        ok (with_zeros value (steps * 3 - fractional_len), new_unit)

  unfoldable pub normalize_numeric_with_unit : Text → TimeUnit → Outcome NumberError (ℕ × TimeUnit)
  unfolding split_numeric_parts with_fraction
  normalize_numeric_with_unit numeric_str unit = do
    parts ← split_numeric_parts numeric_str
    let fractional_part = trim_end_matches is_zero_digit parts.1
    if is_empty fractional_part
        then ok (unwrap_or 0 (parse_bytes parts.0), unit)
        else with_fraction parts.0 fractional_part unit

pub record TimeInputState : Type 0 where
  pub input_text : Text
  pub parsed_value : Option ℕ
  pub input_unit : Option TimeUnit
  pub normalized_unit : Option TimeUnit
  pub selected_unit : TimeUnit
  pub error : Option NumberError

abbrev pub default_input : TimeInputState
default_input = record {
  input_text = [];
  parsed_value = none;
  input_unit = none;
  normalized_unit = none;
  selected_unit = nano_seconds;
  error = none;
}

-- The state after the text was parsed.
abbrev pub with_result :
    Text → Option TimeUnit → TimeUnit → Outcome NumberError (ℕ × TimeUnit) → TimeInputState
with_result text unit selected (ok (value, normalized)) = record {
  input_text = text;
  parsed_value = some value;
  input_unit = unit;
  normalized_unit = some normalized;
  selected_unit = selected;
  error = none;
}
with_result text unit selected (err e) = record {
  input_text = text;
  parsed_value = none;
  input_unit = unit;
  normalized_unit = none;
  selected_unit = selected;
  error = some e;
}
with_result text unit selected panic = record {
  input_text = text;
  parsed_value = none;
  input_unit = unit;
  normalized_unit = none;
  selected_unit = selected;
  error = none;
}

abbrev pub or_option : {A : Type 0} → Option A → Option A → Option A
or_option none b = b
or_option (some a) b = some a

-- `unit == TimeUnit::None`
abbrev pub is_no_unit : TimeUnit → Bool
is_no_unit no_unit = true
is_no_unit other = false

module _ (parse_bytes : Text → Option ℕ) where
  unfoldable pub update_input : Text → TimeInputState → TimeInputState
  unfolding parse_time_input normalize_numeric_with_unit
  update_input input state =
      let parsed = parse_time_input input in
      with_result input parsed.1 state.selected_unit
        (normalize_numeric_with_unit parse_bytes parsed.0 (unwrap_or state.selected_unit parsed.1))

  abbrev pub effective_unit : TimeInputState → TimeUnit
  effective_unit state =
      unwrap_or state.selected_unit (or_option state.normalized_unit state.input_unit)

  abbrev pub ticks_of : ℕ → TimeUnit → TimeScale → Checked (Option ℕ)
  ticks_of value unit timescale =
      let base_unit = if is_no_unit unit then timescale.unit else unit in
      scale_time value (exponent base_unit -ℤ exponent timescale.unit) timescale

  unfoldable pub to_timescale_ticks : TimeInputState → TimeScale → Checked (Option ℕ)
  unfolding scale_time
  to_timescale_ticks state timescale = elim state.parsed_value [
    | none ↦ ok none
    | some value ↦ ticks_of value (effective_unit state) timescale
  ]

  abbrev pub ticks_of_result : Outcome NumberError (ℕ × TimeUnit) → TimeScale → Checked (Option ℕ)
  ticks_of_result (err e) timescale = ok none
  ticks_of_result panic timescale = panic
  ticks_of_result (ok (value, unit)) timescale =
      let scaled = scale_time value (exponent unit -ℤ exponent timescale.unit) timescale in
      if is_no_unit unit then ok (some value) else scaled

  unfoldable pub parse_time_string_to_ticks : Text → TimeScale → Checked (Option ℕ)
  unfolding parse_time_input normalize_numeric_with_unit scale_time
  parse_time_string_to_ticks input timescale =
      let parsed = parse_time_input input in
      ticks_of_result
        (normalize_numeric_with_unit parse_bytes parsed.0 (unwrap_or no_unit parsed.1)) timescale
