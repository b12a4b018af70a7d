-- ===== src/Time/Tests.antt =====
-- Runs of the time input and of the formats.
use kahuna.Common.{
  ℕ, ◌-◌, ◌*◌, ◌^◌, ◌≤◌, ◌≡◌, refl, false, ◌∷◌, ◌++◌, Option, none, some, if◌then◌else◌, ok,
  is_digit, is_empty, all_of, arith,
}
use kahuna.Decoders.{Text, codes}
use kahuna.Time.{TimeUnit, pico_seconds, nano_seconds, micro_seconds, TimeScale, find_auto_scale}
use kahuna.Time.Input.{
  is_no_unit, normalize_numeric_with_unit, split_numeric_parts, parse_time_string_to_ticks,
}
use kahuna.Time.Format.{format_si, strip_trailing_zeros_and_period}
use kahuna.Time.Units.{below}
use kahuna.Time.Digits.{number_onto, ReadsDigits}
use kahuna.Time.Normalize.{normalize_numeric_with_unit-exact}

abbrev decimal : Text → Option ℕ
decimal t = if is_empty t then none else if all_of is_digit t then some (number_onto 0 t) else none

decimal-ReadsDigits : ReadsDigits decimal
decimal-ReadsDigits t digits given = rw (given, digits) refl

abbrev ten_ns : TimeScale
ten_ns = record { unit = nano_seconds; multiplier = some 10 }

abbrev one_ps : TimeScale
one_ps = record { unit = pico_seconds; multiplier = none }

normalize_run :
    normalize_numeric_with_unit decimal (codes "1.50") nano_seconds ≡ ok (1500, pico_seconds)
unfolding normalize_numeric_with_unit
normalize_run = refl

ticks_run : parse_time_string_to_ticks decimal (codes " 1.5 us ") ten_ns ≡ ok (some 150)
unfolding parse_time_string_to_ticks
ticks_run = refl

-- A fraction without a unit counts as seconds, a whole number as ticks.
raw_run :
    (parse_time_string_to_ticks decimal (codes "2") one_ps ≡ ok (some 2))
    × (parse_time_string_to_ticks decimal (codes "1.5") one_ps ≡ ok (some 1500000000000))
unfolding parse_time_string_to_ticks
raw_run = (refl, refl)

auto_run : find_auto_scale 4000000 one_ps ≡ ok micro_seconds
unfolding find_auto_scale
auto_run = refl

strip_run : strip_trailing_zeros_and_period (codes "12.500") ≡ codes "12.5"
unfolding strip_trailing_zeros_and_period
strip_run = refl

si_run : format_si (codes "12345.67891") ≡ codes "12" ++ 8201 ∷ codes "345.678" ++ 8201 ∷ codes "91"
unfolding format_si
si_run = refl

parts_run : split_numeric_parts (codes "1.50") ≡ ok (codes "1", codes "50")
unfolding split_numeric_parts
parts_run = refl

normalize_numeric_with_unit-exact_example :
    (value : ℕ) × (smaller : TimeUnit) × (normalize_numeric_with_unit decimal
        (codes "1.50")
        nano_seconds
      ≡ ok (value, smaller))
    × (9 ≤ below smaller)
    × (is_no_unit nano_seconds ≡ false → is_no_unit smaller ≡ false)
    × (value * 10 ^ 2 ≡ 150 * 10 ^ (below smaller - 9))
normalize_numeric_with_unit-exact_example =
    normalize_numeric_with_unit-exact decimal decimal-ReadsDigits (codes "1.50") nano_seconds
      (codes "1", codes "50") parts_run (omega arith)

fine_parts_run : split_numeric_parts (codes "1.2345678") ≡ ok (codes "1", codes "2345678")
unfolding split_numeric_parts
fine_parts_run = refl
