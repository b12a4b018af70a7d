-- ===== src/Time/Format.antt =====
-- libsurfer/src/time.rs and group_n_chars of libsurfer/src/translation/basic_translators.rs: how a
-- time is written. A fraction in floating-point numbers and its decimal text are an argument.
use kahuna.Common.{
  ok, ◌>>=◌, ℕ, zero, suc, ◌*◌, ◌%◌, Bool, true, false, ◌||◌, List, [], ◌∷◌, ◌++◌, Option, none,
  some, ltb, ◌==◌, if◌then◌else◌, length, take, drop, ℤ, pos, negsuc, ◌-ℤ◌, is_empty,
  trim_end_matches,
}
use kahuna.Analog.{Checked}
use kahuna.Decoders.{Text, digits_of}
use kahuna.Time.{
  TimeUnit, zepto_seconds, atto_seconds, femto_seconds, pico_seconds, nano_seconds, micro_seconds,
  milli_seconds, seconds, no_unit, auto, TimeScale, exponent, pow10, find_auto_scale,
}
use kahuna.Time.Input.{is_zero_digit, unwrap_or, is_no_unit}

pub data TimeStringFormatting : Type 0 where
  plain locale si : TimeStringFormatting

pub record TimeFormat : Type 0 where
  pub format : TimeStringFormatting
  pub show_space : Bool
  pub show_unit : Bool

abbrev pub default_format : TimeFormat
default_format = record { format = plain; show_space = true; show_unit = true }

abbrev pub with_format : TimeStringFormatting → TimeFormat → TimeFormat
with_format format f = record {
  format = format;
  show_space = f.show_space;
  show_unit = f.show_unit;
}

abbrev pub with_space : Bool → TimeFormat → TimeFormat
with_space show_space f = record {
  format = f.format;
  show_space = show_space;
  show_unit = f.show_unit;
}

abbrev pub with_unit : Bool → TimeFormat → TimeFormat
with_unit show_unit f = record {
  format = f.format;
  show_space = f.show_space;
  show_unit = show_unit;
}

pub record LocaleFormatCache : Type 0 where
  pub grouping : ℤ
  pub thousands_sep : Text
  pub decimal_point : Text

-- `\u{2009}`
abbrev pub thin_space : Text
thin_space = 8201 ∷ []

-- The full groups, on as much fuel as there are characters
unfoldable pub full_groups : ℕ → ℕ → Text → List Text
full_groups zero n [] = []
full_groups zero n (c ∷ cs) = []
full_groups (suc fuel) n [] = []
full_groups (suc fuel) n (c ∷ cs) = take n (c ∷ cs) ∷ full_groups fuel n (drop n (c ∷ cs))

-- The first group is the shorter one. By none, the division panics.
unfoldable pub group_n_chars : Text → ℕ → List Text
unfolding full_groups
group_n_chars s n =
    let rem = length s % n in
    let groups = full_groups (length s) n (drop rem s) in
    if ltb 0 rem then take rem s ∷ groups else groups

abbrev pub join : Text → List Text → Text
join sep [] = []
join sep (t ∷ []) = t
join sep (t ∷ u ∷ ts) = t ++ (sep ++ join sep (u ∷ ts))

abbrev pub has_point : Text → Bool
has_point [] = false
has_point (c ∷ cs) = c == 46 || has_point cs

abbrev pub is_point : ℕ → Bool
is_point c = c == 46

unfoldable pub strip_trailing_zeros_and_period : Text → Text
strip_trailing_zeros_and_period time =
    if has_point time then trim_end_matches is_point (trim_end_matches is_zero_digit time) else time

abbrev pub in_front : ℕ → Option (Text × Text) → Option (Text × Text)
in_front c none = none
in_front c (some parts) = some (c ∷ parts.0, parts.1)

-- `time.split_once('.')`
abbrev pub split_once : Text → Option (Text × Text)
split_once [] = none
split_once (c ∷ cs) =
    let later = in_front c (split_once cs) in if c == 46 then some ([], cs) else later

abbrev pub reversed_onto : Text → Text → Text
reversed_onto acc [] = acc
reversed_onto acc (c ∷ cs) = reversed_onto (c ∷ acc) cs

abbrev pub reversed : Text → Text
reversed = reversed_onto []

unfoldable pub grouped : Text → Text
unfolding group_n_chars
grouped t = if ltb 4 (length t) then join thin_space (group_n_chars t 3) else t

-- The fraction is grouped from its start.
unfoldable pub grouped_fraction : Text → Text
unfolding group_n_chars
grouped_fraction t =
    if ltb 4 (length t) then reversed (join thin_space (group_n_chars (reversed t) 3)) else t

abbrev pub si_parts : Text → Option (Text × Text) → Text
si_parts time none = grouped time
si_parts time (some parts) = grouped parts.0 ++ (46 ∷ grouped_fraction parts.1)

unfoldable pub format_si : Text → Text
unfolding grouped grouped_fraction
format_si time = si_parts time (split_once time)

module _ (cache : LocaleFormatCache) where
  abbrev pub locale_parts : ℕ → Text → Option (Text × Text) → Text
  locale_parts n time none = join cache.thousands_sep (group_n_chars time n)
  locale_parts n time (some parts) =
      join cache.thousands_sep (group_n_chars parts.0 n) ++ (cache.decimal_point ++ parts.1)

  abbrev pub by_grouping : ℤ → Text → Text
  by_grouping (pos n) time = if n == 0 then time else locale_parts n time (split_once time)
  by_grouping (negsuc n) time = time

  unfoldable pub format_locale : Text → Text
  unfolding group_n_chars
  format_locale time = by_grouping cache.grouping time

  unfoldable pub split_and_format_number : Text → TimeStringFormatting → Text
  unfolding format_locale format_si
  split_and_format_number time plain = time
  split_and_format_number time locale = format_locale time
  split_and_format_number time si = format_si time

-- `unit.to_string()`: zs as fs ps ns μs ms s, "No unit" and "Auto"
abbrev pub unit_text : TimeUnit → Text
unit_text zepto_seconds = 122 ∷ 115 ∷ []
unit_text atto_seconds = 97 ∷ 115 ∷ []
unit_text femto_seconds = 102 ∷ 115 ∷ []
unit_text pico_seconds = 112 ∷ 115 ∷ []
unit_text nano_seconds = 110 ∷ 115 ∷ []
unit_text micro_seconds = 956 ∷ 115 ∷ []
unit_text milli_seconds = 109 ∷ 115 ∷ []
unit_text seconds = 115 ∷ []
unit_text no_unit = 78 ∷ 111 ∷ 32 ∷ 117 ∷ 110 ∷ 105 ∷ 116 ∷ []
unit_text auto = 65 ∷ 117 ∷ 116 ∷ 111 ∷ []

pub record TimeFormatter : Type 0 where
  pub timescale : TimeScale
  pub wanted_unit : TimeUnit
  pub time_format : TimeFormat
  pub exponent_diff : ℤ
  pub unit_string : Text
  pub space_string : Text

abbrev pub is_auto : TimeUnit → Bool
is_auto auto = true
is_auto other = false

-- The exponent of a unit over that of the data, and the text of the unit where it is shown
abbrev pub resolved : TimeScale → TimeFormat → TimeUnit → ℤ × Text
resolved timescale f unit =
    (exponent unit -ℤ exponent timescale.unit, if f.show_unit then unit_text unit else [])

abbrev pub new_formatter : TimeScale → TimeUnit → TimeFormat → TimeFormatter
new_formatter timescale wanted_unit f =
    let r = if is_auto wanted_unit then (pos 0, []) else resolved timescale f wanted_unit in
    record {
      timescale = timescale;
      wanted_unit = wanted_unit;
      time_format = f;
      exponent_diff = r.0;
      unit_string = r.1;
      space_string = if f.show_space then 32 ∷ [] else [];
    }

-- `fixed n d p` is `format!("{x:.p$}")` for the `f64` nearest to `n / d`.
module _ (cache : LocaleFormatCache) (fixed : ℕ → ℕ → ℕ → Text) where
  unfoldable pub timestring : TimeFormatter → ℕ → ℤ → Text
  unfolding pow10 strip_trailing_zeros_and_period digits_of
  timestring f time (pos n) =
      strip_trailing_zeros_and_period
        (fixed (time * unwrap_or 1 f.timescale.multiplier) (pow10 n) n)
  timestring f time (negsuc n) =
      digits_of 10 (time * unwrap_or 1 f.timescale.multiplier * pow10 (suc n))

  abbrev pub assembled : TimeFormatter → ℕ → ℤ × Text → Text
  assembled f time r =
      split_and_format_number cache (timestring f time r.0) f.time_format.format
      ++ ((if is_empty r.1 then [] else f.space_string) ++ r.1)

  abbrev pub resolved_by : TimeFormatter → ℕ → Checked (ℤ × Text)
  resolved_by f time =
      if is_auto f.wanted_unit
      then (do
        unit ← find_auto_scale time f.timescale
        ok (resolved f.timescale f.time_format unit))
      else ok (f.exponent_diff, f.unit_string)

  unfoldable pub format_time : TimeFormatter → ℕ → Checked Text
  unfolding timestring split_and_format_number find_auto_scale
  format_time f time =
      if is_no_unit f.wanted_unit
      then ok (split_and_format_number cache (digits_of 10 time) f.time_format.format)
      else (do r ← resolved_by f time; ok (assembled f time r))

  abbrev pub time_string : ℕ → TimeScale → TimeUnit → TimeFormat → Checked Text
  time_string time timescale wanted_timeunit f =
      format_time (new_formatter timescale wanted_timeunit f) time
