-- ===== src/Time.antt =====
-- libsurfer/src/time.rs: time units and time scales. A `BigInt` here is a time or a count, which is
-- not negative, and so a number; the exponents are integers.
mod Tests
pub mod Input
pub mod Format
pub mod Units
pub mod Scale
pub mod Auto
pub mod Digits
pub mod Normalize
pub mod Groups
use kahuna.Common.{
  ℕ, zero, suc, ◌+◌, ◌-◌, ◌*◌, ◌/◌, ◌%◌, ◌^◌, Bool, true, false, List, [], ◌∷◌, Option, none, some,
  ltb, ◌==◌, if◌then◌else◌, get_elem?, ℤ, pos, negsuc, ◌-ℤ◌, less, Outcome, ok, panic, ◌>>=◌,
}
use kahuna.Analog.{Checked}

pub data TimeUnit : Type 0 where
  zepto_seconds atto_seconds femto_seconds pico_seconds nano_seconds micro_seconds milli_seconds
        seconds :
      TimeUnit
  no_unit auto : TimeUnit

pub record TimeScale : Type 0 where
  pub unit : TimeUnit
  pub multiplier : Option ℕ

-- `n.ilog10()`, by divisions by ten. A number is fuel enough for them.
unfoldable pub tenths : ℕ → ℕ → ℕ
tenths zero n = 0
tenths (suc fuel) n = let rest = suc (tenths fuel (n / 10)) in if ltb n 10 then 0 else rest

-- `ilog10` of 0 panics.
abbrev pub digits_of_multiplier : Option ℕ → Checked ℕ
digits_of_multiplier none = ok 0
digits_of_multiplier (some multiplier) =
    if multiplier == 1
    then ok 0
    else if multiplier == 10
    then ok 1
    else if multiplier == 100
    then ok 2
    else if multiplier == 0
    then panic
    else ok (tenths multiplier multiplier)

unfoldable pub multiplier_digits : TimeScale → Checked ℕ
unfolding tenths
multiplier_digits timescale = digits_of_multiplier timescale.multiplier

-- `wellen::TimescaleUnit` and `ftr_parser::types::Timescale`
pub data WellenUnit : Type 0 where
  zepto atto femto pico nano micro milli second unknown : WellenUnit

pub data FtrUnit : Type 0 where
  fs ps ns us ms s unit none_given : FtrUnit

abbrev pub from_wellen : WellenUnit → TimeUnit
from_wellen zepto = zepto_seconds
from_wellen atto = atto_seconds
from_wellen femto = femto_seconds
from_wellen pico = pico_seconds
from_wellen nano = nano_seconds
from_wellen micro = micro_seconds
from_wellen milli = milli_seconds
from_wellen second = seconds
from_wellen unknown = no_unit

abbrev pub from_ftr : FtrUnit → TimeUnit
from_ftr fs = femto_seconds
from_ftr ps = pico_seconds
from_ftr ns = nano_seconds
from_ftr us = micro_seconds
from_ftr ms = milli_seconds
from_ftr s = seconds
from_ftr unit = no_unit
from_ftr none_given = no_unit

-- `negsuc n` is `-(n + 1)`.
abbrev pub exponent : TimeUnit → ℤ
exponent zepto_seconds = negsuc 20
exponent atto_seconds = negsuc 17
exponent femto_seconds = negsuc 14
exponent pico_seconds = negsuc 11
exponent nano_seconds = negsuc 8
exponent micro_seconds = negsuc 5
exponent milli_seconds = negsuc 2
exponent seconds = pos 0
exponent no_unit = pos 0
exponent auto = pos 0

abbrev pub from_exponent : ℤ → Option TimeUnit
from_exponent (pos n) = if n == 0 then some seconds else none
from_exponent (negsuc n) =
    if n == 20
    then some zepto_seconds
    else if n == 17
    then some atto_seconds
    else if n == 14
    then some femto_seconds
    else if n == 11
    then some pico_seconds
    else if n == 8
    then some nano_seconds
    else if n == 5
    then some micro_seconds
    else if n == 2
    then some milli_seconds
    else none

abbrev pub powers : List ℕ
powers =
    1 ∷ 10 ∷ 100 ∷ 1000 ∷ 10000 ∷ 100000 ∷ 1000000 ∷ 10000000 ∷ 100000000 ∷ 1000000000 ∷ 10000000000
    ∷ 100000000000 ∷ 1000000000000 ∷ 10000000000000 ∷ 100000000000000 ∷ 1000000000000000
    ∷ 10000000000000000 ∷ 100000000000000000 ∷ 1000000000000000000 ∷ 10000000000000000000
    ∷ 100000000000000000000 ∷ 1000000000000000000000 ∷ []

abbrev pub power_or : ℕ → Option ℕ → ℕ
power_or exp none = 10 ^ exp
power_or exp (some power) = power

unfoldable pub pow10 : ℕ → ℕ
pow10 exp = power_or exp (get_elem? powers exp)

-- `x as u8`
abbrev pub as_u8 : ℤ → ℕ
as_u8 (pos n) = n % 256
as_u8 (negsuc n) = 255 - n % 256

-- Subtraction of `u8`, which wraps
abbrev pub sub_u8 : ℕ → ℕ → ℕ
sub_u8 m n = (256 + m - n) % 256

-- The unit of the first exponent that fits, or that of the exponents still to be tried.
abbrev pub first_unit : Bool → Option TimeUnit → TimeUnit → TimeUnit
first_unit true (some fitting) rest = fitting
first_unit true none rest = rest
first_unit false fitting rest = rest

-- The exponents `3 * k`, from the greatest one down.
unfoldable pub auto_from : ℕ → ℕ → TimeUnit → ℕ → ℕ → TimeUnit
unfolding pow10
auto_from time multiplier_digits own start zero = own
auto_from time multiplier_digits own start (suc k) =
    first_unit (time % pow10 (sub_u8 (3 * suc k) multiplier_digits) == 0)
      (from_exponent (pos (3 * suc k) -ℤ pos start)) (auto_from time multiplier_digits own start k)

abbrev pub is_seconds : TimeUnit → Bool
is_seconds seconds = true
is_seconds other = false

abbrev pub auto_of : ℕ → TimeUnit → Checked ℕ → Checked TimeUnit
auto_of time own digits = do
  m ← digits
  let start = as_u8 (pos 0 -ℤ exponent own)
  ok (auto_from time m own start (start / 3))

unfoldable pub find_auto_scale : ℕ → TimeScale → Checked TimeUnit
unfolding auto_from multiplier_digits
find_auto_scale time timescale =
    if is_seconds timescale.unit
    then ok seconds
    else auto_of time timescale.unit (multiplier_digits timescale)

-- The sign of the difference says whether ticks are smaller or larger than the unit.
abbrev pub scaled : ℕ → ℤ → ℕ
scaled value (pos n) = if n == 0 then value else value * pow10 n
scaled value (negsuc n) = value / pow10 (suc n)

unfoldable pub scale_time : ℕ → ℤ → TimeScale → Checked (Option ℕ)
unfolding pow10 multiplier_digits
scale_time value exponent_diff timescale = do
  m ← multiplier_digits timescale
  ok (some (scaled value (exponent_diff -ℤ pos m)))
