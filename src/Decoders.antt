-- ===== src/Decoders.antt =====
-- libsurfer/src/decoders/mod.rs: lanes, words and their text. A time is a `u64`, a number here.
pub mod Lanes
pub mod Formats
pub mod Protocols
pub mod Roles
pub mod Spi
pub mod I2c
pub mod Uart
mod Tests
use Prim.Native.Char.{code}
use Prim.Native.String
use Prim.Native.String.{String}
use kahuna.Common.{
  ℕ, suc, ◌+◌, ◌-◌, ◌*◌, ◌/◌, ◌%◌, ◌^◌, Bool, true, false, not, ◌&&◌, ◌||◌, List, [], ◌∷◌, ◌++◌,
  Option, none, some, ltb, leb, ◌==◌, if◌then◌else◌, length, get_elem?, replicate,
}

-- A `String` of ASCII characters, by their codes.
abbrev pub Text : Type 0
Text = List ℕ

abbrev pub codes : String → Text
codes String.[] = []
codes (String.◌∷◌ c s) = code c ∷ codes s

-- Arithmetic of `u64` wraps.
abbrev pub u64 : ℕ → ℕ
u64 n = n % 2 ^ 64

pub data Bit : Type 0 where
  zero one invalid : Bit

abbrev pub same_bit : Bit → Bit → Bool
same_bit zero zero = true
same_bit one one = true
same_bit invalid invalid = true
same_bit _ _ = false

-- `value == Some(bit)` for an optional value
abbrev pub is_bit : Option Bit → Bit → Bool
is_bit none b = false
is_bit (some a) b = same_bit a b

-- `Bit::is_high`
unfoldable pub is_high : Bit → Bool
is_high one = true
is_high _ = false

abbrev pub Change : Type 0
Change = ℕ × Bit

pub record BitLane : Type 0 where
  pub changes : List Change

-- `partition_point` of a slice whose elements that satisfy `p` stand in front.
unfoldable pub partition_point {ℓ} : {A : Type ℓ} → (A → Bool) → List A → ℕ
partition_point p [] = 0
partition_point p (x ∷ xs) = if p x then suc (partition_point p xs) else 0

abbrev pub value_of : Option Change → Option Bit
value_of none = none
value_of (some (t, v)) = some v

unfoldable pub value_at : BitLane → ℕ → Option Bit
unfolding partition_point
value_at lane time =
    let idx = partition_point (λ (c : Change). leb c.0 time) lane.changes in
    if ltb 0 idx then value_of (get_elem? lane.changes (idx - 1)) else none

-- The loop of `edges_to`, behind the value `prev`.
unfoldable pub edges_from : Bit → Option Bit → List Change → List ℕ
edges_from to prev [] = []
edges_from to none ((t, v) ∷ rest) = edges_from to (some v) rest
edges_from to (some p) ((t, v) ∷ rest) =
    let later = edges_from to (some v) rest in
    if not (same_bit p v) && same_bit v to then t ∷ later else later

unfoldable pub edges_to : BitLane → Bit → List ℕ
unfolding edges_from
edges_to lane to = edges_from to none lane.changes

pub data WordKind : Type 0 where
  data_word error_word : WordKind

pub record DecodedWord : Type 0 where
  pub start : ℕ
  pub end : ℕ
  pub text : Text
  pub kind : WordKind

pub record DecodedLane : Type 0 where
  pub name : Text
  pub words : List DecodedWord

pub data BitOrder : Type 0 where
  msb_first lsb_first : BitOrder

pub data WordFormat : Type 0 where
  hex decimal binary ascii : WordFormat

-- One digit of `{:X}`, `{}` or `{:b}`.
unfoldable pub digit_char : ℕ → ℕ
digit_char d = if ltb d 10 then b'0' + d else b'A' + (d - 10)

-- The digits of a number, most significant first, in front of `rest`. A number is fuel enough for
-- its digits.
unfoldable pub digits_onto : ℕ → ℕ → ℕ → Text → Text
unfolding digit_char
digits_onto ℕ.zero base n rest = rest
digits_onto (suc fuel) base n rest = elim (ltb n base) [
  | true ↦ digit_char n ∷ rest
  | false ↦ digits_onto fuel base (n / base) (digit_char (n % base) ∷ rest)
]

unfoldable pub digits_of : ℕ → ℕ → Text
unfolding digits_onto
digits_of base n = digits_onto (suc n) base n []

-- `{:0width}`
unfoldable pub zero_padded : ℕ → Text → Text
zero_padded width t = replicate (width - length t) b'0' ++ t

-- `c.is_ascii_graphic() || c == ' '` for a value that fits a `u8`
abbrev pub is_shown : ℕ → Bool
is_shown c = leb b'!' c && leb c b'~' || c == b' '

unfoldable pub format : WordFormat → ℕ → ℕ → Text
unfolding digits_of zero_padded
format hex value bits = zero_padded ((bits + 3) / 4) (digits_of 16 value)
format decimal value bits = digits_of 10 value
format binary value bits = zero_padded bits (digits_of 2 value)
format ascii value bits =
    if ltb value 256 && is_shown value
    then b'\'' ∷ value ∷ b'\'' ∷ []
    else zero_padded 2 (digits_of 16 value)

-- `lanes.get(idx)`, flattened: the lane bound to a role.
abbrev pub lane_of : List (Option BitLane) → ℕ → Option BitLane
lane_of [] idx = none
lane_of (l ∷ ls) ℕ.zero = l
lane_of (l ∷ ls) (suc idx) = lane_of ls idx
