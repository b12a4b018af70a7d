-- ===== src/Decoders/Uart.antt =====
-- libsurfer/src/decoders/uart.rs
pub mod Frames
pub mod Line
use Prim.Native.Nat.{bit_or}
use kahuna.Common.{
  ℕ, suc, ◌+◌, ◌-◌, ◌*◌, ◌/◌, ◌%◌, ◌^◌, Bool, true, false, not, ◌&&◌, ◌||◌, List, [], ◌∷◌, ◌++◌,
  Option, none, some, ltb, leb, ◌==◌, if◌then◌else◌, min,
}
use kahuna.Decoders.{
  Text, codes, u64, Bit, one, invalid, same_bit, is_bit, Change, BitLane, value_at, edges_to,
  WordKind, data_word, error_word, DecodedWord, DecodedLane, BitOrder, msb_first, lsb_first,
  WordFormat, ascii, format, lane_of,
}

-- The role index.
abbrev pub line_role : ℕ
line_role = 0

pub data Parity : Type 0 where
  no_parity even odd : Parity

pub record UartSettings : Type 0 where
  pub bit_period : Option ℕ
  pub data_bits : ℕ
  pub parity : Parity
  pub stop_bits : ℕ
  pub bit_order : BitOrder
  pub idle_high : Bool
  pub word_format : WordFormat

abbrev pub default_uart : UartSettings
default_uart = record {
  bit_period = none;
  data_bits = 8;
  parity = no_parity;
  stop_bits = 1;
  bit_order = lsb_first;
  idle_high = true;
  word_format = ascii;
}

abbrev pub idle : UartSettings → Bit
idle s = if s.idle_high then one else Bit.zero

abbrev pub start : UartSettings → Bit
start s = if s.idle_high then Bit.zero else one

-- The lengths of the pulses: `windows(2)` with a saturating difference, where it is not 0.
unfoldable pub pulses : List Change → List ℕ
pulses [] = []
pulses (c ∷ []) = []
pulses (c ∷ d ∷ cs) =
    let rest = pulses (d ∷ cs) in if ltb 0 (d.0 - c.0) then (d.0 - c.0) ∷ rest else rest

-- `Iterator::min`
unfoldable pub minimum : List ℕ → Option ℕ
minimum [] = none
minimum (x ∷ xs) = elim (minimum xs) [ none ↦ some x | some m ↦ some (min x m) ]

unfoldable pub resolve_bit_period : UartSettings → BitLane → Option ℕ
unfolding pulses minimum
resolve_bit_period s line = elim s.bit_period [
  | some p ↦ if ltb 0 p then some p else none
  | none ↦ minimum (pulses line.changes)
]

-- `start + u64::from(index) * period + period / 2`
abbrev pub centre : ℕ → ℕ → ℕ → ℕ
centre start period index = u64 (u64 (start + u64 (index * period)) + period / 2)

-- The variables of the loop over the data bits.
pub record Frame : Type 0 where
  pub value : ℕ
  pub ones : ℕ
  pub invalid : Bool

abbrev pub bool_bit : Bool → ℕ
bool_bit true = 1
bool_bit false = 0

-- `value |= one << i` and `value = (value << 1) | one`
unfoldable pub shift_in : BitOrder → ℕ → ℕ → ℕ → ℕ
shift_in lsb_first value i b = bit_or value (u64 (b * 2 ^ i))
shift_in msb_first value i b = bit_or (u64 (value * 2)) b

abbrev pub take_level : UartSettings → ℕ → Bit → Frame → Frame
take_level s i b f =
    let mark = same_bit b (idle s) in
    record f {
      value = shift_in s.bit_order f.value i (bool_bit mark);
      ones = f.ones + bool_bit mark;
    }

unfoldable pub take_bit : UartSettings → ℕ → Option Bit → Frame → Frame
unfolding shift_in
take_bit s i (some Bit.zero) f = take_level s i Bit.zero f
take_bit s i (some one) f = take_level s i one f
take_bit s i _ f = record f { invalid = true }

-- The loop over the data bits: `left` rounds from bit `i` on.
unfoldable pub read_bits : UartSettings → (ℕ → Option Bit) → ℕ → ℕ → Frame → Frame
read_bits s at ℕ.zero i f = f
read_bits s at (suc left) i f = read_bits s at left (i + 1) (take_bit s i (at (i + 1)) f)

abbrev pub empty_frame : Frame
empty_frame = record { value = 0; ones = 0; invalid = false }

abbrev pub has_parity : Parity → Bool
has_parity no_parity = false
has_parity _ = true

abbrev pub wants_even : Parity → Bool
wants_even even = true
wants_even _ = false

abbrev pub same_bool : Bool → Bool → Bool
same_bool true b = b
same_bool false b = not b

-- `get_or_insert_with`
abbrev pub or_insert : Option Text → Text → Option Text
or_insert none t = some t
or_insert (some e) t = some e

-- The parity check, where there is one, on the sample of the parity bit.
unfoldable pub check_parity : UartSettings → ℕ → Option Bit → Option Text → Option Text
check_parity s ones bit error =
    let got = is_bit bit one in
    let expected = same_bool (ones % 2 == 1) (wants_even s.parity) in
    if has_parity s.parity && not (same_bool got expected)
    then or_insert error (codes "parity")
    else error

-- The loop over the stop bits: `left` rounds from bit `i` on.
unfoldable pub check_stop : UartSettings → (ℕ → Option Bit) → ℕ → ℕ → Option Text → Option Text
check_stop s at ℕ.zero i error = error
check_stop s at (suc left) i error =
    check_stop s at left (i + 1)
      (if not (is_bit (at i) (idle s)) then or_insert error (codes "framing") else error)

-- `data_bits.clamp(1, 9)` and `stop_bits.clamp(1, 2)`
abbrev pub clamp : ℕ → ℕ → ℕ → ℕ
clamp lo hi n = if ltb n lo then lo else if ltb hi n then hi else n

abbrev pub data_count : UartSettings → ℕ
data_count s = clamp 1 9 s.data_bits

abbrev pub parity_count : UartSettings → ℕ
parity_count s = bool_bit (has_parity s.parity)

abbrev pub stop_count : UartSettings → ℕ
stop_count s = clamp 1 2 s.stop_bits

abbrev pub frame_bits : UartSettings → ℕ
frame_bits s = 1 + data_count s + parity_count s + stop_count s

abbrev pub error_text : Bool → Option Text
error_text true = some (codes "x")
error_text false = none

-- The error of a frame, from the data bits read and the samples at the centres of its bits.
unfoldable pub frame_error : UartSettings → (ℕ → Option Bit) → Frame → Option Text
unfolding check_parity check_stop
frame_error s at f =
    let n = data_count s in
    check_stop s at (stop_count s) (n + parity_count s + 1)
      (check_parity s f.ones (at (n + 1)) (error_text f.invalid))

abbrev pub text_or : Option Text → Text → Text
text_or none t = t
text_or (some e) t = e

abbrev pub kind_of : Option Text → WordKind
kind_of none = data_word
kind_of (some e) = error_word

-- The word of the frame that starts at `t`, from the samples at the centres of its bits.
unfoldable pub frame_word : UartSettings → ℕ → ℕ → (ℕ → Option Bit) → DecodedWord
unfolding read_bits frame_error
frame_word s period t at =
    let f = read_bits s at (data_count s) 0 empty_frame in
    let error = frame_error s at f in
    record {
      start = t;
      end = u64 (t + u64 (frame_bits s * period));
      text = text_or error (format s.word_format f.value (data_count s));
      kind = kind_of error;
    }

abbrev pub samples : BitLane → ℕ → ℕ → ℕ → Option Bit
samples line t period index = value_at line (centre t period index)

-- The loop over the start edges, behind the time up to which the line is decoded.
unfoldable pub decode_edges : UartSettings → BitLane → ℕ → ℕ → List ℕ → List DecodedWord
decode_edges s line period next_free [] = []
decode_edges s line period next_free (t ∷ ts) =
    let at = samples line t period in
    let skip = decode_edges s line period next_free ts in
    let word = frame_word s period t at in
    let put = word ∷ decode_edges s line period word.end ts in
    if ltb t next_free then skip else if not (is_bit (at 0) (start s)) then skip else put

unfoldable pub decode_line : UartSettings → BitLane → List DecodedWord
decode_line s line = elim (resolve_bit_period s line) [
  | none ↦ []
  | some period ↦ decode_edges s line period 0 (edges_to line (start s))
]

unfoldable pub decode : UartSettings → List (Option BitLane) → List DecodedLane
decode s lanes = elim (lane_of lanes line_role) [
  | none ↦ record { name = codes "Data"; words = [] } ∷ []
  | some line ↦ record { name = codes "Data"; words = decode_line s line } ∷ []
]
