-- ===== src/Decoders/I2c.antt =====
-- libsurfer/src/decoders/i2c.rs
pub mod Tokens
pub mod Transactions
use Prim.Native.Nat.{bit_or, bit_and}
use kahuna.Common.{
  ℕ, suc, ◌+◌, ◌-◌, ◌*◌, ◌/◌, ◌%◌, ◌^◌, Bool, true, false, not, ◌&&◌, ◌||◌, List, [], ◌∷◌, ◌++◌,
  Option, none, some, ltb, leb, ◌==◌, if◌then◌else◌, get_elem?,
}
use kahuna.Decoders.{
  Text, codes, u64, Bit, one, invalid, same_bit, is_bit, Change, BitLane, value_at, edges_to,
  partition_point, WordKind, data_word, error_word, DecodedWord, DecodedLane, WordFormat, hex,
  digits_of, format, lane_of,
}
use kahuna.Decoders.Uart.{minimum}

-- The role indices.
abbrev pub scl : ℕ
scl = 0

abbrev pub sda : ℕ
sda = 1

pub record I2cSettings : Type 0 where
  pub split_address : Bool
  pub word_format : WordFormat

abbrev pub default_i2c : I2cSettings
default_i2c = record { split_address = true; word_format = hex }

pub data Event : Type 0 where
  start_event stop_event : Event
  sample_event : Bit → Event

abbrev pub TimedEvent : Type 0
TimedEvent = ℕ × Event

-- START and STOP: SDA moves while SCL is high.
unfoldable pub conditions_from : BitLane → Option Bit → List Change → List TimedEvent
conditions_from clock prev [] = []
conditions_from clock none ((t, v) ∷ rest) = conditions_from clock (some v) rest
conditions_from clock (some p) ((t, v) ∷ rest) =
    let later = conditions_from clock (some v) rest in
    let moves = not (same_bit p v) && is_bit (value_at clock t) one in
    if moves && same_bit v Bit.zero
    then (t, start_event) ∷ later
    else if moves && same_bit v one
    then (t, stop_event) ∷ later
    else later

abbrev pub or_max : Option ℕ → ℕ
or_max none = 2 ^ 64 - 1
or_max (some t) = t

abbrev pub starts_before : Option Change → ℕ → Bool
starts_before none t = false
starts_before (some c) t = ltb c.0 t

-- Whether SDA moves between a rise of SCL at `t` and the next fall.
unfoldable pub sda_moves : List ℕ → BitLane → ℕ → Bool
unfolding partition_point
sda_moves falls line t =
    let next_fall = or_max (get_elem? falls (partition_point (λ f. leb f t) falls)) in
    let first_after = partition_point (λ (c : Change). leb c.0 t) line.changes in
    starts_before (get_elem? line.changes first_after) next_fall

abbrev pub or_invalid : Option Bit → Bit
or_invalid none = invalid
or_invalid (some b) = b

unfoldable pub samples_at : List ℕ → BitLane → List ℕ → List TimedEvent
samples_at falls line [] = []
samples_at falls line (t ∷ ts) =
    let later = samples_at falls line ts in
    if sda_moves falls line t
    then later
    else (t, sample_event (or_invalid (value_at line t))) ∷ later

unfoldable pub collect_events : BitLane → BitLane → List TimedEvent
unfolding conditions_from sda_moves samples_at
collect_events clock line =
    conditions_from clock none line.changes
    ++ samples_at (edges_to clock Bit.zero) line (edges_to clock one)

-- `sort_by_key(|(t, _)| *t)`, which is stable.
abbrev pub insert_event : TimedEvent → List TimedEvent → List TimedEvent
insert_event e [] = e ∷ []
insert_event e (f ∷ fs) = if leb e.0 f.0 then e ∷ f ∷ fs else f ∷ insert_event e fs

unfoldable pub sorted_events : List TimedEvent → List TimedEvent
sorted_events [] = []
sorted_events (e ∷ es) = insert_event e (sorted_events es)

-- `windows(2)` with the difference, which on sorted times does not wrap.
unfoldable pub gaps : List ℕ → List ℕ
gaps [] = []
gaps (t ∷ []) = []
gaps (t ∷ u ∷ ts) = (u - t) ∷ gaps (u ∷ ts)

abbrev pub or_one : Option ℕ → ℕ
or_one none = 1
or_one (some n) = n

unfoldable pub clock_period : BitLane → ℕ
unfolding gaps minimum edges_to
clock_period clock = or_one (minimum (gaps (edges_to clock one)))

-- The variables of the loop of `decode`.
pub record Bus : Type 0 where
  pub words : List DecodedWord
  pub in_transaction : Bool
  pub bits : ℕ
  pub acc : ℕ
  pub byte_start : ℕ
  pub expect_address : Bool

abbrev pub quiet : Bus
quiet = record {
  words = [];
  in_transaction = false;
  bits = 0;
  acc = 0;
  byte_start = 0;
  expect_address = false;
}

-- The closure `push`.
abbrev pub token : ℕ → ℕ → Text → WordKind → DecodedWord
token period start text kind = record {
  start = start;
  end = u64 (start + period);
  text = text;
  kind = kind;
}

abbrev pub put : DecodedWord → Bus → Bus
put w b = record b { words = b.words ++ w ∷ [] }

abbrev pub cut_text : ℕ → Text
cut_text bits = digits_of 10 bits ++ codes " of 8 bits"

abbrev pub put_cut : ℕ → Bus → Bus
put_cut period b =
    if ltb 0 b.bits then put (token period b.byte_start (cut_text b.bits) error_word) b else b

unfoldable pub on_start : ℕ → ℕ → Bus → Bus
on_start period time b =
    record (put (token period time (if b.in_transaction then codes "Sr" else codes "S") data_word)
      b) { in_transaction = true; expect_address = true; bits = 0; acc = 0 }

unfoldable pub on_stop : ℕ → ℕ → Bus → Bus
on_stop period time b = record (put (token period time (codes "P") data_word) (put_cut period b)) {
  in_transaction = false;
  bits = 0;
  acc = 0;
}

-- The ninth clock.
unfoldable pub on_acknowledge : ℕ → ℕ → Bit → Bus → Bus
on_acknowledge period time bit b =
    let acked = same_bit bit Bit.zero in
    record (put
      (token period time (if acked then codes "A" else codes "N")
        (if acked then data_word else error_word))
      b) { bits = 0; acc = 0; expect_address = false }

abbrev pub bit_of : Bit → ℕ
bit_of one = 1
bit_of _ = 0

-- `acc = (acc << 1) | u64::from(bit == Bit::One)`, and `acc |= 1 << 63` for an invalid bit.
unfoldable pub shift_in : ℕ → Bit → ℕ
shift_in acc bit =
    let shifted = bit_or (u64 (acc * 2)) (bit_of bit) in
    if same_bit bit invalid then bit_or shifted (2 ^ 63) else shifted

-- `acc & (1 << 63) != 0`
abbrev pub is_unreliable : ℕ → Bool
is_unreliable acc = not (bit_and acc (2 ^ 63) == 0)

-- `format!("{} {}", ..)` of the address and the direction
abbrev pub address_text : I2cSettings → ℕ → Text
address_text s byte =
    format s.word_format (byte / 2) 7 ++ (b' ' ∷ (if byte % 2 == 0 then codes "W" else codes "R"))

unfoldable pub byte_text : I2cSettings → Bool → ℕ → Text
byte_text s expect_address acc =
    let byte = acc % 256 in
    if is_unreliable acc
    then codes "x"
    else if expect_address && s.split_address
    then address_text s byte
    else format s.word_format byte 8

unfoldable pub byte_word : I2cSettings → ℕ → Bus → DecodedWord
byte_word s time b = record {
  start = b.byte_start;
  end = time;
  text = byte_text s b.expect_address b.acc;
  kind = if is_unreliable b.acc then error_word else data_word;
}

-- A data bit: it is shifted in, and the eighth puts the byte out.
unfoldable pub on_bit : I2cSettings → ℕ → Bit → Bus → Bus
on_bit s time bit b =
    let taken : Bus = record b {
      byte_start = if b.bits == 0 then time else b.byte_start;
      acc = shift_in b.acc bit;
      bits = b.bits + 1;
    } in
    if taken.bits == 8 then put (byte_word s time taken) taken else taken

unfoldable pub on_sample : I2cSettings → ℕ → ℕ → Bit → Bus → Bus
on_sample s period time bit b =
    if not b.in_transaction
    then b
    else if b.bits == 8
    then on_acknowledge period time bit b
    else on_bit s time bit b

unfoldable pub step : I2cSettings → ℕ → TimedEvent → Bus → Bus
step s period (time, start_event) b = on_start period time b
step s period (time, stop_event) b = on_stop period time b
step s period (time, sample_event bit) b = on_sample s period time bit b

unfoldable pub run : I2cSettings → ℕ → List TimedEvent → Bus → Bus
run s period [] b = b
run s period (e ∷ es) b = run s period es (step s period e b)

-- The last loop: a word ends where the next one starts, if that is near.
unfoldable pub close_gaps : ℕ → List DecodedWord → List DecodedWord
close_gaps period [] = []
close_gaps period (w ∷ []) = w ∷ []
close_gaps period (w ∷ v ∷ ws) =
    let near = ltb w.start v.start && leb (v.start - w.start) (u64 (period * 2)) in
    (if near then record w { end = v.start } else w) ∷ close_gaps period (v ∷ ws)

unfoldable pub bus_words : I2cSettings → ℕ → List TimedEvent → List DecodedWord
bus_words s period events = close_gaps period (put_cut period (run s period events quiet)).words

unfoldable pub decode : I2cSettings → List (Option BitLane) → List DecodedLane
decode s lanes = elim (lane_of lanes scl) [
  | none ↦ record { name = codes "Bus"; words = [] } ∷ []
  | some clock ↦ elim (lane_of lanes sda) [
    | none ↦ record { name = codes "Bus"; words = [] } ∷ []
    | some line ↦
        record {
          name = codes "Bus";
          words = bus_words s (clock_period clock) (sorted_events (collect_events clock line));
        }
        ∷ []
  ]
]
