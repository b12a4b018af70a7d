-- ===== src/Decoders/Spi.antt =====
-- libsurfer/src/decoders/spi.rs
pub mod Groups
pub mod Refine
pub mod Words
pub mod Modes
use Prim.Native.Nat.{bit_or}
use kahuna.Common.{
  ℕ, suc, ◌+◌, ◌-◌, ◌*◌, ◌/◌, ◌%◌, ◌^◌, Bool, true, false, not, ◌&&◌, ◌||◌, List, [], ◌∷◌, ◌++◌,
  Option, none, some, ltb, leb, ◌==◌, if◌then◌else◌, min,
}
use kahuna.Decoders.{
  Text, codes, u64, Bit, one, BitLane, value_at, edges_to, WordKind, data_word, error_word,
  DecodedWord, DecodedLane, BitOrder, msb_first, lsb_first, WordFormat, hex, digits_of, format,
  lane_of,
}

-- The role indices.
abbrev pub sclk : ℕ
sclk = 0

abbrev pub mosi : ℕ
mosi = 1

abbrev pub miso : ℕ
miso = 2

abbrev pub cs : ℕ
cs = 3

pub record SpiSettings : Type 0 where
  pub cpol : Bool
  pub cpha : Bool
  pub bit_order : BitOrder
  pub word_size : ℕ
  pub word_format : WordFormat
  pub cs_active_low : Bool

abbrev pub default_spi : SpiSettings
default_spi = record {
  cpol = false;
  cpha = false;
  bit_order = msb_first;
  word_size = 8;
  word_format = hex;
  cs_active_low = true;
}

abbrev pub bool_bit : Bool → ℕ
bool_bit true = 1
bool_bit false = 0

-- `(self.cpol as u8) << 1 | (self.cpha as u8)`
unfoldable pub mode : SpiSettings → ℕ
mode s = bit_or (bool_bit s.cpol * 2) (bool_bit s.cpha)

-- `mode & 0b10 != 0` and `mode & 0b01 != 0`
unfoldable pub set_mode : SpiSettings → ℕ → SpiSettings
set_mode s m = record s { cpol = not (m / 2 % 2 == 0); cpha = not (m % 2 == 0) }

abbrev pub same_bool : Bool → Bool → Bool
same_bool true b = b
same_bool false b = not b

unfoldable pub sampling_level : SpiSettings → Bit
sampling_level s = if same_bool (not s.cpol) (not s.cpha) then one else Bit.zero

-- `is_selected`, on the value of the chip select lane
unfoldable pub selects : SpiSettings → Option Bit → Bool
selects s (some one) = not s.cs_active_low
selects s (some Bit.zero) = s.cs_active_low
selects s _ = false

unfoldable pub is_selected : SpiSettings → BitLane → ℕ → Bool
unfolding selects
is_selected s select t = selects s (value_at select t)

-- `cs.is_none_or(|cs| self.is_selected(cs, t))`
unfoldable pub selected_at : SpiSettings → Option BitLane → ℕ → Bool
unfolding is_selected
selected_at s none t = true
selected_at s (some select) t = is_selected s select t

-- The variables of the loop of `decode_one`.
pub record Progress : Type 0 where
  pub words : List DecodedWord
  pub acc : ℕ
  pub count : ℕ
  pub word_start : ℕ
  pub invalid : Bool
  pub was_selected : Bool

abbrev pub start : Progress
start = record {
  words = [];
  acc = 0;
  count = 0;
  word_start = 0;
  invalid = false;
  was_selected = false;
}

abbrev pub cut_text : ℕ → ℕ → Text
cut_text count word_size =
    digits_of 10 count ++ (codes " of " ++ (digits_of 10 word_size ++ codes " bits"))

abbrev pub cut_word : ℕ → ℕ → ℕ → ℕ → DecodedWord
cut_word word_start end count word_size = record {
  start = word_start;
  end = end;
  text = cut_text count word_size;
  kind = error_word;
}

-- A deassert of the chip select in the middle of a word.
unfoldable pub cut_off : ℕ → ℕ → Bool → Progress → Progress
cut_off word_size t selected p =
    if p.was_selected && not selected && ltb 0 p.count
    then record p {
      words = p.words ++ cut_word p.word_start t p.count word_size ∷ [];
      acc = 0;
      count = 0;
      invalid = false;
    }
    else p

-- `acc = (acc << 1) | b` and `acc |= b << count`
unfoldable pub shift_in : BitOrder → ℕ → ℕ → ℕ → ℕ
shift_in msb_first acc count b = bit_or (u64 (acc * 2)) b
shift_in lsb_first acc count b = bit_or acc (u64 (b * 2 ^ count))

unfoldable pub take_bit : BitOrder → Option Bit → Progress → Progress
unfolding shift_in
take_bit order (some Bit.zero) p = record p { acc = shift_in order p.acc p.count 0 }
take_bit order (some one) p = record p { acc = shift_in order p.acc p.count 1 }
take_bit order _ p = record p { invalid = true }

unfoldable pub full_word : SpiSettings → ℕ → ℕ → Progress → DecodedWord
full_word s word_size t p = record {
  start = p.word_start;
  end = t;
  text = if p.invalid then codes "x" else format s.word_format p.acc word_size;
  kind = if p.invalid then error_word else data_word;
}

-- The rest of a round, where the chip is selected: a bit is taken, and a full word is put out.
unfoldable pub sample : SpiSettings → ℕ → ℕ → Option Bit → Progress → Progress
unfolding take_bit full_word
sample s word_size t bit p =
    let begun = record p { word_start = if p.count == 0 then t else p.word_start } in
    let taken = take_bit s.bit_order bit begun in
    let counted = record taken { count = taken.count + 1 } in
    if counted.count == word_size
    then record counted {
      words = counted.words ++ full_word s word_size t counted ∷ [];
      acc = 0;
      count = 0;
      invalid = false;
    }
    else counted

-- One round of the loop.
unfoldable pub step : SpiSettings → ℕ → BitLane → Option BitLane → ℕ → Progress → Progress
step s word_size lane select t p =
    let selected = selected_at s select t in
    let ready = record (cut_off word_size t selected p) { was_selected = selected } in
    if selected then sample s word_size t (value_at lane t) ready else ready

unfoldable pub run : SpiSettings → ℕ → BitLane → Option BitLane → List ℕ → Progress → Progress
run s word_size lane select [] p = p
run s word_size lane select (t ∷ ts) p =
    run s word_size lane select ts (step s word_size lane select t p)

-- `sample_times.last().copied().unwrap_or(word_start)`
abbrev pub last_or : List ℕ → ℕ → ℕ
last_or [] d = d
last_or (t ∷ ts) d = last_or ts t

unfoldable pub finish : ℕ → List ℕ → Progress → List DecodedWord
finish word_size times p =
    if ltb 0 p.count
    then p.words ++ cut_word p.word_start (last_or times p.word_start) p.count word_size ∷ []
    else p.words

-- The last loop of `decode_one`: each word ends where the next one starts.
unfoldable pub stretch : List DecodedWord → List DecodedWord
stretch [] = []
stretch (w ∷ []) = w ∷ []
stretch (w ∷ v ∷ ws) = record w { end = v.start } ∷ stretch (v ∷ ws)

unfoldable pub decode_one : SpiSettings → BitLane → Option BitLane → List ℕ → ℕ → List DecodedWord
decode_one s lane select times word_size =
    stretch (finish word_size times (run s word_size lane select times start))

-- `self.word_size.clamp(1, 64)`
abbrev pub clamped : SpiSettings → ℕ
clamped s = if ltb s.word_size 1 then 1 else if ltb 64 s.word_size then 64 else s.word_size

abbrev pub row : Text → List DecodedWord → DecodedLane
row name words = record { name = name; words = words }

unfoldable pub words_of : SpiSettings → Option BitLane → Option BitLane → List ℕ → List DecodedWord
words_of s none select times = []
words_of s (some lane) select times = decode_one s lane select times (clamped s)

unfoldable pub decode : SpiSettings → List (Option BitLane) → List DecodedLane
decode s lanes = elim (lane_of lanes sclk) [
  | none ↦ row (codes "MOSI") [] ∷ row (codes "MISO") [] ∷ []
  | some clock ↦
      let times = edges_to clock (sampling_level s) in
      let select = lane_of lanes cs in
      row (codes "MOSI") (words_of s (lane_of lanes mosi) select times)
      ∷ row (codes "MISO") (words_of s (lane_of lanes miso) select times)
      ∷ []
]
