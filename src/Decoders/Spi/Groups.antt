-- ===== src/Decoders/Spi/Groups.antt =====
-- What `decode_one` is to put out: the samples are put into groups of `word_size`, a group is cut
-- where the chip is deselected and at the end, and a full group is read as a number by its bits.
use kahuna.Common.{
  ℕ, ◌+◌, ◌*◌, Bool, true, false, ◌&&◌, List, [], ◌∷◌, ◌++◌, Option, some, ◌==◌, if◌then◌else◌,
  length,
}
use kahuna.Decoders.{
  codes, Bit, one, BitLane, value_at, data_word, error_word, DecodedWord, BitOrder, msb_first,
  lsb_first, format,
}
use kahuna.Decoders.Spi.{SpiSettings, selected_at, cut_word}

-- The bits of a word with the times at which they were sampled.
abbrev pub Samples : Type 0
Samples = List (ℕ × Option Bit)

abbrev pub bit_value : Option Bit → ℕ
bit_value (some one) = 1
bit_value _ = 0

abbrev pub is_clean : Option Bit → Bool
is_clean (some one) = true
is_clean (some Bit.zero) = true
is_clean _ = false

abbrev pub all_clean : Samples → Bool
all_clean [] = true
all_clean ((t, b) ∷ bs) = is_clean b && all_clean bs

-- The first bit is the most significant one.
abbrev pub msb_value : ℕ → Samples → ℕ
msb_value high [] = high
msb_value high ((t, b) ∷ bs) = msb_value (high * 2 + bit_value b) bs

-- The first bit is the least significant one.
abbrev pub lsb_value : Samples → ℕ
lsb_value [] = 0
lsb_value ((t, b) ∷ bs) = bit_value b + lsb_value bs * 2

abbrev pub number : BitOrder → Samples → ℕ
number msb_first = msb_value 0
number lsb_first = lsb_value

abbrev pub first_time : ℕ → Samples → ℕ
first_time d [] = d
first_time d ((t, b) ∷ bs) = t

abbrev pub is_empty : Samples → Bool
is_empty [] = true
is_empty (b ∷ bs) = false

-- The word of a full group, the last bit of which was sampled at `t`.
abbrev pub group_word : SpiSettings → ℕ → ℕ → Samples → DecodedWord
group_word s word_size t bits = record {
  start = first_time t bits;
  end = t;
  text =
      if all_clean bits
      then format s.word_format (number s.bit_order bits) word_size
      else codes "x";
  kind = if all_clean bits then data_word else error_word;
}

-- The word of a group that is cut at `t`, if it has a bit.
abbrev pub cut_group : ℕ → ℕ → Samples → List DecodedWord
cut_group word_size t [] = []
cut_group word_size t (b ∷ bits) =
    cut_word (first_time t (b ∷ bits)) t (length (b ∷ bits)) word_size ∷ []

-- What is seen at a sampling edge: the time, whether the chip is selected, and the data.
abbrev pub Edge : Type 0
Edge = ℕ × Bool × Option Bit

abbrev pub observe : SpiSettings → BitLane → Option BitLane → List ℕ → List Edge
observe s lane select [] = []
observe s lane select (t ∷ ts) =
    (t, selected_at s select t, value_at lane t) ∷ observe s lane select ts

-- `bits` is the group in progress, and `last` the time of the last edge.
unfoldable pub groups : SpiSettings → ℕ → ℕ → Samples → List Edge → List DecodedWord
groups s word_size last bits [] = cut_group word_size last bits
groups s word_size last bits ((t, false, b) ∷ edges) =
    cut_group word_size t bits ++ groups s word_size last [] edges
groups s word_size last bits ((t, true, b) ∷ edges) =
    let longer = bits ++ (t, b) ∷ [] in
    let full = group_word s word_size t longer ∷ groups s word_size last [] edges in
    let more = groups s word_size last longer edges in
    if length longer == word_size then full else more
