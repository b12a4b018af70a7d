-- ===== src/Decoders/Spi/Refine.antt =====
-- The state of the loop of `decode_one` (libsurfer/src/decoders/spi.rs) and the groups.
use native.Mathlib.Nat.{pow-suc}
use native.Mathlib.Numerals.{towards_suc}
use mathlib.Core.Path.{ap₂}
use kahuna.Common.{
  ℕ, suc, ◌+◌, ◌*◌, ◌%◌, ◌^◌, ◌≤◌, ◌<◌, ◌≡◌, refl, sym, ap, ◌∙◌, true, false, not, ◌&&◌, List, [],
  ◌∷◌, ◌++◌, Option, none, some, ltb, ◌==◌, if◌then◌else◌, length, length-append, append-nil, arith,
}
use kahuna.Common.Bits.{pow-le, bit_or-double, bit_or-disjoint}
use kahuna.Decoders.{Bit, one, DecodedWord, BitOrder, msb_first, lsb_first}
use kahuna.Decoders.Spi.{SpiSettings, Progress, cut_off, shift_in, take_bit, cut_word}
use kahuna.Decoders.Spi.Groups.{
  Samples, bit_value, is_clean, all_clean, msb_value, lsb_value, number, cut_group,
}

msb_value-append :
    (high : ℕ) (bits : Samples) (t : ℕ) (b : Option Bit)
    → msb_value high (bits ++ (t, b) ∷ []) ≡ msb_value high bits * 2 + bit_value b
msb_value-append high [] t b = refl
msb_value-append high ((u, a) ∷ bits) t b = msb_value-append (high * 2 + bit_value a) bits t b

lsb_value-append :
    (bits : Samples) (t : ℕ) (b : Option Bit)
    → lsb_value (bits ++ (t, b) ∷ []) ≡ lsb_value bits + bit_value b * 2 ^ length bits
lsb_value-append [] t b = omega arith
lsb_value-append ((u, a) ∷ bits) t b = omega (
  arith,
  lsb_value-append bits t b,
  pow-suc 2 (length bits),
  ap (λ (p : ℕ). bit_value b * p) (pow-suc 2 (length bits)),
)

all_clean-append :
    (bits : Samples) (t : ℕ) (b : Option Bit)
    → all_clean (bits ++ (t, b) ∷ []) ≡ (all_clean bits && is_clean b)
all_clean-append [] t b = ground arith
all_clean-append ((u, a) ∷ bits) t b = ground (arith, all_clean-append bits t b)

-- The number with a new bit, the `count`-th.
abbrev entered : BitOrder → ℕ → ℕ → ℕ → ℕ
entered msb_first acc count b = acc * 2 + b
entered lsb_first acc count b = acc + b * 2 ^ count

-- A new bit enters the accumulator without loss.
shift_in_lem :
    (order : BitOrder) (acc count b : ℕ)
    → acc < 2 ^ count
    → b ≤ 1
    → count < 64
    → shift_in order acc count b ≡ entered order acc count b
unfolding shift_in
shift_in_lem msb_first acc count b h bit room =
    let e : acc * 2 % 2 ^ 64 ≡ acc * 2 =
      omega (arith, pow-le (suc count) 64 room, pow-suc 2 count) in
    rw e (bit_or-double acc b bit)
shift_in_lem lsb_first acc count b h bit room =
    let small : b * 2 ^ count ≤ 2 ^ count = grind arith in
    let e : b * 2 ^ count % 2 ^ 64 ≡ b * 2 ^ count =
      omega (arith, pow-le (suc count) 64 room, pow-suc 2 count, pow-le 0 count (omega arith)) in
    rw e (bit_or-disjoint count acc b h)

-- The group has a bit: its start is known, and the chip was selected at its last bit.
abbrev pub Begun : Samples → Progress → Type 0
Begun [] p = Unit
Begun ((t, b) ∷ bits) p = (p.word_start ≡ t) × (p.was_selected ≡ true)

-- The variables of the loop stand for the group in progress.
pub record Stands (order : BitOrder) (bits : Samples) (p : Progress) : Type 0 where
  pub count_is : p.count ≡ length bits
  pub begun : Begun bits p
  pub invalid_is : p.invalid ≡ not (all_clean bits)
  pub acc_is : all_clean bits ≡ true → p.acc ≡ number order bits
  pub acc_lt : p.acc < 2 ^ p.count

number-append :
    (order : BitOrder) (bits : Samples) (t : ℕ) (b : Option Bit)
    → number order (bits ++ (t, b) ∷ [])
      ≡ entered order (number order bits) (length bits) (bit_value b)
number-append msb_first bits t b = msb_value-append 0 bits t b
number-append lsb_first bits t b = lsb_value-append bits t b

-- `sample` up to its look at the count.
abbrev pub counted : SpiSettings → ℕ → Option Bit → Progress → Progress
counted s t b p =
    let begun = record p { word_start = if p.count == 0 then t else p.word_start } in
    let taken = take_bit s.bit_order b begun in record taken { count = taken.count + 1 }

bit_value-le : (b : Option Bit) → bit_value b ≤ 1
bit_value-le none = omega arith
bit_value-le (some one) = omega arith
bit_value-le (some _) = omega arith

entered-lt :
    (order : BitOrder) (acc count b : ℕ)
    → acc < 2 ^ count
    → b ≤ 1
    → entered order acc count b < 2 ^ (count + 1)
entered-lt msb_first acc count b h bit =
    let p : 2 ^ (count + 1) ≡ 2 ^ count * 2 = simp towards_suc (pow-suc 2 count) in omega arith
entered-lt lsb_first acc count b h bit =
    let p : 2 ^ (count + 1) ≡ 2 ^ count * 2 = simp towards_suc (pow-suc 2 count) in
    let small : b * 2 ^ count ≤ 2 ^ count = grind arith in omega arith

acc-append :
    (order : BitOrder) (bits : Samples) (t : ℕ) (b : Option Bit) (acc count : ℕ)
    → (all_clean bits ≡ true → acc ≡ number order bits)
    → count ≡ length bits
    → all_clean (bits ++ (t, b) ∷ []) ≡ true
    → entered order acc count (bit_value b) ≡ number order (bits ++ (t, b) ∷ [])
acc-append order bits t b acc count e k c =
    let clean : all_clean bits ≡ true = ground (arith, c, all_clean-append bits t b) in
    ap₂ (λ a n. entered order a n (bit_value b)) (e clean) k ∙ sym (number-append order bits t b)

Begun-counted :
    (s : SpiSettings) (bits : Samples) (p : Progress) (t : ℕ) (b : Option Bit)
    → p.count ≡ length bits
    → Begun bits p
    → p.was_selected ≡ true
    → Begun (bits ++ (t, b) ∷ []) (counted s t b p)
unfolding take_bit
Begun-counted s [] p t b c h w = ground arith
Begun-counted s ((u, a) ∷ bits) p t b c h w = ground arith

pub Stands-counted :
    (s : SpiSettings) (bits : Samples) (p : Progress) (t : ℕ) (b : Option Bit)
    → Stands s.bit_order bits p
    → p.was_selected ≡ true
    → length bits < 64
    → Stands s.bit_order (bits ++ (t, b) ∷ []) (counted s t b p)
unfolding take_bit
Stands-counted s bits p t (some one) i w room =
    let e =
      shift_in_lem s.bit_order p.acc p.count 1 i.acc_lt (omega arith) (omega (arith, i.count_is)) in
    record {
      count_is = omega (arith, i.count_is, length-append bits ((t, some one) ∷ []));
      begun = Begun-counted s bits p t (some one) i.count_is i.begun w;
      invalid_is = ground (arith, i.invalid_is, all_clean-append bits t (some one));
      acc_is =
          λ c. e ∙ acc-append s.bit_order bits t (some one) p.acc p.count i.acc_is i.count_is c;
      acc_lt = rw e (entered-lt s.bit_order p.acc p.count 1 i.acc_lt (omega arith));
    }
Stands-counted s bits p t (some Bit.zero) i w room =
    let e =
      shift_in_lem s.bit_order p.acc p.count 0 i.acc_lt (omega arith) (omega (arith, i.count_is)) in
    record {
      count_is = omega (arith, i.count_is, length-append bits ((t, some Bit.zero) ∷ []));
      begun = Begun-counted s bits p t (some Bit.zero) i.count_is i.begun w;
      invalid_is = ground (arith, i.invalid_is, all_clean-append bits t (some Bit.zero));
      acc_is = λ c.
          e ∙ acc-append s.bit_order bits t (some Bit.zero) p.acc p.count i.acc_is i.count_is c;
      acc_lt = rw e (entered-lt s.bit_order p.acc p.count 0 i.acc_lt (omega arith));
    }
Stands-counted s bits p t b i w room = record {
  count_is = omega (arith, i.count_is, length-append bits ((t, b) ∷ []));
  begun = Begun-counted s bits p t b i.count_is i.begun w;
  invalid_is = ground (arith, all_clean-append bits t b);
  acc_is = λ c. ground (arith, c, all_clean-append bits t b);
  acc_lt = omega (arith, i.acc_lt, pow-le p.count (p.count + 1) (omega arith));
}

-- The loop ends as `finish` has it, with the time of the last edge given.
abbrev pub ended : ℕ → ℕ → Progress → List DecodedWord
ended word_size last p =
    if ltb 0 p.count then p.words ++ cut_word p.word_start last p.count word_size ∷ [] else p.words

pub ended-cut_group :
    (order : BitOrder) (word_size last : ℕ) (bits : Samples) (p : Progress)
    → Stands order bits p
    → ended word_size last p ≡ p.words ++ cut_group word_size last bits
ended-cut_group order word_size last [] p i = ground (arith, i.count_is, append-nil p.words)
ended-cut_group order word_size last ((t, b) ∷ bits) p i = ground (arith, i.count_is, i.begun)

-- A group of no bits.
pub Stands-nil :
    (order : BitOrder) (p : Progress)
    → p.count ≡ 0
    → p.acc ≡ 0
    → p.invalid ≡ false
    → Stands order [] p
Stands-nil msb_first p c a v = record {
  count_is = c;
  begun = tt;
  invalid_is = v;
  acc_is = λ _. a;
  acc_lt = rw (c, a) (omega arith);
}
Stands-nil lsb_first p c a v = record {
  count_is = c;
  begun = tt;
  invalid_is = v;
  acc_is = λ _. a;
  acc_lt = rw (c, a) (omega arith);
}

acc-zero : (acc count : ℕ) → acc < 2 ^ count → count ≡ 0 → acc ≡ 0
acc-zero acc count h e = let k : acc < 2 ^ 0 = rw e at h in omega arith

module _ (order : BitOrder) (word_size t : ℕ) where
  -- A round with the chip deselected.
  abbrev pub idle : Progress → Progress
  idle p = record (cut_off word_size t false p) { was_selected = false }

  pub idle-Stands : (bits : Samples) (p : Progress) → Stands order bits p → Stands order [] (idle p)
  unfolding cut_off
  idle-Stands [] p i =
      Stands-nil order _ (ground (arith, i.count_is))
        (ground (arith, i.count_is, acc-zero p.acc p.count i.acc_lt))
        (ground (arith, i.count_is, i.invalid_is))
  idle-Stands ((u, b) ∷ bits) p i =
      Stands-nil order _ (ground (arith, i.count_is, i.begun)) (ground (arith, i.count_is, i.begun))
        (ground (arith, i.count_is, i.begun))

  pub words-idle :
      (bits : Samples) (p : Progress)
      → Stands order bits p
      → (idle p).words ≡ p.words ++ cut_group word_size t bits
  unfolding cut_off
  words-idle [] p i = ground (arith, i.count_is, append-nil p.words)
  words-idle ((u, b) ∷ bits) p i = ground (arith, i.count_is, i.begun)
