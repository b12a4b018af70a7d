-- ===== src/Decoders/I2c/Tokens.antt =====
-- The bits of a byte in the loop of `decode`, in libsurfer/src/decoders/i2c.rs.
use Prim.Native.Nat.{bit_or}
use native.Mathlib.Nat.{pow-suc}
use mathlib.Core.Path.{subst}
use kahuna.Common.{
  ℕ, suc, ◌+◌, ◌*◌, ◌%◌, ◌^◌, ◌≤◌, ◌<◌, ◌≡◌, refl, ap, ◌∙◌, Bool, true, false, ◌&&◌, List, [], ◌∷◌,
  ◌==◌, if◌then◌else◌, length, arith,
}
use kahuna.Common.Bits.{pow-le, bit_or-zero, bit_or-double, bit_or-disjoint, bit_and-pow}
use kahuna.Decoders.{codes, Bit, one, invalid, same_bit, DecodedWord, data_word, error_word, format}
use kahuna.Decoders.I2c.{
  I2cSettings, TimedEvent, sample_event, Bus, put, on_sample, on_bit, bit_of, shift_in,
  is_unreliable, address_text, byte_text, byte_word, step, run,
}

abbrev pub Bits : Type 0
Bits = List (ℕ × Bit)

-- The number of the bits, the first of which is the most significant one.
abbrev pub number : ℕ → Bits → ℕ
number high [] = high
number high ((t, b) ∷ bs) = number (high * 2 + bit_of b) bs

abbrev pub ends_invalid : Bits → Bool
ends_invalid [] = false
ends_invalid ((t, b) ∷ []) = same_bit b invalid
ends_invalid ((t, b) ∷ c ∷ bs) = ends_invalid (c ∷ bs)

abbrev pub end_of : ℕ → Bits → ℕ
end_of d [] = d
end_of d ((t, b) ∷ bs) = end_of t bs

abbrev pub sampled : Bits → List TimedEvent
sampled [] = []
sampled ((t, b) ∷ bs) = (t, sample_event b) ∷ sampled bs

abbrev pub bool_number : Bool → ℕ
bool_number true = 1
bool_number false = 0

-- 1 for an invalid bit
abbrev flag : Bit → ℕ
flag bit = bool_number (same_bit bit invalid)

shifted :
    (l : ℕ) (bit : Bit)
    → l * 2 < 2 ^ 63
    → (if same_bit bit invalid
        then bit_or (bit_or (l * 2) (bit_of bit)) (2 ^ 63)
        else bit_or (l * 2) (bit_of bit))
      ≡ l * 2 + bit_of bit + flag bit * 2 ^ 63
shifted l Bit.zero room = omega (arith, bit_or-double l 0 (omega arith))
shifted l one room = omega (arith, bit_or-double l 1 (omega arith))
shifted l invalid room =
    let e : bit_or (l * 2) 0 ≡ l * 2 = bit_or-zero (l * 2) in
    rw e (omega (arith, bit_or-disjoint 63 (l * 2) 1 room))

-- The mark of an invalid bit goes with the next bit: it is shifted out of the 64 bits.
shift_in_lem :
    (k l h : ℕ) (bit : Bit)
    → l < 2 ^ k
    → k < 8
    → h ≤ 1
    → shift_in (l + h * 2 ^ 63) bit ≡ l * 2 + bit_of bit + flag bit * 2 ^ 63
unfolding shift_in
shift_in_lem k l h bit small few mark =
    let low : 2 ^ k ≤ 2 ^ 7 = pow-le k 7 (omega arith) in
    let e : (l + h * 2 ^ 63) * 2 % 2 ^ 64 ≡ l * 2 = omega arith in
    let room : l * 2 < 2 ^ 63 = omega arith in rw e (shifted l bit room)

-- The text of a byte, by its number and whether its last bit is invalid.
abbrev pub shown : I2cSettings → Bool → Bool → ℕ → List ℕ
shown s addressed unreliable byte =
    if unreliable
    then codes "x"
    else if addressed && s.split_address
    then address_text s byte
    else format s.word_format byte 8

abbrev pub shown_word : I2cSettings → Bool → Bool → ℕ → ℕ → ℕ → DecodedWord
shown_word s addressed unreliable byte start end = record {
  start = start;
  end = end;
  text = shown s addressed unreliable byte;
  kind = if unreliable then error_word else data_word;
}

is_unreliable_lem :
    (u : Bool) (value : ℕ) → value < 2 ^ 8 → is_unreliable (value + bool_number u * 2 ^ 63) ≡ u
is_unreliable_lem true value small = rw (bit_and-pow 63 1 value (omega arith) (omega arith)) refl
is_unreliable_lem false value small = rw (bit_and-pow 63 0 value (omega arith) (omega arith)) refl

byte_word_lem :
    (s : I2cSettings) (time value : ℕ) (u : Bool) (b : Bus)
    → b.acc ≡ value + bool_number u * 2 ^ 63
    → value < 2 ^ 8
    → byte_word s time b ≡ shown_word s b.expect_address u value b.byte_start time
unfolding byte_word byte_text
byte_word_lem s time value true b e small = rw (e, is_unreliable_lem true value small) refl
byte_word_lem s time value false b e small =
    let low : (value + 0 * 2 ^ 63) % 256 ≡ value = omega arith in
    rw (e, is_unreliable_lem false value small, low) refl

bit_of-bound : (bit : Bit) → bit_of bit ≤ 1
bit_of-bound one = omega arith
bit_of-bound Bit.zero = omega arith
bit_of-bound invalid = omega arith

-- In a transaction, `k` bits of a byte have been taken: their number is `l`, and the last one is
-- invalid if `u` is true.
pub record Holds (k l : ℕ) (u : Bool) (b : Bus) : Type 0 where
  pub held : b.in_transaction ≡ true
  pub bits_is : b.bits ≡ k
  pub acc_is : b.acc ≡ l + bool_number u * 2 ^ 63
  pub small : l < 2 ^ k

abbrev pub begun_at : ℕ → Bus → ℕ
begun_at t b = if b.bits == 0 then t else b.byte_start

abbrev taken : ℕ → Bit → Bus → Bus
taken t bit b = record b { byte_start = begun_at t b; acc = shift_in b.acc bit; bits = b.bits + 1 }

bool_number-bound : (u : Bool) → bool_number u ≤ 1
bool_number-bound true = omega arith
bool_number-bound false = omega arith

Holds-taken :
    (k l : ℕ) (u : Bool) (t : ℕ) (bit : Bit) (b : Bus)
    → Holds k l u b
    → k < 8
    → Holds (suc k) (l * 2 + bit_of bit) (same_bit bit invalid) (taken t bit b)
Holds-taken k l u t bit b i few = record {
  held = i.held;
  bits_is = omega (arith, i.bits_is);
  acc_is = rw i.acc_is (shift_in_lem k l (bool_number u) bit i.small few (bool_number-bound u));
  small = omega (arith, i.small, pow-suc 2 k, bit_of-bound bit);
}

abbrev pub after_byte : I2cSettings → ℕ → ℕ → Bool → ℕ → Bus → Bus
after_byte s start value u end b =
    record (put (shown_word s b.expect_address u value start end) b) {
      bits = 8;
      acc = value + bool_number u * 2 ^ 63;
      byte_start = start;
    }

step-on_bit :
    (s : I2cSettings) (period k l : ℕ) (u : Bool) (t : ℕ) (bit : Bit) (b : Bus)
    → Holds k l u b
    → k < 8
    → step s period (t, sample_event bit) b ≡ on_bit s t bit b
unfolding step on_sample
step-on_bit s period k l u t bit b i few = ground (arith, i.held, i.bits_is)

on_bit_last :
    (s : I2cSettings) (l : ℕ) (u : Bool) (t : ℕ) (bit : Bit) (b : Bus)
    → Holds 7 l u b
    → on_bit s t bit b ≡ after_byte s (begun_at t b) (l * 2 + bit_of bit) (same_bit bit invalid) t b
unfolding on_bit
on_bit_last s l u t bit b i =
    let j = Holds-taken 7 l u t bit b i (omega arith) in
    let w =
      byte_word_lem s t (l * 2 + bit_of bit) (same_bit bit invalid) (taken t bit b) j.acc_is
        j.small in
    let full : on_bit s t bit b ≡ put (byte_word s t (taken t bit b)) (taken t bit b) =
      ground (arith, j.bits_is) in
    full ∙ rw (w, j.acc_is, j.bits_is) refl

on_bit_more :
    (s : I2cSettings) (k l : ℕ) (u : Bool) (t : ℕ) (bit : Bit) (b : Bus)
    → Holds k l u b
    → k < 7
    → on_bit s t bit b ≡ taken t bit b
unfolding on_bit
on_bit_more s k l u t bit b i few = ground (arith, i.bits_is)

-- The rest of a byte, of at least one bit.
pub run_bits :
    (s : I2cSettings) (period k l : ℕ) (u : Bool) (t : ℕ) (bit : Bit) (rest : Bits) (b : Bus)
    → Holds k l u b
    → k + length rest ≡ 7
    → run s period (sampled ((t, bit) ∷ rest)) b
      ≡ after_byte s
          (begun_at t b)
          (number l ((t, bit) ∷ rest))
          (ends_invalid ((t, bit) ∷ rest))
          (end_of t rest)
          b
unfolding run
run_bits s period k l u t bit [] b i size =
    let e : k ≡ 7 = omega arith in
    let i' : Holds 7 l u b = subst (λ n. Holds n l u b) e i in
    step-on_bit s period 7 l u t bit b i' (omega arith) ∙ on_bit_last s l u t bit b i'
run_bits s period k l u t bit ((v, c) ∷ rest) b i size =
    let few : k < 7 = omega arith in
    let i' = Holds-taken k l u t bit b i (omega arith) in
    let q = taken t bit b in
    let stays : begun_at v q ≡ begun_at t b = ground (arith, i.bits_is) in
    ap (λ (c' : Bus). run s period (sampled ((v, c) ∷ rest)) c')
      (step-on_bit s period k l u t bit b i (omega arith) ∙ on_bit_more s k l u t bit b i few)
    ∙ run_bits s period (suc k) (l * 2 + bit_of bit) (same_bit bit invalid) v c rest q i'
        (omega arith)
    ∙ rw stays refl
