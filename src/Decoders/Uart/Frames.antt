-- ===== src/Decoders/Uart/Frames.antt =====
-- The frames of `decode`: what is sent on the line as a frame, and how it is read.
use kahuna.Common.{
  ℕ, zero, suc, ◌+◌, ◌*◌, ◌%◌, ◌^◌, ◌≤◌, ◌<◌, ◌≡◌, refl, ap, ◌∙◌, Bool, true, false, not, ◌||◌,
  List, [], ◌∷◌, Option, none, some, ◌==◌, if◌then◌else◌, length, arith, Bool-cases, inl, inr,
}
use kahuna.Common.Bits.{pow-next, pow-le, bit_or-zero, bit_or-double, bit_or-disjoint}
use kahuna.Decoders.{
  Text, codes, u64, Bit, data_word, error_word, BitOrder, msb_first, lsb_first, format,
}
use kahuna.Decoders.Uart.{
  Parity, no_parity, even, odd, UartSettings, idle, start, bool_bit, Frame, empty_frame, shift_in,
  take_bit, read_bits, has_parity, check_parity, check_stop, data_count, parity_count, stop_count,
  frame_bits, frame_error, frame_word,
}

-- A mark, the level of the idle line, is a 1.
abbrev pub level : UartSettings → Bool → Bit
level s b = if b then idle s else start s

-- The samples behind the `i`-th carry the bits.
abbrev pub Carries : UartSettings → (ℕ → Option Bit) → ℕ → List Bool → Type 0
Carries s at i [] = Unit
Carries s at i (b ∷ bs) = (at (i + 1) ≡ some (level s b)) × Carries s at (i + 1) bs

-- The stop bits: `left` marks from the `i`-th sample on.
abbrev pub Marks : UartSettings → (ℕ → Option Bit) → ℕ → ℕ → Type 0
Marks s at zero i = Unit
Marks s at (suc left) i = (at i ≡ some (idle s)) × Marks s at left (i + 1)

abbrev pub count_ones : List Bool → ℕ
count_ones [] = 0
count_ones (b ∷ bs) = bool_bit b + count_ones bs

abbrev pub lsb_value : List Bool → ℕ
lsb_value [] = 0
lsb_value (b ∷ bs) = bool_bit b + lsb_value bs * 2

abbrev pub msb_value : ℕ → List Bool → ℕ
msb_value high [] = high
msb_value high (b ∷ bs) = msb_value (high * 2 + bool_bit b) bs

abbrev pub number : BitOrder → List Bool → ℕ
number msb_first bs = msb_value 0 bs
number lsb_first bs = lsb_value bs

-- The number of the bits behind `i` bits whose number is `v`.
abbrev entered : BitOrder → ℕ → ℕ → List Bool → ℕ
entered msb_first i v bs = msb_value v bs
entered lsb_first i v bs = v + lsb_value bs * 2 ^ i

abbrev joined : BitOrder → ℕ → ℕ → ℕ → ℕ
joined msb_first i v b = v * 2 + b
joined lsb_first i v b = v + b * 2 ^ i

entered-number : (order : BitOrder) (bs : List Bool) → entered order 0 0 bs ≡ number order bs
entered-number msb_first bs = refl
entered-number lsb_first bs = omega arith

entered-joined :
    (order : BitOrder) (i v : ℕ) (b : Bool) (bs : List Bool)
    → entered order (i + 1) (joined order i v (bool_bit b)) bs ≡ entered order i v (b ∷ bs)
entered-joined msb_first i v b bs = refl
entered-joined lsb_first i v b bs = rw (pow-next i) (grind arith)

bool_bit-bound : (b : Bool) → bool_bit b ≤ 1
bool_bit-bound true = omega arith
bool_bit-bound false = omega arith

shift_in_lem :
    (order : BitOrder) (i v : ℕ) (b : Bool)
    → v < 2 ^ i
    → i < 9
    → shift_in order v i (bool_bit b) ≡ joined order i v (bool_bit b)
unfolding shift_in
shift_in_lem msb_first i v b small few =
    let e : v * 2 % 2 ^ 64 ≡ v * 2 = omega (arith, pow-le i 9 (omega arith)) in
    rw e (bit_or-double v (bool_bit b) (bool_bit-bound b))
shift_in_lem lsb_first i v true small few =
    let e : 1 * 2 ^ i % 2 ^ 64 ≡ 1 * 2 ^ i = omega (arith, pow-le i 9 (omega arith)) in
    rw e (bit_or-disjoint i v 1 small)
shift_in_lem lsb_first i v false small few =
    let e : 0 * 2 ^ i % 2 ^ 64 ≡ 0 = omega arith in rw (e, bit_or-zero v) (omega arith)

entered-nil : (order : BitOrder) (i v : ℕ) → entered order i v [] ≡ v
entered-nil msb_first i v = refl
entered-nil lsb_first i v = omega arith

joined-bound :
    (order : BitOrder) (i v : ℕ) (b : Bool)
    → v < 2 ^ i
    → joined order i v (bool_bit b) < 2 ^ (i + 1)
joined-bound msb_first i v b h = omega (arith, pow-next i, bool_bit-bound b)
joined-bound lsb_first i v true h = omega (arith, pow-next i)
joined-bound lsb_first i v false h = omega (arith, pow-next i)

-- A bit that is carried is taken.
abbrev bit_taken : UartSettings → ℕ → Bool → Frame → Frame
bit_taken s i b f = record f {
  value = shift_in s.bit_order f.value i (bool_bit b);
  ones = f.ones + bool_bit b;
}

take_bit_lem :
    (s : UartSettings) (i : ℕ) (b : Bool) (f : Frame)
    → take_bit s i (some (level s b)) f ≡ bit_taken s i b f
unfolding take_bit
take_bit_lem s i true f = elim (Bool-cases s.idle_high) [ inl h ↦ rw h refl | inr h ↦ rw h refl ]
take_bit_lem s i false f = elim (Bool-cases s.idle_high) [ inl h ↦ rw h refl | inr h ↦ rw h refl ]

read_bits_lem :
    (s : UartSettings) (at : ℕ → Option Bit) (left i : ℕ) (f : Frame) (bs : List Bool)
    → length bs ≡ left
    → i + left ≤ 9
    → f.value < 2 ^ i
    → Carries s at i bs
    → read_bits s at left i f
      ≡ record f { value = entered s.bit_order i f.value bs; ones = f.ones + count_ones bs }
unfolding read_bits
read_bits_lem s at zero i f [] size room small c =
    let none_more : f.ones + 0 ≡ f.ones = omega arith in
    rw (entered-nil s.bit_order i f.value, none_more) refl
read_bits_lem s at zero i f (b ∷ bs) size room small c = absurd (omega arith)
read_bits_lem s at (suc left) i f [] size room small c = absurd (omega arith)
read_bits_lem s at (suc left) i f (b ∷ bs) size room small c =
    let v : shift_in s.bit_order f.value i (bool_bit b)
        ≡ joined s.bit_order i f.value (bool_bit b) =
      shift_in_lem s.bit_order i f.value b small (omega arith) in
    let q = bit_taken s i b f in
    let e : take_bit s i (at (i + 1)) f ≡ q = rw c.0 (take_bit_lem s i b f) in
    let small' : q.value < 2 ^ (i + 1) = rw v (joined-bound s.bit_order i f.value b small) in
    let all_ones : f.ones + bool_bit b + count_ones bs ≡ f.ones + (bool_bit b + count_ones bs) =
      omega arith in
    ap (read_bits s at left (i + 1)) e
    ∙ read_bits_lem s at left (i + 1) q bs (omega arith) (omega arith) small' c.1
    ∙ rw (v, entered-joined s.bit_order i f.value b bs, all_ones) refl

-- What the count of the ones, the parity bit included, is to be modulo 2.
abbrev pub parity_rest : Parity → ℕ
parity_rest odd = 1
parity_rest _ = 0

-- The parity bit `q` is on the line, where there is one.
abbrev pub ParitySent : UartSettings → (ℕ → Option Bit) → ℕ → Bool → Parity → Type 0
ParitySent s at i q no_parity = Unit
ParitySent s at i q _ = at i ≡ some (level s q)

-- The samples of a frame that holds the bits `bs` and the parity bit `q`.
pub record Sent (s : UartSettings) (at : ℕ → Option Bit) (bs : List Bool) (q : Bool) : Type 0 where
  pub size : length bs ≡ data_count s
  pub bits_on_line : Carries s at 0 bs
  pub parity_on_line : ParitySent s at (data_count s + 1) q s.parity
  pub parity_fits : (count_ones bs + bool_bit q) % 2 ≡ parity_rest s.parity
  pub stops : Marks s at (stop_count s) (data_count s + parity_count s + 1)

check_stop_lem :
    (s : UartSettings) (at : ℕ → Option Bit) (left i : ℕ) (e : Option Text)
    → Marks s at left i
    → check_stop s at left i e ≡ e
unfolding check_stop
check_stop_lem s at zero i e m = refl
check_stop_lem s at (suc left) i e m = elim (Bool-cases s.idle_high) [
  | inl h ↦ rw (m.0, h) (check_stop_lem s at left (i + 1) e m.1)
  | inr h ↦ rw (m.0, h) (check_stop_lem s at left (i + 1) e m.1)
]

-- The level of the parity bit is taken for the bit itself, also on a line that idles low.
abbrev pub parity_error : UartSettings → Option Text
parity_error s = if s.idle_high || not (has_parity s.parity) then none else some (codes "parity")

check_parity_lem :
    (s : UartSettings) (at : ℕ → Option Bit) (ones : ℕ) (q : Bool) (i : ℕ) (p : Parity)
    → s.parity ≡ p
    → ParitySent s at i q p
    → (ones + bool_bit q) % 2 ≡ parity_rest p
    → check_parity s ones (at i) none ≡ parity_error s
unfolding check_parity
check_parity_lem s at ones q i no_parity h on fits = elim (Bool-cases s.idle_high) [
  | inl v ↦ rw (h, v) refl
  | inr v ↦ rw (h, v) refl
]
check_parity_lem s at ones true i even h on fits =
    let r : (ones % 2 == 1) ≡ true = ground arith in
    elim (Bool-cases s.idle_high) [ inl v ↦ rw (h, on, r, v) refl | inr v ↦ rw (h, on, r, v) refl ]
check_parity_lem s at ones false i even h on fits =
    let r : (ones % 2 == 1) ≡ false = ground arith in
    elim (Bool-cases s.idle_high) [ inl v ↦ rw (h, on, r, v) refl | inr v ↦ rw (h, on, r, v) refl ]
check_parity_lem s at ones true i odd h on fits =
    let r : (ones % 2 == 1) ≡ false = ground arith in
    elim (Bool-cases s.idle_high) [ inl v ↦ rw (h, on, r, v) refl | inr v ↦ rw (h, on, r, v) refl ]
check_parity_lem s at ones false i odd h on fits =
    let r : (ones % 2 == 1) ≡ true = ground arith in
    elim (Bool-cases s.idle_high) [ inl v ↦ rw (h, on, r, v) refl | inr v ↦ rw (h, on, r, v) refl ]

data_count-bound : (s : UartSettings) → data_count s ≤ 9
data_count-bound s = ground arith

-- A frame that holds the bits `bs`, with a parity bit that fits and with its stop bits, is read as
-- the number of the bits in the order of the settings, except on a line that idles low: there a
-- frame with a parity bit is shown as "parity", an error, though its parity is right.
pub frame_word-Sent :
    (s : UartSettings) (period t : ℕ) (at : ℕ → Option Bit) (bs : List Bool) (q : Bool)
    → Sent s at bs q
    → frame_word s period t at ≡ record {
      start = t;
      end = u64 (t + u64 (frame_bits s * period));
      text =
          if s.idle_high || not (has_parity s.parity)
          then format s.word_format (number s.bit_order bs) (data_count s)
          else codes "parity";
      kind = if s.idle_high || not (has_parity s.parity) then data_word else error_word;
    }
unfolding frame_word frame_error
frame_word-Sent s period t at bs q i =
    let f : Frame = record {
      value = number s.bit_order bs;
      ones = count_ones bs;
      invalid = false;
    } in
    let from_zero : 0 + count_ones bs ≡ count_ones bs = omega arith in
    let reads : read_bits s at (data_count s) 0 empty_frame ≡ f =
      read_bits_lem s at (data_count s) 0 empty_frame bs i.size (omega (arith, data_count-bound s))
        (omega arith) i.bits_on_line
      ∙ rw (entered-number s.bit_order bs, from_zero) refl in
    let error : check_stop s at (stop_count s) (data_count s + parity_count s + 1)
          (check_parity s (count_ones bs) (at (data_count s + 1)) none)
        ≡ parity_error s =
      check_stop_lem s at (stop_count s) _ _ i.stops
      ∙ check_parity_lem s at (count_ones bs) q (data_count s + 1) s.parity refl i.parity_on_line
          i.parity_fits in
    rw reads (elim (Bool-cases (s.idle_high || not (has_parity s.parity))) [
      | inl fine ↦ rw (error, fine) refl
      | inr wrong ↦ rw (error, wrong) refl
    ])
