-- ===== src/Decoders/Formats.antt =====
-- Reading the text of a number: `WordFormat::format` in libsurfer/src/decoders/mod.rs.
use native.Mathlib.Nat.{div-lt_self, div-add-mod', mod-lt}
use kahuna.Common.{
  ℕ, zero, suc, ◌+◌, ◌-◌, ◌*◌, ◌/◌, ◌%◌, ◌≤◌, ◌<◌, ◌≡◌, refl, ap, ◌∙◌, true, false, [], ◌∷◌, ◌++◌,
  ltb, if◌then◌else◌, length, replicate, arith, Bool-cases, inl, inr,
}
use kahuna.Decoders.{
  Text, digit_char, digits_onto, digits_of, zero_padded, hex, decimal, binary, format,
}

abbrev pub digit_value : ℕ → ℕ
digit_value c = if ltb c b'A' then c - b'0' else c - b'A' + 10

-- Reads digits behind a number.
abbrev pub read_onto : ℕ → ℕ → Text → ℕ
read_onto base high [] = high
read_onto base high (c ∷ cs) = read_onto base (high * base + digit_value c) cs

abbrev pub read : ℕ → Text → ℕ
read base t = read_onto base 0 t

digit_value-digit_char : (d : ℕ) → d < 16 → digit_value (digit_char d) ≡ d
unfolding digit_char
digit_value-digit_char d small = ground arith

pub below-quotient : (fuel n base : ℕ) → 2 ≤ base → base ≤ n → n < suc fuel → n / base < fuel
below-quotient fuel n base two big enough =
    omega (arith, div-lt_self {n = n} {k = base} (omega arith) (omega arith))

pub digits_onto-last :
    (fuel base n : ℕ) (rest : Text)
    → ltb n base ≡ true
    → digits_onto (suc fuel) base n rest ≡ digit_char n ∷ rest
unfolding digits_onto
digits_onto-last fuel base n rest e = rw (digits_onto, e) refl

pub digits_onto-more :
    (fuel base n : ℕ) (rest : Text)
    → ltb n base ≡ false
    → digits_onto (suc fuel) base n rest
      ≡ digits_onto fuel base (n / base) (digit_char (n % base) ∷ rest)
unfolding digits_onto
digits_onto-more fuel base n rest e = rw (digits_onto, e) refl

-- A number is fuel enough for its digits.
read_onto-digits_onto :
    (fuel base n : ℕ) (rest : Text)
    → 2 ≤ base
    → base ≤ 16
    → n < fuel
    → read_onto base 0 (digits_onto fuel base n rest) ≡ read_onto base n rest
read_onto-digits_onto zero base n rest two room enough = absurd (omega arith)
read_onto-digits_onto (suc fuel) base n rest two room enough = elim (Bool-cases (ltb n base)) [
  | inl last ↦
      let below : n < base = ground (arith, last) in
      let whole : 0 * base + digit_value (digit_char n) ≡ n =
        omega (arith, digit_value-digit_char n (omega arith)) in
      ap (read_onto base 0) (digits_onto-last fuel base n rest last)
      ∙ ap (λ (m : ℕ). read_onto base m rest) whole
  | inr more ↦
      let above : base ≤ n = ground (arith, more) in
      let low : n % base < base = mod-lt n (omega arith) in
      let whole : n / base * base + digit_value (digit_char (n % base)) ≡ n =
        omega (arith, digit_value-digit_char (n % base) (omega arith), div-add-mod' n base) in
      ap (read_onto base 0) (digits_onto-more fuel base n rest more)
      ∙ read_onto-digits_onto fuel base (n / base) (digit_char (n % base) ∷ rest) two room
          (below-quotient fuel n base two above enough)
      ∙ ap (λ (m : ℕ). read_onto base m rest) whole
]

pub read-digits_of : (base n : ℕ) → 2 ≤ base → base ≤ 16 → read base (digits_of base n) ≡ n
unfolding digits_of
read-digits_of base n two room = read_onto-digits_onto (suc n) base n [] two room (omega arith)

read-padding : (base k : ℕ) (t : Text) → read base (replicate k b'0' ++ t) ≡ read base t
read-padding base zero t = refl
read-padding base (suc k) t =
    let e : 0 * base + 0 ≡ 0 = omega arith in
    ap (λ (m : ℕ). read_onto base m (replicate k b'0' ++ t)) e ∙ read-padding base k t

pub read-zero_padded : (base width : ℕ) (t : Text) → read base (zero_padded width t) ≡ read base t
unfolding zero_padded
read-zero_padded base width t = read-padding base (width - length t) t

-- What a word shows as a number in base 16, 10 or 2, with its padding, reads back as the number,
-- at any width.
pub read-format :
    (value bits : ℕ)
    → (read 16 (format hex value bits) ≡ value)
      × (read 10 (format decimal value bits) ≡ value)
      × (read 2 (format binary value bits) ≡ value)
unfolding format
read-format value bits = (
  read-zero_padded 16 ((bits + 3) / 4) (digits_of 16 value)
      ∙ read-digits_of 16 value (omega arith) (omega arith),
  read-digits_of 10 value (omega arith) (omega arith),
  read-zero_padded 2 bits (digits_of 2 value) ∙ read-digits_of 2 value (omega arith) (omega arith),
)
