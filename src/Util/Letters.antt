-- ===== src/Util/Letters.antt =====
-- Letters for an index: what is read back from them.
use kahuna.Common.{
  ℕ, zero, suc, ◌+◌, ◌-◌, ◌*◌, ◌/◌, ◌%◌, ◌^◌, ◌<◌, ◌≡◌, refl, ◌∙◌, true, false, ◌&&◌, ◌||◌, [], ◌∷◌,
  ◌++◌, map, some, length, replicate, ltb, leb, ok, is_digit, is_empty, all_of, arith, Bool-cases,
  inl, inr,
}
use kahuna.Decoders.{Text, digit_char, digits_onto, digits_of, zero_padded}
use kahuna.Decoders.Formats.{digit_value, read_onto, read-digits_of, read-zero_padded}
use kahuna.Translators.Basic.{lower_hex}
use kahuna.Util.{
  alpha_of, digit_of_alpha, sixteenths, uint_idx_to_alpha_idx, is_hex_digit, hex_value, hex_onto,
  alpha_idx_to_uint_idx,
}

-- Digits in base 16 as they are written in upper case
abbrev pub AreHex : Text → Type 0
AreHex [] = Unit
AreHex (c ∷ cs) = ((is_digit c || (leb 65 c && leb c 70)) ≡ true) × AreHex cs

hex_char :
    (d : ℕ)
    → d < 16
    → (is_digit (digit_char d) || (leb 65 (digit_char d) && leb (digit_char d) 70)) ≡ true
unfolding digit_char
hex_char d h = ground arith

digits_onto-AreHex : (fuel n : ℕ) (rest : Text) → AreHex rest → AreHex (digits_onto fuel 16 n rest)
unfolding digits_onto
digits_onto-AreHex zero n rest h = h
digits_onto-AreHex (suc fuel) n rest h = elim (Bool-cases (ltb n 16)) [
  | inl last ↦ rw (digits_onto, last) (hex_char n (ground (arith, last)), h)
  | inr more ↦
      rw (digits_onto, more)
        (digits_onto-AreHex fuel (n / 16) _ (hex_char (n % 16) (omega arith), h))
]

-- A digit comes back from its letter, as the one in lower case.
letter :
    (c : ℕ)
    → (is_digit c || (leb 65 c && leb c 70)) ≡ true
    → digit_of_alpha (alpha_of (lower_hex c)) ≡ lower_hex c
letter c h = ground arith

lower_value :
    (c : ℕ)
    → (is_digit c || (leb 65 c && leb c 70)) ≡ true
    → (is_hex_digit (lower_hex c) ≡ true) × (hex_value (lower_hex c) ≡ digit_value c)
lower_value c h = (ground arith, ground arith)

AreHex-padding : (k : ℕ) (t : Text) → AreHex t → AreHex (replicate k 48 ++ t)
AreHex-padding zero t h = h
AreHex-padding (suc k) t h = (refl, AreHex-padding k t h)

-- The text that is read back
abbrev there_and_back : Text → Text
there_and_back t = map digit_of_alpha (map alpha_of (map lower_hex t))

back-AreHex : (t : Text) → AreHex t → all_of is_hex_digit (there_and_back t) ≡ true
back-AreHex [] h = refl
back-AreHex (c ∷ cs) h = rw (letter c h.0, (lower_value c h.0).0) (back-AreHex cs h.1)

hex_onto-read : (n : ℕ) (t : Text) → AreHex t → hex_onto n (there_and_back t) ≡ read_onto 16 n t
hex_onto-read n [] h = refl
hex_onto-read n (c ∷ cs) h =
    rw (letter c h.0, (lower_value c h.0).1) (hex_onto-read (n * 16 + digit_value c) cs h.1)

back-nonempty : (t : Text) → is_empty (there_and_back t) ≡ is_empty t
back-nonempty [] = refl
back-nonempty (c ∷ cs) = refl

digits_onto-nonempty :
    (fuel n : ℕ) (c : ℕ) (rest : Text) → is_empty (digits_onto fuel 16 n (c ∷ rest)) ≡ false
unfolding digits_onto
digits_onto-nonempty zero n c rest = refl
digits_onto-nonempty (suc fuel) n c rest = elim (Bool-cases (ltb n 16)) [
  | inl last ↦ rw (digits_onto, last) refl
  | inr more ↦ rw (digits_onto, more) (digits_onto-nonempty fuel (n / 16) _ (c ∷ rest))
]

digits_of-nonempty : (n : ℕ) → is_empty (digits_of 16 n) ≡ false
unfolding digits_of digits_onto
digits_of-nonempty n = elim (Bool-cases (ltb n 16)) [
  | inl last ↦ rw (digits_of, digits_onto, last) refl
  | inr more ↦ rw (digits_of, digits_onto, more) (digits_onto-nonempty n (n / 16) _ [])
]

padding-nonempty : (k : ℕ) (t : Text) → is_empty t ≡ false → is_empty (replicate k 48 ++ t) ≡ false
padding-nonempty zero t h = h
padding-nonempty (suc k) t h = refl

-- The letters of an index, for any number of variables but 0, are read back as the index. The index
-- is one of 64 bits.
pub alpha_idx_to_uint_idx-uint_idx :
    (idx nvariables : ℕ)
    → idx < 2 ^ 64
    → 0 < nvariables
    → (letters : Text) × (uint_idx_to_alpha_idx idx nvariables ≡ ok letters)
      × (alpha_idx_to_uint_idx letters ≡ some idx)
unfolding uint_idx_to_alpha_idx alpha_idx_to_uint_idx zero_padded
alpha_idx_to_uint_idx-uint_idx idx nvariables small some_variable =
    let width = sixteenths nvariables nvariables + 1 in
    let t = zero_padded width (digits_of 16 idx) in
    let given : ltb 0 nvariables ≡ true = ground arith in
    let hex : AreHex t =
      AreHex-padding (width - length (digits_of 16 idx)) (digits_of 16 idx)
        (digits_onto-AreHex (suc idx) idx [] tt) in
    let full : is_empty (there_and_back t) ≡ false =
      back-nonempty t
      ∙ padding-nonempty (width - length (digits_of 16 idx)) (digits_of 16 idx)
          (digits_of-nonempty idx) in
    let value : hex_onto 0 (there_and_back t) ≡ idx =
      hex_onto-read 0 t hex
      ∙ read-zero_padded 16 width (digits_of 16 idx)
      ∙ read-digits_of 16 idx (omega arith) (omega arith) in
    let fits : ltb idx (2 ^ 64) ≡ true = ground arith in
    (map alpha_of (map lower_hex t), rw given refl, rw (full, back-AreHex t hex, value, fits) refl)
