-- ===== src/Decoders/I2c/Transactions.antt =====
-- The words of a transaction: a START, bytes of eight bits with their acknowledges, and a STOP.
use kahuna.Common.{
  ℕ, ◌≡◌, refl, ap, ◌∙◌, Bool, true, false, List, [], ◌∷◌, ◌++◌, if◌then◌else◌, length,
  append_assoc, arith,
}
use kahuna.Decoders.{codes, Bit, same_bit, DecodedWord, data_word, error_word}
use kahuna.Decoders.I2c.{
  I2cSettings, TimedEvent, start_event, stop_event, sample_event, Bus, token, put, on_start,
  on_stop, on_acknowledge, on_sample, step, run,
}
use kahuna.Decoders.I2c.Tokens.{
  Bits, number, ends_invalid, end_of, sampled, shown_word, Holds, begun_at, after_byte, run_bits,
}

-- The first bit of a byte, the others, and the acknowledge, each with its time.
pub record Byte : Type 0 where
  pub time : ℕ
  pub first : Bit
  pub others : Bits
  pub ack_time : ℕ
  pub ack : Bit

abbrev pub bits_of : Byte → Bits
bits_of y = (y.time, y.first) ∷ y.others

abbrev pub OfEight : List Byte → Type 0
OfEight [] = Unit
OfEight (y ∷ ys) = (length y.others ≡ 7) × OfEight ys

abbrev pub transfer : List Byte → List TimedEvent
transfer [] = []
transfer (y ∷ ys) = sampled (bits_of y) ++ (y.ack_time, sample_event y.ack) ∷ transfer ys

abbrev pub ack_word : ℕ → Byte → DecodedWord
ack_word period y =
    let acked = same_bit y.ack Bit.zero in
    token period y.ack_time (if acked then codes "A" else codes "N")
      (if acked then data_word else error_word)

abbrev pub byte_shown : I2cSettings → Bool → Byte → DecodedWord
byte_shown s addressed y =
    shown_word s addressed (ends_invalid (bits_of y)) (number 0 (bits_of y)) y.time
      (end_of y.time y.others)

-- The first byte is shown as an address.
abbrev pub transfer_words : I2cSettings → ℕ → Bool → List Byte → List DecodedWord
transfer_words s period addressed [] = []
transfer_words s period addressed (y ∷ ys) =
    byte_shown s addressed y ∷ ack_word period y ∷ transfer_words s period false ys

run-append :
    (s : I2cSettings) (period : ℕ) (es fs : List TimedEvent) (b : Bus)
    → run s period (es ++ fs) b ≡ run s period fs (run s period es b)
unfolding run
run-append s period [] fs b = refl
run-append s period (e ∷ es) fs b = run-append s period es fs (step s period e b)

-- The line between two bytes of a transaction.
record Between (b : Bus) : Type 0 where
  held : b.in_transaction ≡ true
  bits_is : b.bits ≡ 0
  acc_is : b.acc ≡ 0

module _ (s : I2cSettings) (period : ℕ) where
  abbrev after_ack : Byte → Bus → Bus
  after_ack y b = record b {
    words = (b.words ++ byte_shown s b.expect_address y ∷ []) ++ ack_word period y ∷ [];
    bits = 0;
    acc = 0;
    byte_start = y.time;
    expect_address = false;
  }

  step-acknowledge :
      (y : Byte) (value start end : ℕ) (u : Bool) (b : Bus)
      → b.in_transaction ≡ true
      → step s period (y.ack_time, sample_event y.ack) (after_byte s start value u end b)
        ≡ record (put (ack_word period y) (after_byte s start value u end b)) {
          bits = 0;
          acc = 0;
          expect_address = false;
        }
  unfolding step on_sample on_acknowledge
  step-acknowledge y value start end u b held = rw held refl

  run_byte :
      (y : Byte) (b : Bus) (rest : List TimedEvent)
      → Between b
      → length y.others ≡ 7
      → run s period (sampled (bits_of y) ++ (y.ack_time, sample_event y.ack) ∷ rest) b
        ≡ run s period rest (after_ack y b)
  unfolding run
  run_byte y b rest i size =
      let holds : Holds 0 0 false b = record {
        held = i.held;
        bits_is = i.bits_is;
        acc_is = i.acc_is;
        small = omega arith;
      } in
      let value = number 0 (bits_of y) in
      let u = ends_invalid (bits_of y) in
      let q = after_byte s y.time value u (end_of y.time y.others) b in
      let starts : begun_at y.time b ≡ y.time = ground (arith, i.bits_is) in
      let bits : run s period (sampled (bits_of y)) b ≡ q =
        run_bits s period 0 0 false y.time y.first y.others b holds (omega arith)
        ∙ rw starts refl in
      run-append s period (sampled (bits_of y)) ((y.ack_time, sample_event y.ack) ∷ rest) b
      ∙ ap (run s period ((y.ack_time, sample_event y.ack) ∷ rest)) bits
      ∙ ap (run s period rest) (step-acknowledge y value y.time (end_of y.time y.others) u b i.held)

  step-stop :
      (t : ℕ) (b : Bus)
      → b.bits ≡ 0
      → (step s period (t, stop_event) b).words
        ≡ b.words ++ token period t (codes "P") data_word ∷ []
  unfolding step on_stop
  step-stop t b e = rw e refl

  Between-after_ack : (y : Byte) (b : Bus) → Between b → Between (after_ack y b)
  Between-after_ack y b i = record { held = i.held; bits_is = refl; acc_is = refl }

  Between-start : (t : ℕ) (b : Bus) → Between (step s period (t, start_event) b)
  unfolding step on_start
  Between-start t b = record { held = refl; bits_is = refl; acc_is = refl }

  run-transfer :
      (ys : List Byte) (t : ℕ) (b : Bus)
      → Between b
      → OfEight ys
      → (run s period (transfer ys ++ (t, stop_event) ∷ []) b).words
        ≡ b.words
          ++ (transfer_words s period b.expect_address ys
              ++ token period t (codes "P") data_word ∷ [])
  unfolding run
  run-transfer [] t b i h = step-stop t b i.bits_is
  run-transfer (y ∷ ys) t b i h =
      let rest = transfer ys ++ (t, stop_event) ∷ [] in
      ap (λ es. (run s period es b).words)
        (append_assoc (sampled (bits_of y)) ((y.ack_time, sample_event y.ack) ∷ transfer ys)
          ((t, stop_event) ∷ []))
      ∙ ap (λ (c : Bus). c.words) (run_byte y b rest i h.0)
      ∙ run-transfer ys t (after_ack y b) (Between-after_ack y b i) h.1
      ∙ append_assoc (b.words ++ byte_shown s b.expect_address y ∷ []) (ack_word period y ∷ []) _
      ∙ append_assoc b.words (byte_shown s b.expect_address y ∷ []) _

-- From any state of the bus, a START, bytes of eight bits with their acknowledges and a STOP put
-- out the token of the START ("Sr" in a transaction), for each byte its word and its acknowledge,
-- and "P". A byte is the number of its bits, most significant first, the first of them in the form
-- of an address; it is shown as "x", as an error, exactly where its last bit is invalid. Any other
-- invalid bit counts as 0.
pub run_transaction :
    (s : I2cSettings) (period t t' : ℕ) (ys : List Byte) (b : Bus)
    → OfEight ys
    → (run s period ((t, start_event) ∷ transfer ys ++ (t', stop_event) ∷ []) b).words
      ≡ b.words
        ++ (token period t (if b.in_transaction then codes "Sr" else codes "S") data_word
              ∷ transfer_words s period true ys
            ++ token period t' (codes "P") data_word ∷ [])
unfolding run step on_start
run_transaction s period t t' ys b h =
    let q = step s period (t, start_event) b in
    run-transfer s period ys t' q (Between-start s period t b) h ∙ append_assoc b.words (_ ∷ []) _
