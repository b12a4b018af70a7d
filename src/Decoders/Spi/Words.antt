-- ===== src/Decoders/Spi/Words.antt =====
-- The rounds of `decode_one` with the chip selected, and the whole loop.
use kahuna.Common.{
  ℕ, suc, ◌≤◌, ◌<◌, ◌≡◌, refl, ap, ◌∙◌, true, false, List, [], ◌∷◌, ◌++◌, Option, none, some, ◌==◌,
  length, length-append, append_assoc, arith, Bool-cases, inl, inr,
}
use kahuna.Decoders.{Bit, one, BitLane, value_at, DecodedWord, BitOrder}
use kahuna.Decoders.Spi.{
  SpiSettings, Progress, start, cut_off, take_bit, full_word, sample, step, run, finish, last_or,
  decode_one, stretch, selected_at,
}
use kahuna.Decoders.Spi.Groups.{
  Samples, all_clean, first_time, group_word, cut_group, observe, groups,
}
use kahuna.Decoders.Spi.Refine.{
  Stands, Begun, counted, Stands-counted, Stands-nil, ended, ended-cut_group, idle, idle-Stands,
  words-idle,
}

cut_off-true : (word_size t : ℕ) (p : Progress) → cut_off word_size t true p ≡ p
unfolding cut_off
cut_off-true word_size t p = ground arith

abbrev ready : Progress → Progress
ready p = record p { was_selected = true }

ready-Stands :
    (order : BitOrder) (bits : Samples) (p : Progress)
    → Stands order bits p
    → Stands order bits (ready p)
ready-Stands order [] p i = record {
  count_is = i.count_is;
  begun = tt;
  invalid_is = i.invalid_is;
  acc_is = i.acc_is;
  acc_lt = i.acc_lt;
}
ready-Stands order ((u, b) ∷ bits) p i = record {
  count_is = i.count_is;
  begun = (i.begun.0, refl);
  invalid_is = i.invalid_is;
  acc_is = i.acc_is;
  acc_lt = i.acc_lt;
}

words-counted :
    (s : SpiSettings) (t : ℕ) (b : Option Bit) (p : Progress) → (counted s t b p).words ≡ p.words
unfolding take_bit
words-counted s t none p = refl
words-counted s t (some one) p = refl
words-counted s t (some Bit.zero) p = refl
words-counted s t (some _) p = refl

Begun-first_time :
    (bits : Samples) (t : ℕ) (b : Option Bit) (p : Progress)
    → Begun (bits ++ (t, b) ∷ []) p
    → p.word_start ≡ first_time t (bits ++ (t, b) ∷ [])
Begun-first_time [] t b p h = h.0
Begun-first_time ((u, a) ∷ bits) t b p h = h.0

module _ (s : SpiSettings) (word_size : ℕ) where
  full_word-group_word :
      (bits : Samples) (t : ℕ) (b : Option Bit) (p : Progress)
      → Stands s.bit_order (bits ++ (t, b) ∷ []) p
      → full_word s word_size t p ≡ group_word s word_size t (bits ++ (t, b) ∷ [])
  unfolding full_word
  full_word-group_word bits t b p i = elim (Bool-cases (all_clean (bits ++ (t, b) ∷ []))) [
    | inl clean ↦
        ground (arith, clean, i.invalid_is, i.acc_is clean, Begun-first_time bits t b p i.begun)
    | inr dirty ↦ ground (arith, dirty, i.invalid_is, Begun-first_time bits t b p i.begun)
  ]

  -- A full group is put out, and a new one begins.
  abbrev emitted : ℕ → Progress → Progress
  emitted t p = record p {
    words = p.words ++ full_word s word_size t p ∷ [];
    acc = 0;
    count = 0;
    invalid = false;
  }

  sample_full :
      (t : ℕ) (b : Option Bit) (p : Progress)
      → ((counted s t b p).count == word_size) ≡ true
      → sample s word_size t b p ≡ emitted t (counted s t b p)
  unfolding sample
  sample_full t b p e = rw e

  sample_more :
      (t : ℕ) (b : Option Bit) (p : Progress)
      → ((counted s t b p).count == word_size) ≡ false
      → sample s word_size t b p ≡ counted s t b p
  unfolding sample
  sample_more t b p e = rw e

  module _ (lane : BitLane) (select : Option BitLane) where
    step-idle :
        (t : ℕ) (p : Progress)
        → selected_at s select t ≡ false
        → step s word_size lane select t p ≡ idle s.bit_order word_size t p
    unfolding step
    step-idle t p e = rw e

    step-sample :
        (t : ℕ) (p : Progress)
        → selected_at s select t ≡ true
        → step s word_size lane select t p ≡ sample s word_size t (value_at lane t) (ready p)
    unfolding step
    step-sample t p e = rw (e, cut_off-true word_size t p)

    -- From a group in progress the loop goes on to put out what the groups have.
    run-groups :
        (last : ℕ) (ts : List ℕ) (bits : Samples) (p : Progress)
        → Stands s.bit_order bits p
        → length bits < word_size
        → word_size ≤ 64
        → ended word_size last (run s word_size lane select ts p)
          ≡ p.words ++ groups s word_size last bits (observe s lane select ts)
    unfolding run groups
    run-groups last [] bits p i h w = ended-cut_group s.bit_order word_size last bits p i
    run-groups last (t ∷ ts) bits p i h w =
        let after : Progress → List DecodedWord =
          λ q. ended word_size last (run s word_size lane select ts q) in
        elim (Bool-cases (selected_at s select t)) [
          | inl on ↦
              let b = value_at lane t in
              let q : Progress = counted s t b (ready p) in
              let longer = bits ++ (t, b) ∷ [] in
              let i' : Stands s.bit_order longer q =
                Stands-counted s bits (ready p) t b (ready-Stands s.bit_order bits p i) refl
                  (omega arith) in
              let size : length longer ≡ suc (length bits) =
                omega (arith, length-append bits ((t, b) ∷ [])) in
              elim (Bool-cases (length longer == word_size)) [
                | inl full ↦
                    rw (on, full)
                      (ap after
                          (step-sample t p on ∙ sample_full t b (ready p) (rw i'.count_is full))
                        ∙ run-groups last ts [] (emitted t q)
                            (Stands-nil s.bit_order _ refl refl refl) (omega arith) w
                        ∙ rw (full_word-group_word bits t b q i', words-counted s t b (ready p))
                            (append_assoc p.words (group_word s word_size t longer ∷ []) _))
                | inr more ↦
                    rw (on, more)
                      (ap after
                          (step-sample t p on ∙ sample_more t b (ready p) (rw i'.count_is more))
                        ∙ run-groups last ts longer q i' (ground (arith, more, size)) w
                        ∙ rw (words-counted s t b (ready p)))
              ]
          | inr off ↦ rw off (
              ap after (step-idle t p off)
              ∙ run-groups last ts [] (idle s.bit_order word_size t p)
                  (idle-Stands s.bit_order word_size t bits p i) (omega arith) w
              ∙ ap (λ ws. ws ++ groups s word_size last [] (observe s lane select ts))
                  (words-idle s.bit_order word_size t bits p i)
              ∙ append_assoc p.words (cut_group word_size t bits) _)
        ]

-- `decode_one` groups the samples of the selected edges: each full group is read as a number in
-- the bit order of the settings, or shown as "x" if a bit of it is not clean, and a group that is
-- cut by the chip select or by the end of the trace is an error word.
pub decode_one-groups :
    (s : SpiSettings) (lane : BitLane) (select : Option BitLane) (times : List ℕ) (word_size : ℕ)
    → 0 < word_size
    → word_size ≤ 64
    → decode_one s lane select times word_size
      ≡ stretch (groups s word_size (last_or times 0) [] (observe s lane select times))
unfolding decode_one finish run groups
decode_one-groups s lane select [] word_size h w = refl
decode_one-groups s lane select (t ∷ ts) word_size h w = ap stretch (
    run-groups s word_size lane select (last_or ts t) (t ∷ ts) [] start
      (Stands-nil s.bit_order start refl refl refl) h w)
