-- ===== src/Analog/Build.antt =====
-- What `SignalRMQ::new` builds: a row for each level, over the summaries of the blocks.
use native.Mathlib.Nat.{div-add-mod', mod-lt}
use mathlib.Core.Path.{subst}
use kahuna.Common.{
  ℕ, zero, suc, ◌+◌, ◌-◌, ◌*◌, ◌/◌, ◌%◌, ◌≤◌, ◌<◌, ◌≡◌, refl, ap, ◌∙◌, true, List, [], ◌∷◌, some,
  length, map, get_elem?, take, drop, length-map, min, ltb, leb, ◌==◌, ok, chained, unwrap, arith,
  ◌>>=◌, Bool-cases, inl, inr,
}
use kahuna.Analog.{
  Float, MinMax, Checked, SignalRmq, div_ceil, ilog2, slice_of, from_slice, block_summaries,
  levels_from, build_sparse_table, index_signal,
}
use kahuna.Analog.Summaries.{IsFloat, from_slice_lem}
use kahuna.Analog.Parts.{part, part_end}
use kahuna.Analog.Table.{Blocks, Covers, Row, Row-levels_from, part-some, mul-next, mul_mono}

pub Blocks-div_ceil :
    {W : Type 0} (xs : List W) (size : ℕ) → 0 < size → Blocks xs size (div_ceil (length xs) size)
Blocks-div_ceil xs size h =
    let n = length xs in
    let whole = div-add-mod' n size in
    elim (Bool-cases (n % size == 0)) [
      | inl even ↦ rw even (record {
        covered = ground (arith, even, whole);
        started = λ i lt.
            omega (arith, whole, mul-next i size, mul_mono (i + 1) (n / size) size (omega arith));
      })
      | inr more ↦
          let positive_rest : 0 < n % size = ground (arith, more) in
          rw more (record {
            covered = omega (arith, whole, mul-next (n / size) size, mod-lt n h);
            started = λ i lt.
                omega (arith, whole, mul_mono i (n / size) size (omega arith), positive_rest);
          })
    ]

pub slice_of_lem :
    {A : Type 0} (a b : ℕ) (xs : List A)
    → a ≤ b
    → b ≤ length xs
    → slice_of a b xs ≡ ok (take (b - a) (drop a xs))
unfolding slice_of
slice_of_lem a b xs h k = ground arith

module _ {W : Type 0} ⦃f : Float W⦄ (laws : IsFloat W) where
  -- A slice that is not empty has its summary.
  pub from_slice-part :
      (xs : List W) (a b : ℕ) {m : MinMax W}
      → a ≤ b
      → b ≤ length xs
      → part xs a b ≡ some m
      → (slice_of a b xs >>= from_slice) ≡ ok m
  from_slice-part xs a b h k e =
      ap (λ (o : Checked (List W)). o >>= from_slice) (slice_of_lem a b xs h k)
      ∙ from_slice_lem laws (take (b - a) (drop a xs))
      ∙ ap unwrap e

  module _ (xs : List W) (size : ℕ) (positive : 0 < size) (count : ℕ)
      (blocks : Blocks xs size count) where
    block_summaries_lem :
        (left i : ℕ)
        → i + left ≡ count
        → (ms : List (MinMax W)) × (block_summaries size xs left i ≡ ok ms)
          × (length ms ≡ left)
          × Covers laws xs size 0 i ms
    unfolding block_summaries
    block_summaries_lem zero i e = ([], refl, refl, tt)
    block_summaries_lem (suc left) i e =
        let start = blocks.started i (omega arith) in
        let end = min (i * size + size) (length xs) in
        let whole = part-some xs (i * size) end (omega arith) start in
        let rest = block_summaries_lem left (i + 1) (omega arith) in
        let next = mul-next i size in
        let entry_is : part xs (i * size) ((i + 1) * size) ≡ some whole.0 =
          elim (Bool-cases (leb (i * size + size) (length xs))) [
            | inl within ↦
                let z : (i + 1) * size ≡ end = ground (arith, within, next) in rw z whole.1
            | inr past ↦
                part_end laws xs (i * size) ((i + 1) * size) end (ground (arith, past, next))
                  (ground (arith, past)) (omega arith) (omega arith)
                ∙ whole.1
          ] in
        (
          whole.0 ∷ rest.0,
          chained (slice_of (i * size) end xs) from_slice
                (λ summary. block_summaries size xs left (i + 1) >>= λ rest'. ok (summary ∷ rest'))
                (from_slice-part xs (i * size) end (omega arith) (omega arith) whole.1)
              ∙ rw rest.1 refl,
          ap suc rest.2,
          (entry_is, rest.3),
        )

-- An index over the samples, with a row for each level that a query can ask for.
pub record Indexed {W : Type 0} ⦃f : Float W⦄ (laws : IsFloat W) (xs : List W) (size count : ℕ)
    (table : List (List (MinMax W))) : Type 0 where
  pub positive : 0 < size
  pub blocks : Blocks xs size count
  pub rows :
      (k : ℕ)
      → k ≤ ilog2 count
      → (row : List (MinMax W)) × (get_elem? table k ≡ some row) × Row laws xs size count k row

abbrev pub values_of : {W : Type 0} → List (ℕ × W) → List W
values_of {W} = map (λ (s : ℕ × W). s.1)

abbrev pub times_of : {W : Type 0} → List (ℕ × W) → List ℕ
times_of {W} = map (λ (s : ℕ × W). s.0)

some_count :
    {W : Type 0} (xs : List W) (size count : ℕ) → Blocks xs size count → 0 < length xs → 0 < count
some_count xs size zero b h = omega (arith, b.covered)
some_count xs size (suc count) b h = omega arith

-- The index over a signal with the given table.
abbrev pub index_of : {W : Type 0} → List (ℕ × W) → ℕ → List (List (MinMax W)) → SignalRmq W
index_of signal size table = record {
  timestamps = times_of signal;
  samples = values_of signal;
  block_size = size;
  sparse_table = table;
}

module _ {W : Type 0} ⦃f : Float W⦄ (laws : IsFloat W) (signal : List (ℕ × W)) (size : ℕ) where
  abbrev pub count_of : ℕ
  count_of = div_ceil (length (values_of signal)) size

  -- A signal with a sample can be indexed in blocks of any size but 0.
  pub index_signal-Indexed :
      0 < size
      → 0 < length signal
      → (table : List (List (MinMax W))) × (index_signal signal size
          ≡ ok (index_of signal size table))
        × Indexed laws (values_of signal) size count_of table
  unfolding index_signal build_sparse_table
  index_signal-Indexed h k =
      let xs = values_of signal in
      let blocks = Blocks-div_ceil xs size h in
      let made = block_summaries_lem laws xs size h count_of blocks count_of 0 (omega arith) in
      let some_block : 0 < length made.0 = omega (
        arith,
        made.2,
        some_count xs size count_of blocks
            (omega (arith, k, length-map (λ (s : ℕ × W). s.1) signal)),
      ) in
      let positive : ltb 0 size ≡ true = ground arith in
      let nonempty : ltb 0 (length made.0) ≡ true = ground arith in
      (
        levels_from (ilog2 (length made.0)) 0 made.0,
        rw (positive, made.1, nonempty) refl,
        record {
          positive = h;
          blocks = blocks;
          rows = λ j below.
              let z : 0 + j ≡ j = omega arith in
              let r =
                Row-levels_from laws xs size count_of blocks (ilog2 (length made.0)) 0 j made.0
                  (made.2, made.3) (rw made.2 below) in
              (r.0, r.1, subst (λ i. Row laws xs size count_of i r.0) z r.2);
        },
      )
