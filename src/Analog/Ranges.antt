-- ===== src/Analog/Ranges.antt =====
-- Queries by index: the parts that are combined cover the range.
use native.Mathlib.Nat.{div-add-mod', mod-lt}
use kahuna.Common.{
  ℕ, ◌+◌, ◌-◌, ◌*◌, ◌/◌, ◌^◌, ◌≤◌, ◌<◌, ◌≡◌, refl, sym, ap, ◌∙◌, true, false, List, Option, none,
  some, length, get_elem?-some, min, leb, ◌==◌, ok, chained, arith, Bool-cases, inl, inr,
}
use kahuna.Common.Bits.{pow-next}
use kahuna.Analog.{
  Float, MinMax, Checked, SignalRmq, ilog2, slice_of, combine, from_slice, entry, query_blocks,
  with_middle, query_index_range,
}
use kahuna.Analog.Summaries.{IsFloat, joined, joined_comm, joined_assoc}
use kahuna.Analog.Parts.{part, part_split, part_cover}
use kahuna.Analog.Table.{
  Covers-get_elem?, cell, part-some, mul-next, mul_mono, ilog2_bounds, ilog2_mono,
}
use kahuna.Analog.Build.{Indexed, from_slice-part}

module _ {W : Type 0} ⦃f : Float W⦄ (laws : IsFloat W) (q : SignalRmq W) (count : ℕ)
    (index : Indexed laws q.samples q.block_size count q.sparse_table) where
  open q use {samples, block_size}

  -- What a query gives: no panic, and the summary of the part.
  abbrev Gives : Checked (MinMax W) → Option (MinMax W) → Type 0
  Gives run expected = (m : MinMax W) × (run ≡ ok m) × (expected ≡ some m)

  entry_lem :
      (k i : ℕ)
      → k ≤ ilog2 count
      → i < count
      → Gives (entry q k i) (cell laws samples block_size i (i + 2 ^ k))
  entry_lem k i level inside =
      let r = index.rows k level in
      let e = get_elem?-some r.0 i (omega (arith, r.2.0)) in
      let z : 0 + i ≡ i = omega arith in
      (
        e.0,
        rw (r.1, e.1) refl,
        rw z at (Covers-get_elem? laws samples block_size k 0 i r.0 r.2.1 e.1),
      )

  query_blocks_lem :
      (a b : ℕ)
      → 0 < a
      → a ≤ b
      → b < count
      → Gives (query_blocks q a b) (cell laws samples block_size a (b + 1))
  unfolding query_blocks
  query_blocks_lem a b p h inside = elim (Bool-cases (a == b)) [
    | inl same ↦
        let z : b ≡ a = ground (arith, same) in
        let r = entry_lem 0 a (omega arith) (omega arith) in
        (r.0, rw (query_blocks, same) r.1, rw z r.2)
    | inr other ↦
        let n = b - a + 1 in
        let bounds = ilog2_bounds n (omega arith) in
        let level = ilog2_mono n count (omega arith) (omega arith) in
        let jump = 2 ^ ilog2 n in
        let at = b - jump + 1 in
        let fits : leb jump b ≡ true = ground (arith, bounds.0) in
        let z : at + jump ≡ b + 1 = omega (arith, bounds.0) in
        let left = entry_lem (ilog2 n) a level (omega arith) in
        let right =
          entry_lem (ilog2 n) at level (omega (arith, bounds.0, bounds.1, pow-next (ilog2 n))) in
        let cover =
          part_cover laws samples (a * block_size) (at * block_size) ((a + jump) * block_size)
            ((b + 1) * block_size) (mul_mono a at block_size (omega (arith, bounds.0)))
            (mul_mono at (a + jump) block_size
              (omega (arith, bounds.0, bounds.1, pow-next (ilog2 n))))
            (mul_mono (a + jump) (b + 1) block_size (omega (arith, bounds.0))) in
        (
          combine left.0 right.0,
          rw (query_blocks, other, left.1, fits, right.1) refl,
          sym cover ∙ rw (left.2, rw z at right.2) refl,
        )
  ]

  part_empty : (xs : List W) (a : ℕ) → part xs a a ≡ none
  part_empty xs a = let z : a - a ≡ 0 = omega arith in rw z refl

  -- The full blocks from `a` to `b` are taken in, if there is one.
  with_middle_lem :
      (a b : ℕ) (m : MinMax W)
      → 0 < a
      → a ≤ b + 1
      → b < count
      → Gives (with_middle q a b m) (joined (some m) (cell laws samples block_size a (b + 1)))
  unfolding with_middle
  with_middle_lem a b m p h inside = elim (Bool-cases (leb a b)) [
    | inl some_block ↦
        let r = query_blocks_lem a b p (ground (arith, some_block)) inside in
        (combine m r.0, rw (with_middle, some_block, r.1) refl, rw r.2 refl)
    | inr nothing ↦
        let z : b + 1 ≡ a = ground (arith, nothing) in
        (m, rw (with_middle, nothing) refl, rw (z, part_empty samples (a * block_size)) refl)
  ]

  last_third : (u v w : Option (MinMax W)) → joined (joined u w) v ≡ joined u (joined v w)
  last_third u v w = joined_assoc laws u w v ∙ ap (joined u) (joined_comm laws w v)

  -- Two indexes in different blocks stand in order.
  next_block :
      (l r : ℕ)
      → l ≤ r
      → (l / block_size == r / block_size) ≡ false
      → l / block_size + 1 ≤ r / block_size
  next_block l r h other =
      let a = l / block_size in
      let b = r / block_size in
      elim (Bool-cases (leb (a + 1) b)) [
        | inl ordered ↦ ground (arith, ordered)
        | inr back ↦ absurd (
            omega (
              arith,
              div-add-mod' l block_size,
              div-add-mod' r block_size,
              mod-lt r index.positive,
              mul-next b block_size,
              mul_mono (b + 1) a block_size (ground (arith, back, other)),
            ))
      ]

  -- The block in front of that of an index is a block.
  before_end : (r : ℕ) → r < length samples → r / block_size - 1 < count
  before_end r inside = elim (Bool-cases (leb count (r / block_size))) [
    | inl past ↦ absurd (
        omega (
          arith,
          div-add-mod' r block_size,
          index.blocks.covered,
          mul_mono count (r / block_size) block_size (ground (arith, past)),
        ))
    | inr fine ↦ ground (arith, fine)
  ]

  -- A range by index gives the summary of its values.
  pub query_index_range_lem :
      (l r : ℕ)
      → l ≤ r
      → r < length samples
      → Gives (query_index_range q l r) (part samples l (r + 1))
  unfolding query_index_range
  query_index_range_lem l r h inside =
      let a = l / block_size in
      let b = r / block_size in
      let whole = part-some samples l (r + 1) (omega arith) (omega arith) in
      elim (Bool-cases (a == b)) [
        | inl same ↦ (
          whole.0,
          rw (query_index_range, same)
              (from_slice-part laws samples l (r + 1) (omega arith) (omega arith) whole.1),
          whole.1,
        )
        | inr other ↦
            let low = (a + 1) * block_size in
            let high = b * block_size in
            let lower : l < low =
              omega (
                arith,
                div-add-mod' l block_size,
                mod-lt l index.positive,
                mul-next a block_size,
              ) in
            let upper : high ≤ r = omega (arith, div-add-mod' r block_size) in
            let ordered : a + 1 ≤ b = next_block l r h other in
            let steps : low ≤ high = mul_mono (a + 1) b block_size ordered in
            let first_end : min (low - 1) r + 1 ≡ low = omega arith in
            let left = part-some samples l low lower (omega arith) in
            let right = part-some samples high (r + 1) (omega arith) (omega arith) in
            let z : b - 1 + 1 ≡ b = omega arith in
            let middle =
              with_middle_lem (a + 1) (b - 1) (combine left.0 right.0) (omega arith) (omega arith)
                (before_end r inside) in
            (
              middle.0,
              rw (query_index_range, other, first_end)
                  (chained (slice_of l low samples) from_slice _
                      (from_slice-part laws samples l low (omega arith) (omega arith) left.1)
                    ∙ chained (slice_of high (r + 1) samples) from_slice _ (
                        from_slice-part laws samples high (r + 1) (omega arith) (omega arith)
                          right.1)
                    ∙ middle.1),
              part_split laws samples l low (r + 1) (omega arith) (omega arith)
                  ∙ ap (joined (part samples l low))
                      (part_split laws samples low high (r + 1) steps (omega arith))
                  ∙ sym (
                      last_third (part samples l low) (part samples low high)
                        (part samples high (r + 1)))
                  ∙ rw (left.1, right.1) (rw z at middle.2),
            )
      ]
