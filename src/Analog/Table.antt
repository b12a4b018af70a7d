-- ===== src/Analog/Table.antt =====
-- The sparse table: the entry for block `i` on level `k` is about `2 ^ k` blocks from `i` on.
use native.Mathlib.Nat.{pow-suc}
use kahuna.Common.{
  ℕ, zero, suc, ◌+◌, ◌-◌, ◌*◌, ◌/◌, ◌^◌, ◌≤◌, ◌<◌, ◌≡◌, refl, ap, ◌∙◌, List, [], ◌∷◌, Option, none,
  some, length, get_elem?, get_elem?-none-length, take, drop, length-drop, ltb, leb, arith,
  Option-cases, Bool-cases, inl, inr,
}
use kahuna.Common.Bits.{pow-le, pow-next}
use kahuna.Analog.{Float, MinMax, halvings, ilog2, single, combine_with, next_level, levels_from}
use kahuna.Analog.Summaries.{IsFloat, joined, summary}
use kahuna.Analog.Parts.{part, part_split, part_end}

halvings_bounds :
    (fuel n : ℕ) → n ≤ fuel → 0 < n → (2 ^ halvings fuel n ≤ n) × (n < 2 ^ (halvings fuel n + 1))
unfolding halvings
halvings_bounds zero n h p = absurd (omega arith)
halvings_bounds (suc fuel) n h p = elim (Bool-cases (ltb n 2)) [
  | inl small ↦ rw small (ground arith)
  | inr more ↦
      let half = halvings_bounds fuel (n / 2) (ground arith) (ground arith) in
      rw more (
        omega (
          arith,
          half.0,
          half.1,
          pow-suc 2 (halvings fuel (n / 2)),
          pow-next (halvings fuel (n / 2)),
          pow-next (suc (halvings fuel (n / 2))),
        ))
]

pub ilog2_bounds : (n : ℕ) → 0 < n → (2 ^ ilog2 n ≤ n) × (n < 2 ^ (ilog2 n + 1))
unfolding ilog2
ilog2_bounds n p = halvings_bounds n n (omega arith) p

pub ilog2_mono : (m n : ℕ) → 0 < m → m ≤ n → ilog2 m ≤ ilog2 n
ilog2_mono m n p h = elim (Bool-cases (leb (ilog2 n + 1) (ilog2 m))) [
  | inl above ↦ absurd (
      omega (
        arith,
        (ilog2_bounds m p).0,
        (ilog2_bounds n (omega arith)).1,
        pow-le (ilog2 n + 1) (ilog2 m) (ground arith),
      ))
  | inr fine ↦ ground arith
]

pub mul-next : (i k : ℕ) → (i + 1) * k ≡ i * k + k
mul-next i k = grind arith

pub mul_mono : (i j k : ℕ) → i ≤ j → i * k ≤ j * k
mul_mono i j k h = grind arith

module _ {W : Type 0} ⦃f : Float W⦄ where
  joined-some :
      (a : MinMax W) (b : Option (MinMax W)) → (m : MinMax W) × (joined (some a) b ≡ some m)
  joined-some a none = (a, refl)
  joined-some a (some b) = (_, refl)

  pub summary-some : (xs : List W) → 0 < length xs → (m : MinMax W) × (summary xs ≡ some m)
  summary-some [] h = absurd (omega arith)
  summary-some (x ∷ xs) h = joined-some (single x) (summary xs)

  take_pos : (n : ℕ) (ys : List W) → 0 < n → 0 < length ys → 0 < length (take n ys)
  take_pos zero ys h k = absurd (omega arith)
  take_pos (suc n) [] h k = absurd (omega arith)
  take_pos (suc n) (y ∷ ys) h k = omega arith

  pub part-some :
      (xs : List W) (a b : ℕ) → a < b → a < length xs → (m : MinMax W) × (part xs a b ≡ some m)
  part-some xs a b h k =
      summary-some (take (b - a) (drop a xs))
        (take_pos (b - a) (drop a xs) (omega arith) (omega (arith, length-drop a xs)))

-- A list in blocks of `size` values: `count` blocks reach its end, and each one has a value.
pub record Blocks {W : Type 0} (xs : List W) (size count : ℕ) : Type 0 where
  pub covered : length xs ≤ count * size
  pub started : (i : ℕ) → i < count → i * size < length xs

module _ {W : Type 0} ⦃f : Float W⦄ (laws : IsFloat W) (xs : List W) (size : ℕ) where
  -- The values of the blocks from `i` up to, without it, block `j`
  abbrev pub cell : ℕ → ℕ → Option (MinMax W)
  cell i j = part xs (i * size) (j * size)

  -- The entries are about `2 ^ k` blocks each, the first from block `i` on.
  abbrev pub Covers : ℕ → ℕ → List (MinMax W) → Type 0
  Covers k i [] = Unit
  Covers k i (m ∷ ms) = (cell i (i + 2 ^ k) ≡ some m) × Covers k (i + 1) ms

  pub Covers-get_elem? :
      (k i j : ℕ) (ms : List (MinMax W)) {m : MinMax W}
      → Covers k i ms
      → get_elem? ms j ≡ some m
      → cell (i + j) (i + j + 2 ^ k) ≡ some m
  Covers-get_elem? k i j [] c e = cc
  Covers-get_elem? k i zero (m ∷ ms) c e = let z : i + 0 ≡ i = omega arith in rw z (c.0 ∙ e)
  Covers-get_elem? k i (suc j) (m ∷ ms) c e =
      let z : i + suc j ≡ i + 1 + j = omega arith in rw z (Covers-get_elem? k (i + 1) j ms c.1 e)

  module _ (count : ℕ) (blocks : Blocks xs size count) where
    past_end : (i : ℕ) → count ≤ i → length xs ≤ i * size
    past_end i h = omega (arith, blocks.covered, mul_mono count i size h)

    -- One entry of the next level.
    combined :
        (k i : ℕ) (ms : List (MinMax W)) (m : MinMax W)
        → Covers k i (m ∷ ms)
        → i + length (m ∷ ms) ≡ count
        → cell i (i + 2 ^ (k + 1)) ≡ some (combine_with m (get_elem? (m ∷ ms) (2 ^ k)))
    combined k i ms m c size_is =
        let twice : i + 2 ^ (k + 1) ≡ i + 2 ^ k + 2 ^ k = omega (arith, pow-next k) in
        let first = mul_mono i (i + 2 ^ k) size (omega arith) in
        let second = mul_mono (i + 2 ^ k) (i + 2 ^ k + 2 ^ k) size (omega arith) in
        rw twice (elim (Option-cases (get_elem? (m ∷ ms) (2 ^ k))) [
          | inr (r, e) ↦
              part_split laws xs (i * size) ((i + 2 ^ k) * size) ((i + 2 ^ k + 2 ^ k) * size) first
                second
              ∙ rw (e, c.0, Covers-get_elem? k i (2 ^ k) (m ∷ ms) c e) refl
          | inl e ↦
              let past =
                past_end (i + 2 ^ k) (omega (arith, get_elem?-none-length (m ∷ ms) (2 ^ k) e)) in
              rw e (
                part_end laws xs (i * size) ((i + 2 ^ k + 2 ^ k) * size) ((i + 2 ^ k) * size)
                  (omega arith) past (omega arith) first
                ∙ c.0)
        ])

    pub Covers-next_level :
        (k i : ℕ) (ms : List (MinMax W))
        → Covers k i ms
        → i + length ms ≡ count
        → Covers (k + 1) i (next_level (2 ^ k) ms)
    unfolding next_level
    Covers-next_level k i [] c size_is = tt
    Covers-next_level k i (m ∷ ms) c size_is =
        (combined k i ms m c size_is, Covers-next_level k (i + 1) ms c.1 (omega arith))

  length-next_level : (span : ℕ) (ms : List (MinMax W)) → length (next_level span ms) ≡ length ms
  unfolding next_level
  length-next_level span [] = refl
  length-next_level span (m ∷ ms) = ap suc (length-next_level span ms)

  -- A row of the table, with an entry for each block.
  abbrev pub Row : ℕ → ℕ → List (MinMax W) → Type 0
  Row count k row = (length row ≡ count) × Covers k 0 row

  -- Every level up to the last one has its row.
  pub Row-levels_from :
      (count : ℕ) (blocks : Blocks xs size count) (left k j : ℕ) (prev : List (MinMax W))
      → Row count k prev
      → j ≤ left
      → (row : List (MinMax W)) × (get_elem? (levels_from left k prev) j ≡ some row)
        × Row count (k + j) row
  unfolding levels_from
  Row-levels_from count blocks zero k zero prev r h =
      let z : k + 0 ≡ k = omega arith in (prev, refl, rw z r)
  Row-levels_from count blocks zero k (suc j) prev r h = absurd (omega arith)
  Row-levels_from count blocks (suc left) k zero prev r h =
      let z : k + 0 ≡ k = omega arith in (prev, refl, rw z r)
  Row-levels_from count blocks (suc left) k (suc j) prev r h =
      let next = Covers-next_level count blocks k 0 prev r.1 (omega (arith, r.0)) in
      let deeper =
        Row-levels_from count blocks left (k + 1) j (next_level (2 ^ k) prev)
          (length-next_level (2 ^ k) prev ∙ r.0, next) (omega arith) in
      let z : k + 1 + j ≡ k + suc j = omega arith in (deeper.0, deeper.1, rw (← z) deeper.2)
