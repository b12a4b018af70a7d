-- ===== src/Analog.antt =====
-- libsurfer/src/analog_signal_cache.rs: the samples of an analog signal, with the least and the
-- greatest value over any range of time. An `f64` is of any type that has the operations of
-- `Float`; a position, a time and a count are numbers. The assertions of a debug build are left out.
pub mod Summaries
pub mod Parts
pub mod Table
pub mod Build
pub mod Ranges
pub mod Times
pub mod Cache
pub mod Queries
mod Tests
use kahuna.Common.{
  ℕ, zero, suc, ◌+◌, ◌-◌, ◌*◌, ◌/◌, ◌%◌, ◌^◌, Bool, true, false, ◌||◌, ◌&&◌, List, [], ◌∷◌, ◌++◌,
  map, Option, none, some, ltb, leb, ◌==◌, if◌then◌else◌, length, get_elem?, take, drop, min,
  Outcome, ok, err, panic, ◌>>=◌, unwrap, require,
}

-- What the code does with an `f64`.
pub record Float (W : Type 0) : Type 0 where
  pub is_finite : W → Bool
  pub min_of : W → W → W
  pub max_of : W → W → W
  pub infinity : W
  pub neg_infinity : W
  pub nan_undef : W

pub record MinMax (W : Type 0) : Type 0 where
  pub least : W
  pub greatest : W
  pub has_non_finite : Bool

-- What may panic, and has no error.
abbrev pub Checked : Type 0 → Type 0
Checked A = Outcome ⊥ A

pub record SignalRmq (W : Type 0) : Type 0 where
  pub timestamps : List ℕ
  pub samples : List W
  pub block_size : ℕ
  pub sparse_table : List (List (MinMax W))

-- `n.div_ceil(d)`
abbrev pub div_ceil : ℕ → ℕ → ℕ
div_ceil n d = if n % d == 0 then n / d else n / d + 1

-- The number of halvings down to 1. A number is fuel enough for them.
unfoldable pub halvings : ℕ → ℕ → ℕ
halvings zero n = 0
halvings (suc fuel) n = let rest = suc (halvings fuel (n / 2)) in if ltb n 2 then 0 else rest

-- `n.ilog2()`, which panics at 0
unfoldable pub ilog2 : ℕ → ℕ
unfolding halvings
ilog2 n = halvings n n

-- `slice::binary_search` of a slice in increasing order: the place of the element, or the place
-- at which it would be inserted.
pub data Search : Type 0 where
  found missing : ℕ → Search

abbrev pub one_later : Search → Search
one_later (found i) = found (suc i)
one_later (missing i) = missing (suc i)

unfoldable pub binary_search : List ℕ → ℕ → Search
binary_search [] t = missing 0
binary_search (u ∷ us) t =
    let later = one_later (binary_search us t) in
    if ltb u t then later else if u == t then found 0 else missing 0

-- `&xs[start..end]`
unfoldable pub slice_of : {A : Type 0} → ℕ → ℕ → List A → Checked (List A)
slice_of start end xs =
    require (leb start end && leb end (length xs)) (ok (take (end - start) (drop start xs)))

abbrev pub place : Search → ℕ
place (found i) = i
place (missing i) = i

-- The last index at or before the time.
abbrev pub last_index : Search → Option ℕ
last_index (found i) = some i
last_index (missing zero) = none
last_index (missing (suc i)) = some i

module _ {W : Type 0} ⦃f : Float W⦄ where
  -- `MinMax::new`
  unfoldable pub single : W → MinMax W
  single v =
      if f.is_finite v
      then record { least = v; greatest = v; has_non_finite = false }
      else record { least = f.infinity; greatest = f.neg_infinity; has_non_finite = true }

  unfoldable pub combine : MinMax W → MinMax W → MinMax W
  combine a b = record {
    least = f.min_of a.least b.least;
    greatest = f.max_of a.greatest b.greatest;
    has_non_finite = a.has_non_finite || b.has_non_finite;
  }

  abbrev pub fold_onto : MinMax W → List W → MinMax W
  fold_onto acc [] = acc
  fold_onto acc (v ∷ vs) = fold_onto (combine acc (single v)) vs

  unfoldable pub from_slice : List W → Checked (MinMax W)
  from_slice [] = panic
  from_slice (v ∷ vs) = ok (fold_onto (single v) (v ∷ vs))

  -- The summaries of `left` blocks from the block `idx` on.
  unfoldable pub block_summaries : ℕ → List W → ℕ → ℕ → Checked (List (MinMax W))
  unfolding slice_of from_slice
  block_summaries block_size xs zero idx = ok []
  block_summaries block_size xs (suc left) idx = do
    block ← slice_of (idx * block_size) (min (idx * block_size + block_size) (length xs)) xs
    summary ← from_slice block
    rest ← block_summaries block_size xs left (idx + 1)
    ok (summary ∷ rest)

  abbrev pub combine_with : MinMax W → Option (MinMax W) → MinMax W
  combine_with left none = left
  combine_with left (some right) = combine left right

  -- Level by level: each entry is combined with the one `span` behind it.
  unfoldable pub next_level : ℕ → List (MinMax W) → List (MinMax W)
  next_level span [] = []
  next_level span (x ∷ xs) = combine_with x (get_elem? (x ∷ xs) span) ∷ next_level span xs

  -- The last level pushed, and those that are still to be made from it.
  unfoldable pub levels_from : ℕ → ℕ → List (MinMax W) → List (List (MinMax W))
  unfolding next_level
  levels_from zero level prev = prev ∷ []
  levels_from (suc left) level prev =
      prev ∷ levels_from left (level + 1) (next_level (2 ^ level) prev)

  unfoldable pub build_sparse_table : List (MinMax W) → Checked (List (List (MinMax W)))
  unfolding levels_from ilog2
  build_sparse_table summaries =
      require (ltb 0 (length summaries)) (ok (levels_from (ilog2 (length summaries)) 0 summaries))

  -- `SignalRMQ::new`
  unfoldable pub index_signal : List (ℕ × W) → ℕ → Checked (SignalRmq W)
  unfolding block_summaries build_sparse_table
  index_signal signal block_size = do
    let xs = map (λ (s : ℕ × W). s.1) signal
    summaries ←
        require (ltb 0 block_size)
          (block_summaries block_size xs (div_ceil (length xs) block_size) 0)
    table ← build_sparse_table summaries
    ok (record {
      timestamps = map (λ (s : ℕ × W). s.0) signal;
      samples = xs;
      block_size = block_size;
      sparse_table = table;
    })

  -- `self.sparse_table[level][block]`
  abbrev pub entry : SignalRmq W → ℕ → ℕ → Checked (MinMax W)
  entry q level block = do
    row ← unwrap (get_elem? q.sparse_table level)
    unwrap (get_elem? row block)

  -- `r_block - jump + 1` underflows where the jump is longer than the blocks in front.
  unfoldable pub query_blocks : SignalRmq W → ℕ → ℕ → Checked (MinMax W)
  unfolding ilog2
  query_blocks q l_block r_block = if l_block == r_block then entry q 0 l_block else do
    let level = ilog2 (r_block - l_block + 1)
    left ← entry q level l_block
    right ← require (leb (2 ^ level) r_block) (entry q level (r_block - 2 ^ level + 1))
    ok (combine left right)

  -- The end of `query_index_range`: the full blocks between the two partial ones.
  unfoldable pub with_middle : SignalRmq W → ℕ → ℕ → MinMax W → Checked (MinMax W)
  unfolding query_blocks
  with_middle q first last result =
      if leb first last
      then (do middle ← query_blocks q first last; ok (combine result middle))
      else ok result

  unfoldable pub query_index_range : SignalRmq W → ℕ → ℕ → Checked (MinMax W)
  unfolding slice_of from_slice with_middle
  query_index_range q l r =
      let l_block = l / q.block_size in
      let r_block = r / q.block_size in
      if l_block == r_block then (slice_of l (r + 1) q.samples >>= from_slice) else do
        head ← slice_of l (min ((l_block + 1) * q.block_size - 1) r + 1) q.samples
        left ← from_slice head
        tail ← slice_of (r_block * q.block_size) (r + 1) q.samples
        right ← from_slice tail
        with_middle q (l_block + 1) (r_block - 1) (combine left right)

  unfoldable pub query_time_range : SignalRmq W → ℕ → ℕ → Checked (Option (MinMax W))
  unfolding binary_search query_index_range
  query_time_range q t_start t_end =
      if ltb t_end t_start
      then ok none
      else let l = place (binary_search q.timestamps t_start) in
        elim (last_index (binary_search q.timestamps t_end)) [
          | none ↦ ok none
          | some r ↦
              if ltb r l || leb (length q.samples) l
              then ok none
              else do result ← query_index_range q l r; ok (some result)
        ]
