-- ===== src/Analog/Cache.antt =====
-- libsurfer/src/analog_signal_cache.rs: the cache of one signal, its queries, and the entry that
-- it is set in. The changes of a signal and the numbers a translator gives for them are arguments.
use kahuna.Common.{
  ℕ, zero, suc, ◌+◌, Bool, true, false, List, [], ◌∷◌, map, Option, none, some, get_elem?, ok,
  ◌>>=◌, unwrap, if◌then◌else◌,
}
use kahuna.Analog.{
  Float, MinMax, Checked, SignalRmq, Search, found, missing, binary_search, index_signal,
  query_time_range,
}

pub record CacheQueryResult (W : Type 0) : Type 0 where
  pub current : Option (ℕ × W)
  pub next : Option ℕ

-- `timestamps.last()`
abbrev pub last_of : List ℕ → Option ℕ
last_of [] = none
last_of (t ∷ []) = some t
last_of (t ∷ u ∷ us) = last_of (u ∷ us)

abbrev pub both : {A B : Type 0} → Option A → Option B → Option (A × B)
both none b = none
both (some a) none = none
both (some a) (some b) = some (a, b)

module _ {W : Type 0} where
  abbrev pub time_range : SignalRmq W → Option (ℕ × ℕ)
  time_range q = both (get_elem? q.timestamps 0) (last_of q.timestamps)

  abbrev pub pick : Option ℕ → Option W → Option ℕ → Checked (CacheQueryResult W)
  pick indexed_time indexed_value next = do
    time ← unwrap indexed_time
    value ← unwrap indexed_value
    ok (record { current = some (time, value); next = next })

  -- The sample at an index, and the time of the one behind it.
  abbrev pub sample_at : SignalRmq W → ℕ → Checked (CacheQueryResult W)
  sample_at q i =
      pick (get_elem? q.timestamps i) (get_elem? q.samples i) (get_elem? q.timestamps (i + 1))

  abbrev pub at_search : SignalRmq W → Search → Checked (CacheQueryResult W)
  at_search q (found i) = sample_at q i
  at_search q (missing zero) = ok (record { current = none; next = get_elem? q.timestamps 0 })
  at_search q (missing (suc i)) = sample_at q i

  -- `SignalRMQ::query_at_time`
  unfoldable pub query_at_time : SignalRmq W → ℕ → Checked (CacheQueryResult W)
  unfolding binary_search
  query_at_time q time = at_search q (binary_search q.timestamps time)

pub record AnalogSignalCache (W : Type 0) : Type 0 where
  pub rmq : SignalRmq W
  pub global_min : W
  pub global_max : W
  pub max_timestamp : ℕ

-- `x.unwrap_or(y)`
abbrev pub unwrap_or : {A : Type 0} → A → Option A → A
unwrap_or y none = y
unwrap_or y (some x) = x

module _ {W : Type 0} ⦃f : Float W⦄ where
  abbrev pub with_extremes : SignalRmq W → ℕ → Option (MinMax W) → Option (AnalogSignalCache W)
  with_extremes q max_timestamp none = none
  with_extremes q max_timestamp (some m) = some (record {
    rmq = q;
    global_min = m.least;
    global_max = m.greatest;
    max_timestamp = max_timestamp;
  })

  -- What is kept of the index, by its first and last time.
  abbrev pub summarized : SignalRmq W → ℕ → Checked (Option (AnalogSignalCache W))
  summarized q max_timestamp = elim (time_range q) [
    | none ↦ ok none
    | some range ↦ do
      global ← query_time_range q range.0 range.1
      ok (with_extremes q max_timestamp global)
  ]

  -- `AnalogSignalCache::build`, where `nan` is `f64::NAN`
  unfoldable pub build :
      {V : Type 0}
      → W
      → (V → Option W)
      → List (ℕ × V)
      → ℕ
      → Option ℕ
      → Checked (Option (AnalogSignalCache W))
  unfolding index_signal query_time_range
  build nan translate_numeric [] max_timestamp block_size = ok none
  build nan translate_numeric (c ∷ changes) max_timestamp block_size = do
    q ←
        index_signal
          (map (λ change. (change.0, unwrap_or nan (translate_numeric change.1))) (c ∷ changes))
          (unwrap_or 64 block_size)
    summarized q max_timestamp

  -- `AnalogSignalCache::query_time_range`: a value that is not finite shows in the upper bound.
  abbrev pub bounds_of : Option (MinMax W) → Option (W × W)
  bounds_of none = none
  bounds_of (some m) =
      if m.has_non_finite then some (m.least, f.nan_undef) else some (m.least, m.greatest)

  unfoldable pub query_bounds : AnalogSignalCache W → ℕ → ℕ → Checked (Option (W × W))
  unfolding query_time_range
  query_bounds cache start end = do
    result ← query_time_range cache.rmq start end
    ok (bounds_of result)

-- The `OnceLock` of an entry keeps the first cache that is set.
pub record AnalogCacheEntry (W K : Type 0) : Type 0 where
  pub inner : Option (AnalogSignalCache W)
  pub cache_key : K
  pub generation : ℕ

module _ {W K : Type 0} where
  abbrev pub new_entry : K → ℕ → AnalogCacheEntry W K
  new_entry key generation = record { inner = none; cache_key = key; generation = generation }

  abbrev pub is_ready : AnalogCacheEntry W K → Bool
  is_ready e = elim e.inner [ none ↦ false | some cache ↦ true ]

  abbrev pub set_cache : AnalogSignalCache W → AnalogCacheEntry W K → AnalogCacheEntry W K
  set_cache cache e = record {
    inner = elim e.inner [ none ↦ some cache | some kept ↦ some kept ];
    cache_key = e.cache_key;
    generation = e.generation;
  }
