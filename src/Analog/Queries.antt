-- ===== src/Analog/Queries.antt =====
-- The cache of a signal: that it is built, and what its queries by time return.
use kahuna.Common.{
  ℕ, zero, suc, ◌+◌, ◌<◌, ◌≡◌, refl, ap, true, false, List, [], ◌∷◌, Option, none, some, length,
  map, get_elem?, ltb, leb, ◌==◌, if◌then◌else◌, ok, ok-injective, ◌>>=◌, arith, Bool-cases, inl,
  inr,
}
use kahuna.Analog.{
  Float, MinMax, SignalRmq, Search, found, missing, one_later, binary_search, index_signal,
  query_time_range,
}
use kahuna.Analog.Summaries.{IsFloat, summary}
use kahuna.Analog.Build.{values_of, times_of, index_of, count_of, index_signal-Indexed}
use kahuna.Analog.Times.{Rising, values_within, query_time_range-index}
use kahuna.Analog.Cache.{
  CacheQueryResult, AnalogSignalCache, pick, sample_at, at_search, query_at_time, unwrap_or,
  bounds_of, query_bounds,
}

abbrev pub or_else : {A : Type 0} → Option A → Option A → Option A
or_else none b = b
or_else (some a) b = some a

module _ {W : Type 0} where
  -- The last sample that is not after the time, and the time of the first that is.
  abbrev pub latest : ℕ → List (ℕ × W) → Option (ℕ × W)
  latest t [] = none
  latest t (s ∷ rest) = or_else (latest t rest) (if leb s.0 t then some s else none)

  abbrev pub first_after : ℕ → List (ℕ × W) → Option ℕ
  first_after t [] = none
  first_after t (s ∷ rest) = if ltb t s.0 then some s.0 else first_after t rest

  abbrev pub state_at : ℕ → List (ℕ × W) → CacheQueryResult W
  state_at t signal = record { current = latest t signal; next = first_after t signal }

  latest_low :
      (t low : ℕ) (signal : List (ℕ × W))
      → t < low
      → Rising low (times_of signal)
      → latest t signal ≡ none
  latest_low t low [] h r = refl
  latest_low t low (s ∷ rest) h r =
      let late : leb s.0 t ≡ false = ground (arith, r.0) in
      rw (late, latest_low t (s.0 + 1) rest (omega (arith, r.0)) r.1) refl

  first_after_low :
      (t low : ℕ) (signal : List (ℕ × W))
      → t < low
      → Rising low (times_of signal)
      → first_after t signal ≡ get_elem? (times_of signal) 0
  first_after_low t low [] h r = refl
  first_after_low t low (s ∷ rest) h r =
      let late : ltb t s.0 ≡ true = ground (arith, r.0) in rw late refl

  -- What the search in the rest finds, seen from one sample earlier.
  abbrev behind : ℕ × W → CacheQueryResult W → CacheQueryResult W
  behind s c = record { current = or_else c.current (some s); next = c.next }

  -- A sample that is found stays the latest.
  picked :
      (s : ℕ × W) (time : Option ℕ) (value : Option W) (next : Option ℕ) (c : CacheQueryResult W)
      → pick time value next ≡ ok c
      → pick time value next ≡ ok (behind s c)
  picked s none value next c e = cc
  picked s (some t) none next c e = cc
  picked s (some t) (some v) next c e =
      ap (λ (d : CacheQueryResult W). ok (behind s d)) (ok-injective e)

module _ {W : Type 0} (size : ℕ) (table : List (List (MinMax W))) where
  abbrev over : List (ℕ × W) → SignalRmq W
  over signal = index_of signal size table

  sample_at-later :
      (i : ℕ) (s : ℕ × W) (rest : List (ℕ × W)) (c : CacheQueryResult W)
      → sample_at (over rest) i ≡ ok c
      → sample_at (over (s ∷ rest)) (suc i) ≡ ok (behind s c)
  sample_at-later i s rest c e =
      let z : suc i + 1 ≡ suc (i + 1) = omega arith in
      rw z (
        picked s (get_elem? (times_of rest) i) (get_elem? (values_of rest) i)
          (get_elem? (times_of rest) (i + 1)) c e)

  at_search-later :
      (k : Search) (s : ℕ × W) (rest : List (ℕ × W)) (c : CacheQueryResult W)
      → at_search (over rest) k ≡ ok c
      → at_search (over (s ∷ rest)) (one_later k) ≡ ok (behind s c)
  at_search-later (found i) s rest c e = sample_at-later i s rest c e
  at_search-later (missing zero) s rest c e =
      ap (λ (d : CacheQueryResult W). ok (behind s d)) (ok-injective e)
  at_search-later (missing (suc i)) s rest c e = sample_at-later i s rest c e

  at_search_lem :
      (t low : ℕ) (signal : List (ℕ × W))
      → Rising low (times_of signal)
      → at_search (over signal) (binary_search (times_of signal) t) ≡ ok (state_at t signal)
  unfolding binary_search
  at_search_lem t low [] r = refl
  at_search_lem t low (s ∷ rest) r = elim (Bool-cases (ltb s.0 t)) [
    | inl early ↦
        let upper : leb s.0 t ≡ true = ground (arith, early) in
        let passed : ltb t s.0 ≡ false = ground (arith, early) in
        rw (early, upper, passed)
          (at_search-later (binary_search (times_of rest) t) s rest (state_at t rest)
            (at_search_lem t (s.0 + 1) rest r.1))
    | inr late ↦ elim (Bool-cases (s.0 == t)) [
      | inl here ↦
          let upper : leb s.0 t ≡ true = ground (arith, here) in
          let same : ltb t s.0 ≡ false = ground (arith, here) in
          let z : t < s.0 + 1 = ground (arith, here) in
          rw
            (
              late,
              here,
              upper,
              same,
              latest_low t (s.0 + 1) rest z r.1,
              first_after_low t (s.0 + 1) rest z r.1,
            )
            refl
      | inr past ↦
          let upper : leb s.0 t ≡ false = ground (arith, late, past) in
          let after : ltb t s.0 ≡ true = ground (arith, late, past) in
          rw
            (late, past, upper, after, latest_low t (s.0 + 1) rest (ground (arith, late, past)) r.1)
            refl
    ]
  ]

-- The numbers that a translator gives for the changes of a signal; not a number where it fails.
abbrev pub numbers : {W V : Type 0} → W → (V → Option W) → List (ℕ × V) → List (ℕ × W)
numbers {W} {V} nan translate_numeric =
    map (λ (change : ℕ × V). (change.0, unwrap_or nan (translate_numeric change.1)))

module _ {W : Type 0} ⦃f : Float W⦄ (laws : IsFloat W) (signal : List (ℕ × W)) (size : ℕ)
    (positive : 0 < size) (nonempty : 0 < length signal) (rising : Rising 0 (times_of signal)) where
  -- The least and the greatest value that the index over a signal gives for a range of times, its
  -- ends included, are those of a walk over all samples; there is no panic, and none for a range
  -- without a sample. The laws are those of `f64::min` and `f64::max`, the signal has a sample, its
  -- times increase, and a block is not of size 0.
  pub query_time_range-index_signal :
      (start end : ℕ)
      → (index_signal signal size >>= λ q. query_time_range q start end)
        ≡ ok (summary (values_within start end signal))
  query_time_range-index_signal start end =
      let made = index_signal-Indexed laws signal size positive nonempty in
      rw made.1 (
        query_time_range-index laws signal size (count_of laws signal size) made.0 made.2 rising
          start end)

  -- The index over a signal gives for a time the last sample that is not after it and the time of
  -- the first that is, without a panic. The signal has a sample, its times increase, and a block
  -- is not of size 0.
  pub query_at_time-index_signal :
      (t : ℕ) → (index_signal signal size >>= λ q. query_at_time q t) ≡ ok (state_at t signal)
  unfolding query_at_time
  query_at_time-index_signal t =
      let made = index_signal-Indexed laws signal size positive nonempty in
      rw made.1 (at_search_lem size made.0 t 0 signal rising)

module _ {W : Type 0} ⦃f : Float W⦄ where
  -- What a cache over a signal is: the extremes of all samples, and the answers to both queries.
  pub record IsCache (signal : List (ℕ × W)) (max_timestamp : ℕ) (cache : AnalogSignalCache W)
      : Type 0 where
    pub extremes :
        (m : MinMax W) × (summary (values_of signal) ≡ some m)
        × (cache.global_min ≡ m.least)
        × (cache.global_max ≡ m.greatest)
    pub ranges :
        (start end : ℕ)
        → query_bounds cache start end ≡ ok (bounds_of (summary (values_within start end signal)))
    pub states : (t : ℕ) → query_at_time cache.rmq t ≡ ok (state_at t signal)
    pub kept : cache.max_timestamp ≡ max_timestamp
