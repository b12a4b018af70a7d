-- ===== src/Analog/Times.antt =====
-- Queries by time: the samples that the two searches find are those within the range.
use kahuna.Common.{
  ℕ, zero, suc, ◌+◌, ◌-◌, ◌≤◌, ◌<◌, ◌≡◌, refl, sym, ap, ◌∙◌, true, false, ◌&&◌, ◌||◌, List, [], ◌∷◌,
  Option, none, some, length, length-map, take, drop, ltb, leb, ◌==◌, if◌then◌else◌, ok, arith,
  Bool-cases, inl, inr,
}
use kahuna.Analog.{
  Float, MinMax, SignalRmq, Search, found, missing, place, last_index, one_later, binary_search,
  query_time_range,
}
use kahuna.Analog.Summaries.{IsFloat, summary}
use kahuna.Analog.Parts.{part, take_nil, drop_all}
use kahuna.Analog.Build.{Indexed, values_of, times_of, index_of}
use kahuna.Analog.Ranges.{query_index_range_lem}

-- The times are in strictly increasing order, the first not below the bound.
abbrev pub Rising : ℕ → List ℕ → Type 0
Rising low [] = Unit
Rising low (t ∷ ts) = (low ≤ t) × Rising (t + 1) ts

-- How many of the first times are before a time, and how many are not after it.
abbrev pub before : ℕ → List ℕ → ℕ
before t [] = 0
before t (u ∷ us) = let rest = suc (before t us) in if ltb u t then rest else 0

abbrev pub up_to : ℕ → List ℕ → ℕ
up_to t [] = 0
up_to t (u ∷ us) = let rest = suc (up_to t us) in if leb u t then rest else 0

abbrev pub last_of_first : ℕ → Option ℕ
last_of_first zero = none
last_of_first (suc n) = some n

up_to_low : (t low : ℕ) (us : List ℕ) → t < low → Rising low us → up_to t us ≡ 0
up_to_low t low [] h r = refl
up_to_low t low (u ∷ us) h r = let late : leb u t ≡ false = ground (arith, r.0) in rw late refl

before_low : (t low : ℕ) (us : List ℕ) → t ≤ low → Rising low us → before t us ≡ 0
before_low t low [] h r = refl
before_low t low (u ∷ us) h r = let late : ltb u t ≡ false = ground (arith, r.0) in rw late refl

place_later : (s : Search) → place (one_later s) ≡ suc (place s)
place_later (found i) = refl
place_later (missing i) = refl

last_later :
    (s : Search) (n : ℕ) → last_index s ≡ last_of_first n → last_index (one_later s) ≡ some n
last_later (found i) zero e = cc
last_later (found i) (suc n) e = cc
last_later (missing zero) zero e = refl
last_later (missing zero) (suc n) e = cc
last_later (missing (suc i)) zero e = cc
last_later (missing (suc i)) (suc n) e = cc

pub place-binary_search : (us : List ℕ) (t : ℕ) → place (binary_search us t) ≡ before t us
unfolding binary_search
place-binary_search [] t = refl
place-binary_search (u ∷ us) t = elim (Bool-cases (ltb u t)) [
  | inl early ↦ rw early (place_later (binary_search us t) ∙ ap suc (place-binary_search us t))
  | inr late ↦ elim (Bool-cases (u == t)) [
    | inl here ↦ rw (late, here) refl
    | inr past ↦ rw (late, past) refl
  ]
]

pub last_index-binary_search :
    (us : List ℕ) (low t : ℕ)
    → Rising low us
    → last_index (binary_search us t) ≡ last_of_first (up_to t us)
unfolding binary_search
last_index-binary_search [] low t r = refl
last_index-binary_search (u ∷ us) low t r = elim (Bool-cases (ltb u t)) [
  | inl early ↦
      let upper : leb u t ≡ true = ground (arith, early) in
      rw (early, upper)
        (last_later (binary_search us t) (up_to t us) (last_index-binary_search us (u + 1) t r.1))
  | inr late ↦ elim (Bool-cases (u == t)) [
    | inl here ↦
        let upper : leb u t ≡ true = ground (arith, here) in
        rw (late, here, upper, up_to_low t (u + 1) us (ground (arith, here)) r.1) refl
    | inr past ↦
        let upper : leb u t ≡ false = ground (arith, late, past) in rw (late, past, upper) refl
  ]
]

-- The values of the samples whose time is within a range, its ends included.
abbrev pub values_within : {W : Type 0} → ℕ → ℕ → List (ℕ × W) → List W
values_within start end [] = []
values_within start end (s ∷ rest) =
    if leb start s.0 && leb s.0 end
    then s.1 ∷ values_within start end rest
    else values_within start end rest

module _ {W : Type 0} (start end : ℕ) where
  within_late :
      (low : ℕ) (signal : List (ℕ × W))
      → end < low
      → Rising low (times_of signal)
      → values_within start end signal ≡ []
  within_late low [] h r = refl
  within_late low (s ∷ rest) h r =
      let out : (leb start s.0 && leb s.0 end) ≡ false = ground (arith, r.0) in
      rw out (within_late (s.0 + 1) rest (omega (arith, r.0)) r.1)

  within_reversed : (signal : List (ℕ × W)) → end < start → values_within start end signal ≡ []
  within_reversed [] h = refl
  within_reversed (s ∷ rest) h =
      let out : (leb start s.0 && leb s.0 end) ≡ false = ground arith in
      rw out (within_reversed rest h)

  -- They stand next to each other.
  within_lem :
      (low : ℕ) (signal : List (ℕ × W))
      → start ≤ end
      → Rising low (times_of signal)
      → take
          (up_to end (times_of signal) - before start (times_of signal))
          (drop (before start (times_of signal)) (values_of signal))
        ≡ values_within start end signal
  within_lem low [] h r = refl
  within_lem low (s ∷ rest) h r =
      let ts = times_of rest in
      elim (Bool-cases (ltb s.0 start)) [
        | inl early ↦
            let upper : leb s.0 end ≡ true = ground (arith, early) in
            let lower : leb start s.0 ≡ false = ground (arith, early) in
            let z : suc (up_to end ts) - suc (before start ts) ≡ up_to end ts - before start ts =
              omega arith in
            rw (early, upper, lower, z) (within_lem (s.0 + 1) rest h r.1)
        | inr late ↦ elim (Bool-cases (leb s.0 end)) [
          | inl inside ↦
              let lower : leb start s.0 ≡ true = ground (arith, late) in
              let none_before = before_low start (s.0 + 1) ts (ground (arith, late)) r.1 in
              let tail = within_lem (s.0 + 1) rest h r.1 in
              let z : suc (up_to end ts) - 0 ≡ suc (up_to end ts - 0) = omega arith in
              rw (late, inside, lower, z) (ap (s.1 ∷◌) (rw none_before at tail))
          | inr past ↦
              let lower : leb start s.0 ≡ true = ground (arith, late) in
              rw (late, past, lower, within_late (s.0 + 1) rest (ground (arith, past)) r.1) refl
        ]
      ]

up_to_le_length : (t : ℕ) (us : List ℕ) → up_to t us ≤ length us
up_to_le_length t [] = omega arith
up_to_le_length t (u ∷ us) = elim (Bool-cases (leb u t)) [
  | inl inside ↦ rw inside (omega (arith, up_to_le_length t us))
  | inr past ↦ rw past (omega arith)
]

module _ {W : Type 0} ⦃f : Float W⦄ (laws : IsFloat W) (signal : List (ℕ × W)) (size count : ℕ)
    (table : List (List (MinMax W))) (index : Indexed laws (values_of signal) size count table)
    (rising : Rising 0 (times_of signal)) where
  abbrev q : SignalRmq W
  q = index_of signal size table

  -- The two searches give a range with a sample, or none.
  nothing_between :
      (b n : ℕ) → (ltb n b || leb (length q.samples) b) ≡ true → part q.samples b (suc n) ≡ none
  nothing_between b n h = elim (Bool-cases (ltb n b)) [
    | inl back ↦ let z : suc n - b ≡ 0 = ground (arith, back) in rw z refl
    | inr fine ↦
        let past : leb (length q.samples) b ≡ true = rw fine at h in
        rw (drop_all b q.samples (ground (arith, past)), take_nil {A = W} (suc n - b)) refl
  ]

  found_range :
      (start end u : ℕ)
      → start ≤ end
      → up_to end (times_of signal) ≡ u
      → query_time_range q start end ≡ ok (part q.samples (before start (times_of signal)) u)
  unfolding query_time_range
  found_range start end zero h e =
      let b = before start (times_of signal) in
      let fine : ltb end start ≡ false = ground arith in
      let z : 0 - b ≡ 0 = omega arith in
      rw (query_time_range, fine, last_index-binary_search (times_of signal) 0 end rising, e, z)
        refl
  found_range start end (suc n) h e =
      let b = before start (times_of signal) in
      let fine : ltb end start ≡ false = ground arith in
      let found_end = last_index-binary_search (times_of signal) 0 end rising in
      let found_start = place-binary_search (times_of signal) start in
      elim (Bool-cases (ltb n b || leb (length q.samples) b)) [
        | inl empty ↦
            rw (query_time_range, fine, found_end, e, found_start, empty, nothing_between b n empty)
              refl
        | inr full ↦
            let z : n + 1 ≡ suc n = omega arith in
            let inside = up_to_le_length end (times_of signal) in
            let r = query_index_range_lem laws q count index b n (ground (arith, full)) (
              omega (
                arith,
                inside,
                e,
                length-map (λ (s : ℕ × W). s.0) signal,
                length-map (λ (s : ℕ × W). s.1) signal,
              )) in
            rw (query_time_range, fine, found_end, e, found_start, full, r.1)
              (ap ok (sym (rw z at r.2)))
      ]

  pub query_time_range-index :
      (start end : ℕ) → query_time_range q start end ≡ ok (summary (values_within start end signal))
  unfolding query_time_range
  query_time_range-index start end = elim (Bool-cases (ltb end start)) [
    | inl reversed ↦
        rw (query_time_range, reversed, within_reversed start end signal (ground (arith, reversed)))
          refl
    | inr fine ↦
        let ordered : start ≤ end = ground (arith, fine) in
        found_range start end (up_to end (times_of signal)) ordered refl
        ∙ ap (λ (xs : List W). ok (summary xs)) (within_lem start end 0 signal ordered rising)
  ]
