-- ===== src/Time/Auto.antt =====
-- The largest unit in which a time is a whole number.
use kahuna.Common.{ℕ, ◌+◌, ◌-◌, ◌*◌, ◌^◌, ◌≤◌, ◌<◌, ◌≡◌}
use kahuna.Time.{TimeUnit}
use kahuna.Time.Units.{below}

module _ (time m : ℕ) where
  -- The time, in ticks of `10 ^ m`, is a whole number of units that are `10 ^ e` as large.
  abbrev pub IsWhole : ℕ → Type 0
  IsWhole e = (n : ℕ) × (time * 10 ^ m ≡ n * 10 ^ e)

-- How much larger a unit is than the one of the scale
abbrev pub above : TimeUnit → TimeUnit → ℕ
above u t = below t - below u

module _ (time m : ℕ) (own : TimeUnit) (few : m ≤ 3) where
  -- A unit in which the time is whole, and in no larger one up to the exponent `e`
  abbrev Largest : ℕ → TimeUnit → Type 0
  Largest e r =
      (below r ≤ below own)
      × IsWhole time m (above r own)
      × ((u : TimeUnit)
          → below u < below r
          → below own ≤ below u + e
          → IsWhole time m (above u own)
          → ⊥)
