-- ===== src/Timestamp/Exact.antt =====
-- `from_femtoseconds` and `as_femtoseconds` in libsurfer/src/cxxrtl/timestamp.rs.
use kahuna.Common.{ℕ, ◌+◌, ◌*◌, ◌/◌, ◌%◌, ◌<◌, ◌≡◌, refl, arith}
use kahuna.Timestamp.{
  CxxrtlTimestamp, femtoseconds_per_second, zero_time, from_femtoseconds, as_femtoseconds,
}

-- A number of femtoseconds comes back from its time stamp, and a time stamp with less than a
-- second of femtoseconds comes back from its number. The zero time is that of no femtoseconds.
pub from_femtoseconds-as_femtoseconds :
    (femto : ℕ) (t : CxxrtlTimestamp)
    → t.femtoseconds < femtoseconds_per_second
    → (as_femtoseconds (from_femtoseconds femto) ≡ femto)
      × (from_femtoseconds (as_femtoseconds t) ≡ t)
      × (from_femtoseconds 0 ≡ zero_time)
unfolding from_femtoseconds as_femtoseconds zero_time
from_femtoseconds-as_femtoseconds femto t h =
    let a : (t.seconds * femtoseconds_per_second + t.femtoseconds) / femtoseconds_per_second
        ≡ t.seconds =
      omega arith in
    let b : (t.seconds * femtoseconds_per_second + t.femtoseconds) % femtoseconds_per_second
        ≡ t.femtoseconds =
      omega arith in
    (omega arith, rw (a, b) refl, refl)
