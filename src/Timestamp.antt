-- ===== src/Timestamp.antt =====
-- libsurfer/src/cxxrtl/timestamp.rs: the time stamps of the CXXRTL protocol. A `BigUint` is a
-- number.
mod Tests
pub mod Exact
use kahuna.Common.{ℕ, ◌+◌, ◌*◌, ◌/◌, ◌%◌}

pub record CxxrtlTimestamp : Type 0 where
  pub seconds : ℕ
  pub femtoseconds : ℕ

abbrev pub femtoseconds_per_second : ℕ
femtoseconds_per_second = 1000000000000000

unfoldable pub zero_time : CxxrtlTimestamp
zero_time = record { seconds = 0; femtoseconds = 0 }

unfoldable pub from_femtoseconds : ℕ → CxxrtlTimestamp
from_femtoseconds femto = record {
  seconds = femto / femtoseconds_per_second;
  femtoseconds = femto % femtoseconds_per_second;
}

unfoldable pub as_femtoseconds : CxxrtlTimestamp → ℕ
as_femtoseconds t = t.seconds * femtoseconds_per_second + t.femtoseconds
