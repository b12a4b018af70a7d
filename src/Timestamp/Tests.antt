-- ===== src/Timestamp/Tests.antt =====
-- The theorem at a concrete time stamp.
use kahuna.Common.{◌≡◌, arith}
use kahuna.Timestamp.{CxxrtlTimestamp, zero_time, from_femtoseconds, as_femtoseconds}
use kahuna.Timestamp.Exact.{from_femtoseconds-as_femtoseconds}

abbrev stamp : CxxrtlTimestamp
stamp = record { seconds = 2; femtoseconds = 5 }

from_femtoseconds-as_femtoseconds_example :
    (as_femtoseconds (from_femtoseconds 3000000000000007) ≡ 3000000000000007)
    × (from_femtoseconds (as_femtoseconds stamp) ≡ stamp)
    × (from_femtoseconds 0 ≡ zero_time)
from_femtoseconds-as_femtoseconds_example =
    from_femtoseconds-as_femtoseconds 3000000000000007 stamp (omega arith)
