-- ===== src/Analog/Tests.antt =====
-- Runs of the analog cache on a short signal.
use kahuna.Common.{
  ℕ, zero, suc, ◌≡◌, refl, ap, Bool, false, List, [], ◌∷◌, Option, none, some, min, ltb, ◌&&◌, ok,
  ◌>>=◌, arith,
}
use Prim.Native.Nat.{max}
use kahuna.Analog.{Float, MinMax, single, combine, index_signal, query_time_range}
use kahuna.Analog.Summaries.{IsFloat, summary}
use kahuna.Analog.Build.{times_of}
use kahuna.Analog.Times.{Rising, values_within}
use kahuna.Analog.Queries.{query_time_range-index_signal}

-- A NaN, or a number: 0 and 1000 stand for the infinities.
abbrev Sample : Type 0
Sample = Option ℕ

abbrev least_of : Sample → Sample → Sample
least_of none b = b
least_of (some m) none = some m
least_of (some m) (some n) = some (min m n)

abbrev greatest_of : Sample → Sample → Sample
greatest_of none b = b
greatest_of (some m) none = some m
greatest_of (some m) (some n) = some (max m n)

abbrev finite : Sample → Bool
finite none = false
finite (some n) = ltb 0 n && ltb n 1000

instance Sample-Float : Float Sample
Sample-Float = record {
  is_finite = finite;
  min_of = least_of;
  max_of = greatest_of;
  infinity = some 1000;
  neg_infinity = some 0;
  nan_undef = none;
}

least_assoc : (a b c : Sample) → least_of (least_of a b) c ≡ least_of a (least_of b c)
least_assoc none b c = refl
least_assoc (some a) none c = refl
least_assoc (some a) (some b) none = refl
least_assoc (some a) (some b) (some c) = ap some (omega arith)

least_comm : (a b : Sample) → least_of a b ≡ least_of b a
least_comm none none = refl
least_comm none (some b) = refl
least_comm (some a) none = refl
least_comm (some a) (some b) = ap some (omega arith)

greatest_assoc :
    (a b c : Sample) → greatest_of (greatest_of a b) c ≡ greatest_of a (greatest_of b c)
greatest_assoc none b c = refl
greatest_assoc (some a) none c = refl
greatest_assoc (some a) (some b) none = refl
greatest_assoc (some a) (some b) (some c) = ap some (omega arith)

greatest_comm : (a b : Sample) → greatest_of a b ≡ greatest_of b a
greatest_comm none none = refl
greatest_comm none (some b) = refl
greatest_comm (some a) none = refl
greatest_comm (some a) (some b) = ap some (omega arith)

least_idem : (a : Sample) → least_of a a ≡ a
least_idem none = refl
least_idem (some a) = ap some (omega arith)

greatest_idem : (a : Sample) → greatest_of a a ≡ a
greatest_idem none = refl
greatest_idem (some a) = ap some (omega arith)

Sample-IsFloat : IsFloat Sample
unfolding Sample-Float
Sample-IsFloat = record {
  min_assoc = least_assoc;
  min_comm = least_comm;
  min_idem = least_idem;
  max_assoc = greatest_assoc;
  max_comm = greatest_comm;
  max_idem = greatest_idem;
}

-- Seven samples, in blocks of one.
abbrev samples : List (ℕ × Sample)
samples =
    (1, some 7)
    ∷ (3, some 2)
    ∷ (4, some 9)
    ∷ (6, some 5)
    ∷ (8, some 1)
    ∷ (13, some 3)
    ∷ (14, none)
    ∷ []

samples-Rising : Rising 0 (times_of samples)
samples-Rising = (
  omega arith,
  (omega arith, (omega arith, (omega arith, (omega arith, (omega arith, (omega arith, tt)))))),
)

abbrev three_to_thirteen : MinMax Sample
three_to_thirteen = record { least = some 1; greatest = some 9; has_non_finite = false }

within_run : summary (values_within 2 13 samples) ≡ some three_to_thirteen
unfolding combine single Sample-Float
within_run = refl

query_time_range-index_signal_example :
    (index_signal samples 1 >>= λ q. query_time_range q 2 13)
    ≡ ok (summary (values_within 2 13 samples))
query_time_range-index_signal_example =
    query_time_range-index_signal Sample-IsFloat samples 1 (omega arith) (omega arith)
      samples-Rising 2 13

-- A translator that fails on 0.
abbrev translate_numeric : ℕ → Option Sample
translate_numeric zero = none
translate_numeric (suc n) = some (some (suc n))
