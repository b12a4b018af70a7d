-- ===== src/Decoders/Lanes.antt =====
-- `BitLane::value_at` in libsurfer/src/decoders/mod.rs, and the last change before a time.
use kahuna.Common.{
  ℕ, zero, suc, ◌-◌, ◌≤◌, ◌<◌, ◌≡◌, refl, sym, ◌∙◌, Bool, true, false, List, [], ◌∷◌, Option, none,
  some, ltb, leb, if◌then◌else◌, get_elem?, arith, Bool-cases, inl, inr,
}
use kahuna.Decoders.{Bit, Change, BitLane, partition_point, value_of, value_at}

-- The changes are in the order of their times, none before `from`.
abbrev pub Ordered : ℕ → List Change → Type 0
Ordered from [] = Unit
Ordered from ((t, v) ∷ cs) = (from ≤ t) × Ordered t cs

-- The value of the last change at `time` or before, behind the value `held`.
abbrev pub latest : Option Bit → ℕ → List Change → Option Bit
latest held time [] = held
latest held time ((t, v) ∷ cs) = latest (if leb t time then some v else held) time cs

latest-late :
    (held : Option Bit) (from time : ℕ) (cs : List Change)
    → Ordered from cs
    → time < from
    → latest held time cs ≡ held
latest-late held from time [] o h = refl
latest-late held from time ((t, v) ∷ cs) o h =
    let e : leb t time ≡ false = ground (arith, o.0) in
    rw e (latest-late held t time cs o.1 (omega (arith, o.0)))

abbrev up_to : ℕ → Change → Bool
up_to time c = leb c.0 time

-- The value in front of the partition point, or `held` where nothing stands there.
abbrev found : Option Bit → ℕ → List Change → Option Bit
found held idx cs = if ltb 0 idx then value_of (get_elem? cs (idx - 1)) else held

found-shift :
    (held : Option Bit) (t : ℕ) (v : Bit) (cs : List Change) (p : ℕ)
    → found held (suc p) ((t, v) ∷ cs) ≡ found (some v) p cs
found-shift held t v cs zero = refl
found-shift held t v cs (suc p) =
    let a : suc (suc p) - 1 ≡ suc p = omega arith in
    let b : suc p - 1 ≡ p = omega arith in
    let c : ltb 0 (suc p) ≡ true = ground arith in
    let d : ltb 0 (suc (suc p)) ≡ true = ground arith in rw (a, b, c, d) refl

found-latest :
    (held : Option Bit) (from time : ℕ) (cs : List Change)
    → Ordered from cs
    → found held (partition_point (up_to time) cs) cs ≡ latest held time cs
unfolding partition_point
found-latest held from time [] o = refl
found-latest held from time ((t, v) ∷ cs) o = elim (Bool-cases (leb t time)) [
  | inl early ↦ rw early (
      found-shift held t v cs (partition_point (up_to time) cs)
      ∙ found-latest (some v) t time cs o.1)
  | inr late ↦ rw late (sym (latest-late held t time cs o.1 (ground (arith, late))))
]

-- On a lane whose changes are in order, the value at a time is that of the last change at this time
-- or before, and there is none before the first change.
pub value_at-latest :
    (lane : BitLane) (time : ℕ)
    → Ordered 0 lane.changes
    → value_at lane time ≡ latest none time lane.changes
unfolding value_at
value_at-latest lane time o = found-latest none 0 time lane.changes o
