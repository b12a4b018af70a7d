-- ===== src/Translators/Leb.antt =====
-- Numbers in groups of seven bits: what `decode_lebxxx` reads.
use kahuna.Common.{
  ℕ, ◌+◌, ◌*◌, ◌%◌, ◌<◌, ◌≡◌, refl, false, List, [], ◌∷◌, map, ltb, leb, ◌==◌, ok, arith,
}
use kahuna.Translators.Basic.{fold_lebxxx, decode_lebxxx}

-- Groups of seven bits
abbrev pub AreGroups : List ℕ → Type 0
AreGroups [] = Unit
AreGroups (g ∷ gs) = (g < 128) × AreGroups gs

-- The number of the groups behind a number
abbrev pub groups_onto : ℕ → List ℕ → ℕ
groups_onto n [] = n
groups_onto n (g ∷ gs) = groups_onto (n * 128 + g) gs

-- The bytes of a number that is not 0, most significant first: all but the first have the flag.
abbrev pub encoded : ℕ → List ℕ → List ℕ
encoded g gs = g ∷ map (λ (h : ℕ). h + 128) gs

fold_lebxxx-encoded :
    (n : ℕ) (gs : List ℕ)
    → 0 < n
    → AreGroups gs
    → fold_lebxxx n (map (λ (h : ℕ). h + 128) gs) ≡ ok (groups_onto n gs)
unfolding fold_lebxxx
fold_lebxxx-encoded n [] p h = refl
fold_lebxxx-encoded n (g ∷ gs) p h =
    let flagged : ltb (g + 128) 128 ≡ false = ground arith in
    let later : (n == 0) ≡ false = ground arith in
    let low : (g + 128) % 128 ≡ g = omega (arith, h.0) in
    rw (flagged, later, low) (fold_lebxxx-encoded (n * 128 + g) gs (omega (arith, p)) h.1)

-- A number that is not 0 is read back from its groups of seven bits, flagged but for the first.
pub decode_lebxxx-encoded :
    (g : ℕ) (gs : List ℕ)
    → 0 < g
    → AreGroups (g ∷ gs)
    → decode_lebxxx (encoded g gs) ≡ ok (groups_onto 0 (g ∷ gs))
unfolding decode_lebxxx
decode_lebxxx-encoded g gs p h =
    let small : leb 128 g ≡ false = ground (arith, h.0) in
    let z : 0 * 128 + g ≡ g = omega arith in rw (small, z) (fold_lebxxx-encoded g gs p h.1)
