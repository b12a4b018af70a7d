-- ===== src/Translators/Kinds.antt =====
-- The kinds of values by their characters: three functions that look for the same characters.
use kahuna.Common.{
  ℕ, ◌≡◌, refl, Bool, true, false, ◌||◌, [], ◌∷◌, Option, none, some, ◌==◌, if◌then◌else◌, all_of,
  arith, Bool-cases, inl, inr,
}
use kahuna.Decoders.{Text}
use kahuna.Translators.{
  ValueKind, normal, undef, high_imp, dont_care, weak, contains, is_binary_digit,
  check_vector_variable, kind_for_binary_representation, unparsable,
}

-- A binary text has no other character.
absent_lem :
    (c : ℕ) (s : Text)
    → is_binary_digit c ≡ false
    → all_of is_binary_digit s ≡ true
    → contains c s ≡ false
absent_lem c [] e h = refl
absent_lem c (d ∷ ds) e h = elim (Bool-cases (is_binary_digit d)) [
  | inl digit ↦
      let rest : all_of is_binary_digit ds ≡ true = rw digit at h in
      let differs : (d == c) ≡ false = ground (arith, digit, e) in
      rw (differs, absent_lem c ds e rest) refl
  | inr other ↦ let contra : false ≡ true = rw other at h in cc
]

-- A character that the functions look for
abbrev pub is_special : Text → Bool
is_special s =
    contains 120 s
    || contains 122 s
    || contains 45 s
    || contains 117 s
    || contains 119 s
    || (contains 104 s || contains 108 s)

some_if :
    {A : Type 0} (b : Bool) (x y : A) {z : Option A}
    → z ≡ some y
    → (if b then some x else z) ≡ some (if b then x else y)
some_if true x y e = refl
some_if false x y e = e

abbrev kind_part : Text × ValueKind → ValueKind
kind_part shown = shown.1

-- The kind of the chain of tests, for the chain of kinds
kinds :
    (a b c d e f : Bool) (t u v w x y z : Text)
    → (if a
        then undef
        else if b
        then high_imp
        else if c
        then dont_care
        else if d || e
        then undef
        else if f
        then weak
        else normal)
      ≡ (if a || b || c || d || e || f
          then kind_part (
              if a
              then (t, undef)
              else if b
              then (u, high_imp)
              else if c
              then (v, dont_care)
              else if d
              then (w, undef)
              else if e
              then (x, undef)
              else if f
              then (y, weak)
              else (z, undef))
          else normal)
kinds true b c d e f t u v w x y z = refl
kinds false true c d e f t u v w x y z = refl
kinds false false true d e f t u v w x y z = refl
kinds false false false true e f t u v w x y z = refl
kinds false false false false true f t u v w x y z = refl
kinds false false false false false true t u v w x y z = refl
kinds false false false false false false t u v w x y z = refl

-- The text and the kind that stand for a value that is not binary are the same in
-- `check_vector_variable` and in `parse_biguint`; a binary value has none in the former.
pub check_vector_variable-unparsable :
    (s : Text)
    → check_vector_variable s ≡ (if all_of is_binary_digit s then none else some (unparsable s))
unfolding check_vector_variable unparsable
check_vector_variable-unparsable s = elim (Bool-cases (all_of is_binary_digit s)) [
  | inl binary ↦
      let absent : (c : ℕ) → is_binary_digit c ≡ false → contains c s ≡ false =
        λ c e. absent_lem c s e binary in
      rw
        (
          absent 120 refl,
          absent 122 refl,
          absent 45 refl,
          absent 117 refl,
          absent 119 refl,
          absent 104 refl,
          absent 108 refl,
          binary,
        )
        refl
  | inr other ↦ rw other (
      some_if (contains 120 s) _ _ (
        some_if (contains 122 s) _ _ (
          some_if (contains 45 s) _ _ (
            some_if (contains 117 s) _ _ (
              some_if (contains 119 s) _ _
                (some_if (contains 104 s || contains 108 s) _ _ refl))))))
]

-- The kind of a text is the one of `parse_biguint` where it has a character that both look for, and
-- else normal, also where the text is not binary.
pub kind_for_binary_representation-unparsable :
    (s : Text)
    → kind_for_binary_representation s ≡ (if is_special s then (unparsable s).1 else normal)
unfolding kind_for_binary_representation unparsable
kind_for_binary_representation-unparsable s =
    kinds (contains 120 s) (contains 122 s) (contains 45 s) (contains 117 s) (contains 119 s)
      (contains 104 s || contains 108 s) _ _ _ _ _ _ _
