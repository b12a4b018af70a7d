-- ===== src/Commands/Matches.antt =====
-- The order in which the alternatives for a parameter are suggested.
use mathlib.Core.List.{Perm}
use mathlib.Core.List.Perm
use mathlib.Core.Path.{ap₂}
use kahuna.Common.{
  sym, ◌≤◌, get_elem?, ◌||◌, ◌==◌, Option, none, ℕ, zero, suc, ◌<◌, ◌≡◌, refl, ap, ◌∙◌, Bool, true,
  false, List, [], ◌∷◌, map, some, ltb, ok, length, replicate, update_at, length-update_at, ℤ, pos,
  negsuc, less, arith, Bool-cases, Option-cases, inl, inr,
}
use kahuna.Decoders.{Text}
use kahuna.Commands.Fuzzy.{
  Marked, len, mark_all, Matcher, Scored, before, insert_by_key, sort_by_key, fuzzy_score,
  with_scores, fuzzy_match,
}

-- Every index is one of `n` bytes.
abbrev pub AllBelow : ℕ → List ℕ → Type 0
AllBelow n [] = Unit
AllBelow n (i ∷ indices) = (i < n) × AllBelow n indices

-- The matcher marks characters of the line.
abbrev pub MarksLine : Matcher → Type 0
MarksLine m =
    (line query : Text) (found : ℤ × List ℕ)
    → m.fuzzy_indices line query ≡ some found
    → AllBelow (len line) found.1

length-replicate : {A : Type 0} (n : ℕ) (a : A) → length (replicate n a) ≡ n
length-replicate zero a = refl
length-replicate (suc n) a = ap suc (length-replicate n a)

get_elem?-replicate :
    {A : Type 0} (n : ℕ) (a : A) (i : ℕ) → i < n → get_elem? (replicate n a) i ≡ some a
get_elem?-replicate zero a i h = absurd (omega (arith, h))
get_elem?-replicate (suc n) a zero h = refl
get_elem?-replicate (suc n) a (suc i) h = get_elem?-replicate n a i (omega (arith, h))

abbrev pub has : ℕ → List ℕ → Bool
has i [] = false
has i (j ∷ indices) = (j == i) || has i indices

or_true : (b : Bool) → true ≡ (b || true)
or_true true = refl
or_true false = refl

or_false : (b : Bool) → (b || false) ≡ b
or_false true = refl
or_false false = refl

get_elem?-update_at :
    (j : ℕ) (matches : List Bool) (i : ℕ) (b : Bool)
    → get_elem? matches i ≡ some b
    → get_elem? (update_at j (λ m. true) matches) i ≡ some (b || (j == i))
get_elem?-update_at j [] i b h = cc
get_elem?-update_at zero (m ∷ matches) zero b h = ap some (or_true b)
get_elem?-update_at zero (m ∷ matches) (suc i) b h =
    let other : (0 == suc i) ≡ false = ground arith in rw other (h ∙ ap some (sym (or_false b)))
get_elem?-update_at (suc j) (m ∷ matches) zero b h =
    let other : (suc j == 0) ≡ false = ground arith in rw other (h ∙ ap some (sym (or_false b)))
get_elem?-update_at (suc j) (m ∷ matches) (suc i) b h =
    let same : (suc j == suc i) ≡ (j == i) = ground arith in
    rw same (get_elem?-update_at j matches i b h)

-- Marks that are made, and what becomes of each
record Marks (indices : List ℕ) (matches : List Bool) : Type 0 where
  marked : List Bool
  made : mark_all indices matches ≡ ok marked
  size : length marked ≡ length matches
  each :
      (i : ℕ) (b : Bool)
      → get_elem? matches i ≡ some b
      → get_elem? marked i ≡ some (b || has i indices)

mark_all-Marks :
    (indices : List ℕ) (matches : List Bool)
    → AllBelow (length matches) indices
    → Marks indices matches
unfolding mark_all
mark_all-Marks [] matches h = record {
  marked = matches;
  made = refl;
  size = refl;
  each = λ i b e. e ∙ ap some (ground arith);
}
mark_all-Marks (j ∷ indices) matches h =
    let next = update_at j (λ m. true) matches in
    let same = length-update_at j (λ m. true) matches in
    let rest = mark_all-Marks indices next (rw same h.1) in
    let inside : ltb j (length matches) ≡ true = ground (arith, h.0) in
    record {
      marked = rest.marked;
      made = rw (inside, rest.made) refl;
      size = rest.size ∙ same;
      each = λ i b e.
          rest.each i (b || (j == i)) (get_elem?-update_at j matches i b e)
          ∙ ap some (either b _ _);
    }
  where
    either : (a b c : Bool) → ((a || b) || c) ≡ (a || (b || c))
    either true b c = refl
    either false b c = refl

-- The score and the marks of an alternative are what the matcher finds: a byte is marked where its
-- index is among those of the matcher. Where it finds nothing the score is 0 and no byte is marked.
abbrev pub IsFound : Option (ℤ × List ℕ) → Text → Scored → Type 0
IsFound none option s = (s.score ≡ pos 0) × (s.matches ≡ replicate (len option) false)
IsFound (some found) option s =
    (s.score ≡ found.0)
    × (length s.matches ≡ len option)
    × ((i : ℕ) → i < len option → get_elem? s.matches i ≡ some (has i found.1))

module _ (m : Matcher) (query : Text) where
  abbrev pub IsScored : Text → Scored → Type 0
  IsScored option s = (s.option ≡ option) × IsFound (m.fuzzy_indices option query) option s

  abbrev pub AllScored : List Text → List Scored → Type 0
  AllScored [] [] = Unit
  AllScored [] (s ∷ scored) = ⊥
  AllScored (option ∷ options) [] = ⊥
  AllScored (option ∷ options) (s ∷ scored) = IsScored option s × AllScored options scored

module _ (m : Matcher) (h : MarksLine m) (query : Text) where
  fuzzy_score-ok :
      (line : Text) → (s : Scored) × (fuzzy_score m line query ≡ ok s) × IsScored m query line s
  unfolding fuzzy_score mark_all
  fuzzy_score-ok line = elim (Option-cases (m.fuzzy_indices line query)) [
    | inl e ↦ rw e (
      record { option = line; score = pos 0; matches = replicate (len line) false },
      refl,
      (refl, (refl, refl)),
    )
    | inr (found, e) ↦
        let blank = replicate (len line) false in
        let size = length-replicate (len line) false in
        let marks = mark_all-Marks found.1 blank (rw size (h line query found e)) in
        rw (e, marks.made)
          (
            record { option = line; score = found.0; matches = marks.marked },
            refl,
            (
              refl,
              (
                refl,
                marks.size ∙ size,
                λ i below. marks.each i false (get_elem?-replicate (len line) false i below),
              ),
            ),
          )
  ]

  with_scores-ok :
      (options : List Text)
      → (scored : List Scored) × (with_scores m options query ≡ ok scored)
        × AllScored m query options scored
  unfolding with_scores
  with_scores-ok [] = ([], refl, tt)
  with_scores-ok (option ∷ options) =
      let first = fuzzy_score-ok option in
      let rest = with_scores-ok options in
      (first.0 ∷ rest.0, rw (first.1, rest.1) refl, (first.2, rest.2))

-- No element is after the one behind it.
abbrev Ordered : List Scored → Type 0
Ordered [] = Unit
Ordered (x ∷ []) = Unit
Ordered (x ∷ y ∷ ys) = (before y x ≡ false) × Ordered (y ∷ ys)

less_asym : (s t : ℤ) → less s t ≡ true → less t s ≡ false
less_asym (pos m) (pos n) h = ground arith
less_asym (pos m) (negsuc n) h = cc
less_asym (negsuc m) (pos n) h = refl
less_asym (negsuc m) (negsuc n) h = ground arith

before_asym : (a b : Scored) → before a b ≡ true → before b a ≡ false
before_asym a b h = elim (Bool-cases (less b.score a.score)) [
  | inl first ↦ let back = less_asym b.score a.score first in rw (back, first) refl
  | inr tied ↦ elim (Bool-cases (less a.score b.score)) [
    | inl second ↦ let contra : false ≡ true = rw (tied, second) at h in cc
    | inr other ↦
        let shorter : ltb (len a.option) (len b.option) ≡ true = rw (tied, other) at h in
        rw (tied, other) (ground (arith, shorter))
  ]
]

insert_behind :
    (x y : Scored) (ys : List Scored)
    → Ordered (y ∷ ys)
    → before x y ≡ false
    → Ordered (y ∷ insert_by_key x ys)
unfolding insert_by_key
insert_behind x y [] o e = (e, tt)
insert_behind x y (z ∷ zs) o e = elim (Bool-cases (before z x)) [
  | inl first ↦ rw first (o.0, insert_behind x z zs o.1 (before_asym z x first))
  | inr later ↦ rw later (e, (later, o.1))
]

insert_by_key-Ordered : (x : Scored) (ys : List Scored) → Ordered ys → Ordered (insert_by_key x ys)
unfolding insert_by_key
insert_by_key-Ordered x [] o = tt
insert_by_key-Ordered x (y ∷ ys) o = elim (Bool-cases (before y x)) [
  | inl first ↦ rw first (insert_behind x y ys o (before_asym y x first))
  | inr later ↦ rw later (later, o)
]

insert_by_key-Perm : (x : Scored) (ys : List Scored) → Perm (insert_by_key x ys) (x ∷ ys)
unfolding insert_by_key
insert_by_key-Perm x [] = Perm.refl (x ∷ [])
insert_by_key-Perm x (y ∷ ys) = elim (Bool-cases (before y x)) [
  | inl first ↦ rw first (Perm.trans (Perm.cons y (insert_by_key-Perm x ys)) (Perm.swap x y ys))
  | inr later ↦ rw later (Perm.refl (x ∷ y ∷ ys))
]

sort_by_key-Ordered : (xs : List Scored) → Ordered (sort_by_key xs)
unfolding sort_by_key
sort_by_key-Ordered [] = tt
sort_by_key-Ordered (x ∷ xs) = insert_by_key-Ordered x (sort_by_key xs) (sort_by_key-Ordered xs)

sort_by_key-Perm : (xs : List Scored) → Perm (sort_by_key xs) xs
unfolding sort_by_key
sort_by_key-Perm [] = Perm.nil
sort_by_key-Perm (x ∷ xs) =
    Perm.trans (insert_by_key-Perm x (sort_by_key xs)) (Perm.cons x (sort_by_key-Perm xs))

abbrev pub marked_of : List Scored → List Marked
marked_of = map (λ (s : Scored). (s.option, s.matches))

-- The better score stands first, and of equal ones the shorter text.
abbrev pub Ranked : Scored → Scored → Type 0
Ranked x y = (less x.score y.score ≡ false) × (x.score ≡ y.score → len x.option ≤ len y.option)

abbrev pub AllRanked : List Scored → Type 0
AllRanked [] = Unit
AllRanked (x ∷ []) = Unit
AllRanked (x ∷ y ∷ ys) = Ranked x y × AllRanked (y ∷ ys)

before-Ranked : (x y : Scored) → before y x ≡ false → Ranked x y
before-Ranked x y h = elim (Bool-cases (less x.score y.score)) [
  | inl better ↦ absurd (cc (rw better at h))
  | inr no_better ↦ (
    no_better,
    λ same.
        let back : less y.score x.score ≡ false = ap₂ less (sym same) same ∙ no_better in
        let short : ltb (len y.option) (len x.option) ≡ false = rw (no_better, back) at h in
        ground (arith, short),
  )
]

Ordered-AllRanked : (xs : List Scored) → Ordered xs → AllRanked xs
Ordered-AllRanked [] o = tt
Ordered-AllRanked (x ∷ []) o = tt
Ordered-AllRanked (x ∷ y ∷ ys) o = (before-Ranked x y o.0, Ordered-AllRanked (y ∷ ys) o.1)

-- The suggestions for a parameter are all alternatives, each once, with the score and the marks that
-- the matcher has for it, the better score in front of the other and of equal ones the shorter
-- text; there is no panic. The matcher marks bytes of the alternative that it is given.
pub fuzzy_match-sorted :
    (m : Matcher) (query : Text) (alternatives : List Text)
    → MarksLine m
    → (scored sorted : List Scored) × (fuzzy_match m alternatives query ≡ ok (marked_of sorted))
      × AllScored m query alternatives scored
      × Perm sorted scored
      × AllRanked sorted
unfolding fuzzy_match
fuzzy_match-sorted m query alternatives h =
    let run = with_scores-ok m h query alternatives in
    (
      run.0,
      sort_by_key run.0,
      rw run.1 refl,
      run.2,
      sort_by_key-Perm run.0,
      Ordered-AllRanked (sort_by_key run.0) (sort_by_key-Ordered run.0),
    )
