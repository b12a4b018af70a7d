-- ===== src/Names/Labels.antt =====
-- The components that a displayed name shows: libsurfer/src/variable_name_type.rs.
use Prim.Native.Nat.{min}
use mathlib.Core.List.{reverse, reverse_aux, reverse-reverse}
use kahuna.Common.{
  ℕ, zero, suc, ◌≡◌, refl, sym, ap, ◌∙◌, Bool, true, false, not, ◌||◌, List, [], ◌∷◌, ◌++◌,
  append_assoc, append-nil, ltb, ◌==◌, if◌then◌else◌, length, take, is_empty, all_of, arith,
  Bool-cases, inl, inr,
}
use kahuna.Decoders.{Text, codes}
use kahuna.Batch.{onto_first}
use kahuna.Time.Format.{join}
use kahuna.Names.{ellipsis, with_scope, display}
use kahuna.Names.Sorted.{Each, Each-imp}

-- No point and no ellipsis
abbrev pub is_plain : ℕ → Bool
is_plain c = not (c == 46 || c == 8230)

-- The parts of a text between points
abbrev pub parts : Text → List Text
parts [] = [] ∷ []
parts (c ∷ cs) = let rest = parts cs in if c == 46 then [] ∷ rest else onto_first c rest

abbrev pub without_ellipsis : Text → Text
without_ellipsis [] = []
without_ellipsis (c ∷ cs) = if c == 8230 then cs else c ∷ cs

abbrev pub IsPlain : Text → Type 0
IsPlain t = all_of is_plain t ≡ true

abbrev pub IsComponent : Text → Type 0
IsComponent t = IsPlain t × (is_empty t ≡ false)

parts-plain : (t rest : Text) → IsPlain t → parts (t ++ 46 ∷ rest) ≡ t ∷ parts rest
parts-plain [] rest h = refl
parts-plain (c ∷ cs) rest h = elim (Bool-cases (is_plain c)) [
  | inl p ↦
      let other : (c == 46) ≡ false = ground (arith, p) in
      rw (other, parts-plain cs rest (rw p at h)) refl
  | inr p ↦ absurd (cc (rw p at h))
]

-- The parts of components and a name
parts-join :
    (c : Text) (cs : List Text) (name : Text)
    → Each IsPlain (c ∷ cs)
    → parts (join (codes ".") (c ∷ cs) ++ 46 ∷ name) ≡ (c ∷ cs) ++ parts name
parts-join c [] name h = parts-plain c name h.0
parts-join c (d ∷ ds) name h =
    let rest = join (codes ".") (d ∷ ds) in
    ap parts (append_assoc c (46 ∷ rest) (46 ∷ name))
    ∙ parts-plain c (rest ++ 46 ∷ name) h.0
    ∙ ap (c ∷◌) (parts-join d ds name h.1)

no_ellipsis : (t rest : Text) → IsComponent t → without_ellipsis (t ++ rest) ≡ t ++ rest
no_ellipsis [] rest h = cc
no_ellipsis (c ∷ cs) rest h = elim (Bool-cases (is_plain c)) [
  | inl p ↦ let other : (c == 8230) ≡ false = ground (arith, p) in rw other refl
  | inr p ↦ absurd (cc (rw p at h.0))
]

name_kept : (t : Text) → IsPlain t → without_ellipsis t ≡ t
name_kept [] h = refl
name_kept (c ∷ cs) h = elim (Bool-cases (is_plain c)) [
  | inl p ↦ let other : (c == 8230) ≡ false = ground (arith, p) in rw other refl
  | inr p ↦ absurd (cc (rw p at h))
]

join-first : (c : Text) (cs : List Text) → (rest : Text) × (join (codes ".") (c ∷ cs) ≡ c ++ rest)
join-first c [] = ([], sym (append-nil c))
join-first c (d ∷ ds) = (_, refl)

nonempty-append : (c rest : Text) → is_empty c ≡ false → is_empty (c ++ rest) ≡ false
nonempty-append [] rest h = cc
nonempty-append (x ∷ c) rest h = refl

-- The name behind a scope of components
abbrev labelled : List Text → Bool → Text → Text
labelled cs b name =
    let scope = join (codes ".") cs in
    if is_empty scope then name else (if b then ellipsis else []) ++ scope ++ 46 ∷ name

labelled-parts :
    (cs : List Text) (b : Bool) (name : Text)
    → Each IsComponent cs
    → IsPlain name
    → parts (without_ellipsis (labelled cs b name)) ≡ cs ++ parts name
labelled-parts [] b name h plain = ap parts (name_kept name plain)
labelled-parts (c ∷ cs) b name h plain =
    let scope = join (codes ".") (c ∷ cs) in
    let first = join-first c cs in
    let given : is_empty scope ≡ false = rw first.1 (nonempty-append c first.0 h.0.1) in
    let all = parts-join c cs name (Each-imp IsPlain IsComponent (λ t k. k.0) (c ∷ cs) h) in
    let kept : without_ellipsis (scope ++ 46 ∷ name) ≡ scope ++ 46 ∷ name =
      rw (first.1, append_assoc c first.0 (46 ∷ name)) (no_ellipsis c (first.0 ++ 46 ∷ name) h.0) in
    rw given (by_flag b kept all)
  where
    by_flag :
        (b : Bool)
        → without_ellipsis (join (codes ".") (c ∷ cs) ++ 46 ∷ name)
          ≡ join (codes ".") (c ∷ cs) ++ 46 ∷ name
        → parts (join (codes ".") (c ∷ cs) ++ 46 ∷ name) ≡ (c ∷ cs) ++ parts name
        → parts (
            without_ellipsis
              ((if b then ellipsis else []) ++ join (codes ".") (c ∷ cs) ++ 46 ∷ name))
          ≡ (c ∷ cs) ++ parts name
    by_flag true kept all = all
    by_flag false kept all = ap parts kept ∙ all

take-min : {A : Type 0} (n : ℕ) (xs : List A) → take (min n (length xs)) xs ≡ take n xs
take-min zero xs = let e : min 0 (length xs) ≡ 0 = omega arith in rw e refl
take-min (suc n) [] = let e : min (suc n) 0 ≡ 0 = omega arith in rw e refl
take-min (suc n) (x ∷ xs) =
    let e : min (suc n) (suc (length xs)) ≡ suc (min n (length xs)) = omega arith in
    rw e (ap (x ∷◌) (take-min n xs))

module _ {A : Type 0} where
  pub Each-reverse :
      (P : A → Type 0) (xs ys : List A) → Each P xs → Each P ys → Each P (reverse_aux xs ys)
  Each-reverse P [] ys h k = k
  Each-reverse P (x ∷ xs) ys h k = Each-reverse P xs (x ∷ ys) h.1 (h.0, k)

  Each-take : (P : A → Type 0) (n : ℕ) (xs : List A) → Each P xs → Each P (take n xs)
  Each-take P zero xs h = tt
  Each-take P (suc n) [] h = tt
  Each-take P (suc n) (x ∷ xs) h = (h.0, Each-take P n xs h.1)

  pub reverse-injective : (xs ys : List A) → reverse xs ≡ reverse ys → xs ≡ ys
  reverse-injective xs ys e = sym (reverse-reverse xs) ∙ ap reverse e ∙ reverse-reverse ys

pub display-parts :
    (path : List Text) (need : ℕ) (name : Text)
    → Each IsComponent path
    → IsPlain name
    → parts (without_ellipsis (display path need name)) ≡ reverse (take need path) ++ parts name
unfolding display with_scope
display-parts path zero name h plain = ap parts (name_kept name plain)
display-parts [] (suc n) name h plain =
    let z : (suc n == 0) ≡ false = ground arith in rw z (ap parts (name_kept name plain))
display-parts (c ∷ cs) (suc n) name h plain =
    let path = c ∷ cs in
    let taken = min (suc n) (length path) in
    let shown = reverse (take taken path) in
    let z : (suc n == 0) ≡ false = ground arith in
    let all =
      Each-reverse IsComponent (take taken path) [] (Each-take IsComponent taken path h) tt in
    rw z (labelled-parts shown (ltb taken (length path)) name all plain)
    ∙ ap (λ (cs : List Text). reverse cs ++ parts name) (take-min (suc n) path)
