-- ===== src/Names/Order.antt =====
-- The order of the scopes in libsurfer/src/variable_name_type.rs: `cmp` of two vectors of texts.
use kahuna.Common.{
  ◌≡◌, refl, Bool, true, false, List, [], ◌∷◌, ltb, if◌then◌else◌, arith, Bool-cases, inl, inr,
}
use mathlib.Core.Path.{ap₂}

-- One list is less than the other.
abbrev pub lex : {A : Type 0} → (A → A → Bool) → List A → List A → Bool
lex before [] [] = false
lex before [] (y ∷ ys) = true
lex before (x ∷ xs) [] = false
lex before (x ∷ xs) (y ∷ ys) =
    let rest = lex before xs ys in if before x y then true else if before y x then false else rest

pub record IsOrder {A : Type 0} (before : A → A → Bool) : Type 0 where
  pub asym : (x y : A) → before x y ≡ true → before y x ≡ false
  pub antisym : (x y : A) → before x y ≡ false → before y x ≡ false → x ≡ y
  pub trans : (x y z : A) → before y x ≡ false → before z y ≡ false → before z x ≡ false

pub ltb-IsOrder : IsOrder ltb
ltb-IsOrder = record {
  asym = λ x y h. ground (arith, h);
  antisym = λ x y h k. ground (arith, h, k);
  trans = λ x y z h k. ground (arith, h, k);
}

module _ {A : Type 0} (before : A → A → Bool) (o : IsOrder before) where
  lex-asym : (xs ys : List A) → lex before xs ys ≡ true → lex before ys xs ≡ false
  lex-asym [] [] h = refl
  lex-asym [] (y ∷ ys) h = refl
  lex-asym (x ∷ xs) [] h = cc
  lex-asym (x ∷ xs) (y ∷ ys) h = ground (arith, o.asym x y, o.asym y x, lex-asym xs ys)

  lex-antisym : (xs ys : List A) → lex before xs ys ≡ false → lex before ys xs ≡ false → xs ≡ ys
  lex-antisym [] [] h k = refl
  lex-antisym [] (y ∷ ys) h k = cc
  lex-antisym (x ∷ xs) [] h k = cc
  lex-antisym (x ∷ xs) (y ∷ ys) h k = elim (Bool-cases (before x y)) [
    | inl lower ↦ absurd (cc (rw lower at h))
    | inr p ↦ elim (Bool-cases (before y x)) [
      | inl upper ↦ absurd (cc (rw upper at k))
      | inr q ↦ ap₂ ◌∷◌ (o.antisym x y p q) (lex-antisym xs ys (rw (p, q) at h) (rw (p, q) at k))
    ]
  ]

  -- What it is not to be less
  pub lex-parts :
      (x y : A) (xs ys : List A)
      → lex before (y ∷ ys) (x ∷ xs) ≡ false
      → (before y x ≡ false) × (before x y ≡ false → lex before ys xs ≡ false)
  lex-parts x y xs ys h = ground (arith, h)

  lex_trans :
      (xs ys zs : List A)
      → lex before ys xs ≡ false
      → lex before zs ys ≡ false
      → lex before zs xs ≡ false
  lex_trans [] ys [] h k = refl
  lex_trans [] [] (z ∷ zs) h k = refl
  lex_trans [] (y ∷ ys) (z ∷ zs) h k = refl
  lex_trans (x ∷ xs) [] zs h k = cc
  lex_trans (x ∷ xs) (y ∷ ys) [] h k = cc
  lex_trans (x ∷ xs) (y ∷ ys) (z ∷ zs) h k =
      let p = lex-parts x y xs ys h in
      let q = lex-parts y z ys zs k in
      let low : before z x ≡ false = o.trans x y z p.0 q.0 in
      elim (Bool-cases (before x z)) [
        | inl less ↦ rw (low, less) refl
        | inr not_less ↦
            let same : x ≡ z = o.antisym x z not_less low in
            let zy : before x y ≡ false = rw same q.0 in
            let yz : before y z ≡ false = rw (← same) p.0 in
            rw (low, not_less) (lex_trans xs ys zs (p.1 zy) (q.1 yz))
      ]

  pub lex-IsOrder : IsOrder (lex before)
  lex-IsOrder = record { asym = lex-asym; antisym = lex-antisym; trans = lex_trans }
