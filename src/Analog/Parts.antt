-- ===== src/Analog/Parts.antt =====
-- The summary of a part of a list: parts that meet or overlap.
use kahuna.Common.{
  ℕ, zero, suc, ◌+◌, ◌-◌, ◌≤◌, ◌≡◌, refl, sym, ap, ◌∙◌, List, [], ◌∷◌, ◌++◌, Option, length, take,
  drop, length-drop, arith,
}
use kahuna.Analog.{Float, MinMax}
use kahuna.Analog.Summaries.{IsFloat, joined, summary, joined_assoc, joined_idem, summary-append}

module _ {A : Type 0} where
  pub take_nil : (n : ℕ) → take {A = A} n [] ≡ []
  take_nil zero = refl
  take_nil (suc n) = refl

  drop_nil : (n : ℕ) → drop {A = A} n [] ≡ []
  drop_nil zero = refl
  drop_nil (suc n) = refl

  take-add : (m n : ℕ) (xs : List A) → take (m + n) xs ≡ take m xs ++ take n (drop m xs)
  take-add zero n xs = let e : 0 + n ≡ n = omega arith in rw e refl
  take-add (suc m) n [] = rw (take_nil (suc m + n), take_nil n) refl
  take-add (suc m) n (x ∷ xs) =
      let e : suc m + n ≡ suc (m + n) = omega arith in rw e (ap (x ∷◌) (take-add m n xs))

  pub drop-drop : (m n : ℕ) (xs : List A) → drop n (drop m xs) ≡ drop (m + n) xs
  drop-drop zero n xs = let e : 0 + n ≡ n = omega arith in rw e refl
  drop-drop (suc m) n [] = rw (drop_nil n, drop_nil (suc m + n)) refl
  drop-drop (suc m) n (x ∷ xs) =
      let e : suc m + n ≡ suc (m + n) = omega arith in rw e (drop-drop m n xs)

  pub take_all : (n : ℕ) (xs : List A) → length xs ≤ n → take n xs ≡ xs
  take_all zero [] h = refl
  take_all zero (x ∷ xs) h = absurd (omega arith)
  take_all (suc n) [] h = refl
  take_all (suc n) (x ∷ xs) h = ap (x ∷◌) (take_all n xs (omega arith))

  pub drop_all : (n : ℕ) (xs : List A) → length xs ≤ n → drop n xs ≡ []
  drop_all zero [] h = refl
  drop_all zero (x ∷ xs) h = absurd (omega arith)
  drop_all (suc n) [] h = refl
  drop_all (suc n) (x ∷ xs) h = drop_all n xs (omega arith)

module _ {W : Type 0} ⦃f : Float W⦄ where
  -- The values from index `a` up to, without it, index `b`; an end past the list is its end.
  abbrev pub part : List W → ℕ → ℕ → Option (MinMax W)
  part xs a b = summary (take (b - a) (drop a xs))

module _ {W : Type 0} ⦃f : Float W⦄ (laws : IsFloat W) (xs : List W) where
  pub part_split : (a b c : ℕ) → a ≤ b → b ≤ c → part xs a c ≡ joined (part xs a b) (part xs b c)
  part_split a b c h k =
      let e : c - a ≡ (b - a) + (c - b) = omega arith in
      let d : a + (b - a) ≡ b = omega arith in
      rw e (
        ap summary (take-add (b - a) (c - b) (drop a xs))
        ∙ ap (λ (ys : List W). summary (take (b - a) (drop a xs) ++ take (c - b) ys))
            (drop-drop a (b - a) xs ∙ ap (λ (n : ℕ). drop n xs) d)
        ∙ summary-append laws (take (b - a) (drop a xs)) (take (c - b) (drop b xs)))

  overlap : (u v w : Option (MinMax W)) → joined (joined u v) (joined v w) ≡ joined u (joined v w)
  overlap u v w =
      joined_assoc laws u v (joined v w)
      ∙ ap (joined u) (
          sym (joined_assoc laws v v w)
          ∙ ap (λ (m : Option (MinMax W)). joined m w) (joined_idem laws v))

  -- Parts that cover a part, and may overlap.
  pub part_cover :
      (a b b' c : ℕ) → a ≤ b → b ≤ b' → b' ≤ c → joined (part xs a b') (part xs b c) ≡ part xs a c
  part_cover a b b' c h k l =
      let u = part xs a b in
      let v = part xs b b' in
      let w = part xs b' c in
      ap (λ (m : Option (MinMax W)). joined m (part xs b c)) (part_split a b b' h k)
      ∙ ap (joined (joined u v)) (part_split b b' c k l)
      ∙ overlap u v w
      ∙ ap (joined u) (sym (part_split b b' c k l))
      ∙ sym (part_split a b c h (omega arith))

  -- Where a part ends behind the list, the exact end does not matter.
  pub part_end :
      (a b c : ℕ) → length xs ≤ b → length xs ≤ c → a ≤ b → a ≤ c → part xs a b ≡ part xs a c
  part_end a b c h k i j = ap summary (
      take_all (b - a) (drop a xs) (omega (arith, length-drop a xs))
      ∙ sym (take_all (c - a) (drop a xs) (omega (arith, length-drop a xs))))
