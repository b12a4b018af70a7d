-- ===== src/Analog/Summaries.antt =====
-- The least and the greatest value of a list, by the laws of `f64::min` and `f64::max`.
use kahuna.Common.{
  ◌≡◌, refl, sym, ap, ◌∙◌, Bool, ◌||◌, List, [], ◌∷◌, ◌++◌, Option, none, some, unwrap, arith,
}
use kahuna.Analog.{Float, MinMax, single, combine, fold_onto, from_slice}

-- A NaN gives way to the other argument. Two zeros of different sign count as one value.
pub record IsFloat (W : Type 0) ⦃f : Float W⦄ : Type 0 where
  pub min_assoc : (a b c : W) → f.min_of (f.min_of a b) c ≡ f.min_of a (f.min_of b c)
  pub min_comm : (a b : W) → f.min_of a b ≡ f.min_of b a
  pub min_idem : (a : W) → f.min_of a a ≡ a
  pub max_assoc : (a b c : W) → f.max_of (f.max_of a b) c ≡ f.max_of a (f.max_of b c)
  pub max_comm : (a b : W) → f.max_of a b ≡ f.max_of b a
  pub max_idem : (a : W) → f.max_of a a ≡ a

or_assoc : (a b c : Bool) → ((a || b) || c) ≡ (a || (b || c))
or_assoc a b c = ground arith

or_comm : (a b : Bool) → (a || b) ≡ (b || a)
or_comm a b = ground arith

or_idem : (a : Bool) → (a || a) ≡ a
or_idem a = ground arith

module _ {W : Type 0} ⦃f : Float W⦄ where
  abbrev pub joined : Option (MinMax W) → Option (MinMax W) → Option (MinMax W)
  joined none b = b
  joined (some a) none = some a
  joined (some a) (some b) = some (combine a b)

  -- What is known of a list of values; nothing of none.
  abbrev pub summary : List W → Option (MinMax W)
  summary [] = none
  summary (v ∷ vs) = joined (some (single v)) (summary vs)

module _ {W : Type 0} ⦃f : Float W⦄ (laws : IsFloat W) where
  combine_assoc : (a b c : MinMax W) → combine (combine a b) c ≡ combine a (combine b c)
  unfolding combine
  combine_assoc a b c = λ i. record {
    least = laws.min_assoc a.least b.least c.least i;
    greatest = laws.max_assoc a.greatest b.greatest c.greatest i;
    has_non_finite = or_assoc a.has_non_finite b.has_non_finite c.has_non_finite i;
  }

  combine_comm : (a b : MinMax W) → combine a b ≡ combine b a
  unfolding combine
  combine_comm a b = λ i. record {
    least = laws.min_comm a.least b.least i;
    greatest = laws.max_comm a.greatest b.greatest i;
    has_non_finite = or_comm a.has_non_finite b.has_non_finite i;
  }

  combine_idem : (a : MinMax W) → combine a a ≡ a
  unfolding combine
  combine_idem a = λ i. record {
    least = laws.min_idem a.least i;
    greatest = laws.max_idem a.greatest i;
    has_non_finite = or_idem a.has_non_finite i;
  }

  pub joined_assoc : (a b c : Option (MinMax W)) → joined (joined a b) c ≡ joined a (joined b c)
  joined_assoc none b c = refl
  joined_assoc (some a) none c = refl
  joined_assoc (some a) (some b) none = refl
  joined_assoc (some a) (some b) (some c) = ap some (combine_assoc a b c)

  pub joined_comm : (a b : Option (MinMax W)) → joined a b ≡ joined b a
  joined_comm none none = refl
  joined_comm none (some b) = refl
  joined_comm (some a) none = refl
  joined_comm (some a) (some b) = ap some (combine_comm a b)

  pub joined_idem : (a : Option (MinMax W)) → joined a a ≡ a
  joined_idem none = refl
  joined_idem (some a) = ap some (combine_idem a)

  pub summary-append : (us vs : List W) → summary (us ++ vs) ≡ joined (summary us) (summary vs)
  summary-append [] vs = refl
  summary-append (u ∷ us) vs =
      rw (summary-append us vs) (sym (joined_assoc (some (single u)) (summary us) (summary vs)))

  fold_onto_lem :
      (acc : MinMax W) (vs : List W) → some (fold_onto acc vs) ≡ joined (some acc) (summary vs)
  fold_onto_lem acc [] = refl
  fold_onto_lem acc (v ∷ vs) =
      fold_onto_lem (combine acc (single v)) vs
      ∙ joined_assoc (some acc) (some (single v)) (summary vs)

  -- The first value is combined twice, which changes nothing.
  pub from_slice_lem : (xs : List W) → from_slice xs ≡ unwrap (summary xs)
  unfolding from_slice
  from_slice_lem [] = refl
  from_slice_lem (v ∷ vs) = ap unwrap (
      fold_onto_lem (single v) (v ∷ vs)
      ∙ sym (joined_assoc (some (single v)) (some (single v)) (summary vs))
      ∙ ap (λ (m : Option (MinMax W)). joined m (summary vs)) (joined_idem (some (single v))))
