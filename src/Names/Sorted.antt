-- ===== src/Names/Sorted.antt =====
-- The sorted entries, and what they need: libsurfer/src/variable_name_type.rs.
use kahuna.Common.{◌≡◌, ◌≢◌, sym, false, List, [], ◌∷◌, Bool-cases, inl, inr, map}
use kahuna.Names.{Entry, scope_before, insert_entry, sort_entries}
use kahuna.Names.Prefixes.{scope-IsOrder}

abbrev pub Each : {A : Type 0} → (A → Type 0) → List A → Type 0
Each P [] = Unit
Each P (x ∷ xs) = P x × Each P xs

-- Every element and every later one
abbrev pub Pairs : {A : Type 0} → (A → A → Type 0) → List A → Type 0
Pairs R [] = Unit
Pairs R (x ∷ xs) = Each (R x) xs × Pairs R xs

pub Each-map :
    {A B : Type 0} (P : B → Type 0) (Q : A → Type 0) (f : A → B)
    → ((x : A) → Q x → P (f x))
    → (xs : List A) → Each Q xs
    → Each P (map f xs)
Each-map P Q f h [] e = tt
Each-map P Q f h (x ∷ xs) e = (h x e.0, Each-map P Q f h xs e.1)

pub Each-imp :
    {A : Type 0} (P Q : A → Type 0) → ((x : A) → Q x → P x) → (xs : List A) → Each Q xs → Each P xs
Each-imp P Q h [] e = tt
Each-imp P Q h (x ∷ xs) e = (h x e.0, Each-imp P Q h xs e.1)

module _ {V S : Type 0} where
  abbrev pub Differ : Entry V S → Entry V S → Type 0
  Differ e f = e.0 ≢ f.0

  abbrev pub Le : Entry V S → Entry V S → Type 0
  Le e f = scope_before f.0 e.0 ≡ false

  -- In order, and different
  abbrev pub Follows : Entry V S → Entry V S → Type 0
  Follows e f = Le e f × Differ e f

  pub Le_refl : (e : Entry V S) → Le e e
  Le_refl e = elim (Bool-cases (scope_before e.0 e.0)) [
    | inl less ↦ scope-IsOrder.asym e.0 e.0 less
    | inr not_less ↦ not_less
  ]

  insert_entry-Each :
      (P : Entry V S → Type 0) (e : Entry V S) (es : List (Entry V S))
      → P e
      → Each P es
      → Each P (insert_entry e es)
  unfolding insert_entry
  insert_entry-Each P e [] p h = (p, tt)
  insert_entry-Each P e (f ∷ fs) p h = elim (Bool-cases (scope_before f.0 e.0)) [
    | inl less ↦ rw less (h.0, insert_entry-Each P e fs p h.1)
    | inr other ↦ rw other (p, h)
  ]

  pub sort_entries-Each :
      (P : Entry V S → Type 0) (es : List (Entry V S)) → Each P es → Each P (sort_entries es)
  unfolding sort_entries
  sort_entries-Each P [] h = tt
  sort_entries-Each P (e ∷ es) h =
      insert_entry-Each P e (sort_entries es) h.0 (sort_entries-Each P es h.1)

  pub Follows-all :
      (e f : Entry V S) (fs : List (Entry V S))
      → Le e f
      → Each (Follows f) fs
      → Each (Differ e) fs
      → Each (Follows e) fs
  Follows-all e f [] le h d = tt
  Follows-all e f (g ∷ gs) le h d =
      ((scope-IsOrder.trans e.0 f.0 g.0 le h.0.0, d.0), Follows-all e f gs le h.1 d.1)

  insert_entry-Follows :
      (e : Entry V S) (es : List (Entry V S))
      → Each (Differ e) es
      → Pairs Follows es
      → Pairs Follows (insert_entry e es)
  unfolding insert_entry
  insert_entry-Follows e [] d h = (tt, tt)
  insert_entry-Follows e (f ∷ fs) d h = elim (Bool-cases (scope_before f.0 e.0)) [
    | inl less ↦
        let fe : Follows f e = (scope-IsOrder.asym f.0 e.0 less, λ q. d.0 (sym q)) in
        rw less (insert_entry-Each (Follows f) e fs fe h.0, insert_entry-Follows e fs d.1 h.1)
    | inr other ↦ rw other (((other, d.0), Follows-all e f fs other h.0 d.1), h)
  ]

  pub sort_entries-Follows :
      (es : List (Entry V S)) → Pairs Differ es → Pairs Follows (sort_entries es)
  unfolding sort_entries
  sort_entries-Follows [] h = tt
  sort_entries-Follows (e ∷ es) h =
      insert_entry-Follows e (sort_entries es) (sort_entries-Each (Differ e) es h.0)
        (sort_entries-Follows es h.1)
