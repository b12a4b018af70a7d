-- ===== src/Common/Lists.antt =====
-- Lists measured and indexed by native numbers, under the library's names, and the ranges of a
-- vector that the source takes, removes and inserts.
use Prim.Native.Nat.{ℕ, zero, suc, ◌+◌, ◌-◌, ◌≤◌, ◌<◌}
use mathlib.Core.Path.{◌≡◌, refl, ap}
use mathlib.Core.List.{List, [], ◌∷◌, ◌++◌, map, append_assoc}
use mathlib.Core.Option.{Option, none, some}
use native.Mathlib.Omega.{arith}

module _ {ℓ} {A : Type ℓ} where
  abbrev pub length : List A → ℕ
  length [] = 0
  length (x ∷ xs) = suc (length xs)

  abbrev pub get_elem? : List A → ℕ → Option A
  get_elem? [] i = none
  get_elem? (x ∷ xs) zero = some x
  get_elem? (x ∷ xs) (suc i) = get_elem? xs i

  abbrev pub take : ℕ → List A → List A
  take zero xs = []
  take (suc n) [] = []
  take (suc n) (x ∷ xs) = x ∷ take n xs

  abbrev pub drop : ℕ → List A → List A
  drop zero xs = xs
  drop (suc n) [] = []
  drop (suc n) (x ∷ xs) = drop n xs

  abbrev pub replicate : ℕ → A → List A
  replicate zero a = []
  replicate (suc n) a = a ∷ replicate n a

  pub length-append : (xs ys : List A) → length (xs ++ ys) ≡ length xs + length ys
  length-append [] ys = omega arith
  length-append (x ∷ xs) ys = omega (arith, length-append xs ys)

  pub take-append-drop : (n : ℕ) (xs : List A) → take n xs ++ drop n xs ≡ xs
  take-append-drop zero xs = refl
  take-append-drop (suc n) [] = refl
  take-append-drop (suc n) (x ∷ xs) = rw (take-append-drop n xs)

  -- The index may be given by any number equal to the length.
  pub take-append_of_eq : (xs ys : List A) (n : ℕ) → n ≡ length xs → take n (xs ++ ys) ≡ xs
  take-append_of_eq [] ys zero e = refl
  take-append_of_eq [] ys (suc n) e = absurd (omega arith)
  take-append_of_eq (x ∷ xs) ys zero e = absurd (omega arith)
  take-append_of_eq (x ∷ xs) ys (suc n) e = ap (x ∷◌) (take-append_of_eq xs ys n (omega arith))

  pub drop-append_of_eq : (xs ys : List A) (n : ℕ) → n ≡ length xs → drop n (xs ++ ys) ≡ ys
  drop-append_of_eq [] ys zero e = refl
  drop-append_of_eq [] ys (suc n) e = absurd (omega arith)
  drop-append_of_eq (x ∷ xs) ys zero e = absurd (omega arith)
  drop-append_of_eq (x ∷ xs) ys (suc n) e = drop-append_of_eq xs ys n (omega arith)

  pub get_elem?-append_of_eq :
      (xs ys : List A) (y : A) (n : ℕ) → n ≡ length xs → get_elem? (xs ++ y ∷ ys) n ≡ some y
  get_elem?-append_of_eq [] ys y zero e = refl
  get_elem?-append_of_eq [] ys y (suc n) e = absurd (omega arith)
  get_elem?-append_of_eq (x ∷ xs) ys y zero e = absurd (omega arith)
  get_elem?-append_of_eq (x ∷ xs) ys y (suc n) e = get_elem?-append_of_eq xs ys y n (omega arith)

  pub get_elem?-drop : (xs : List A) (n i : ℕ) → get_elem? (drop n xs) i ≡ get_elem? xs (n + i)
  get_elem?-drop xs zero i = let e : zero + i ≡ i = omega arith in rw e
  get_elem?-drop [] (suc n) i = refl
  get_elem?-drop (x ∷ xs) (suc n) i =
      let e : suc n + i ≡ suc (n + i) = omega arith in rw e (get_elem?-drop xs n i)

  pub get_elem?-lt : (xs : List A) (i : ℕ) {x : A} → get_elem? xs i ≡ some x → i < length xs
  get_elem?-lt [] i h = cc
  get_elem?-lt (_ ∷ xs) zero h = omega arith
  get_elem?-lt (_ ∷ xs) (suc i) h = omega (arith, get_elem?-lt xs i h)

  pub get_elem?-some : (xs : List A) (i : ℕ) → i < length xs → (x : A) × (get_elem? xs i ≡ some x)
  get_elem?-some [] i h = absurd (omega arith)
  get_elem?-some (x ∷ xs) zero h = (x, refl)
  get_elem?-some (x ∷ xs) (suc i) h = get_elem?-some xs i (omega arith)

  pub get_elem?-none-length : (xs : List A) (i : ℕ) → get_elem? xs i ≡ none → length xs ≤ i
  get_elem?-none-length [] i e = omega arith
  get_elem?-none-length (x ∷ xs) zero e = cc
  get_elem?-none-length (x ∷ xs) (suc i) e = omega (arith, get_elem?-none-length xs i e)

  pub get_elem?-none : (xs : List A) (i : ℕ) → length xs ≤ i → get_elem? xs i ≡ none
  get_elem?-none [] i h = refl
  get_elem?-none (x ∷ xs) zero h = absurd (omega arith)
  get_elem?-none (x ∷ xs) (suc i) h = get_elem?-none xs i (omega arith)

module _ {ℓ} {A : Type ℓ} where
  -- `&xs[from..to]`, for a range within the vector.
  abbrev pub slice : ℕ → ℕ → List A → List A
  slice from to xs = take (to - from) (drop from xs)

  -- What `xs.drain(from..to)` leaves.
  abbrev pub without : ℕ → ℕ → List A → List A
  without from to xs = take from xs ++ drop to xs

  -- `xs.splice(at..at, ys)`; `xs.insert(at, y)` for one element.
  abbrev pub insert_all : ℕ → List A → List A → List A
  insert_all at ys xs = take at xs ++ (ys ++ drop at xs)

  -- `for x in &mut xs[from..to] { *x = f(x) }`
  abbrev pub update_range : ℕ → ℕ → (A → A) → List A → List A
  update_range from to f xs = take from xs ++ (map f (slice from to xs) ++ drop to xs)

  -- `xs.get_mut(i)`, changed by `f`; nothing out of range.
  abbrev pub update_at : ℕ → (A → A) → List A → List A
  update_at i f [] = []
  update_at zero f (x ∷ xs) = f x ∷ xs
  update_at (suc i) f (x ∷ xs) = x ∷ update_at i f xs

  pub length-take : (n : ℕ) (xs : List A) → n ≤ length xs → length (take n xs) ≡ n
  length-take zero xs h = refl
  length-take (suc n) [] h = absurd (omega arith)
  length-take (suc n) (x ∷ xs) h = ap suc (length-take n xs (omega arith))

  pub length-drop : (n : ℕ) (xs : List A) → length (drop n xs) ≡ length xs - n
  length-drop zero xs = omega arith
  length-drop (suc n) [] = omega arith
  length-drop (suc n) (x ∷ xs) = omega (arith, length-drop n xs)

  pub length-map {κ} : {B : Type κ} (f : A → B) (xs : List A) → length (map f xs) ≡ length xs
  length-map f [] = refl
  length-map f (x ∷ xs) = ap suc (length-map f xs)

  pub map-take {κ} :
      {B : Type κ} (f : A → B) (n : ℕ) (xs : List A) → map f (take n xs) ≡ take n (map f xs)
  map-take f zero xs = refl
  map-take f (suc n) [] = refl
  map-take f (suc n) (x ∷ xs) = ap (f x ∷◌) (map-take f n xs)

  pub map-drop {κ} :
      {B : Type κ} (f : A → B) (n : ℕ) (xs : List A) → map f (drop n xs) ≡ drop n (map f xs)
  map-drop f zero xs = refl
  map-drop f (suc n) [] = refl
  map-drop f (suc n) (x ∷ xs) = map-drop f n xs

  pub length-update_at : (i : ℕ) (f : A → A) (xs : List A) → length (update_at i f xs) ≡ length xs
  length-update_at i f [] = refl
  length-update_at zero f (x ∷ xs) = refl
  length-update_at (suc i) f (x ∷ xs) = ap suc (length-update_at i f xs)

-- The ranges of a vector whose parts are known.
module _ {ℓ} {A : Type ℓ} (a b c : List A) {i j : ℕ} (hi : i ≡ length a)
    (hj : j ≡ i + length b) where
  pub drop-append_append : drop j (a ++ (b ++ c)) ≡ c
  drop-append_append =
      rw (← append_assoc a b c) (drop-append_of_eq (a ++ b) c j (omega (arith, length-append a b)))

  pub slice-append : slice i j (a ++ (b ++ c)) ≡ b
  slice-append =
      rw (drop-append_of_eq a (b ++ c) i hi) (take-append_of_eq b c (j - i) (omega arith))

  pub without-append : without i j (a ++ (b ++ c)) ≡ a ++ c
  without-append = rw (take-append_of_eq a (b ++ c) i hi, drop-append_append)

  pub update_range-append : (f : A → A) → update_range i j f (a ++ (b ++ c)) ≡ a ++ (map f b ++ c)
  update_range-append f = rw (take-append_of_eq a (b ++ c) i hi, drop-append_append, slice-append)

module _ {ℓ} {A : Type ℓ} where
  pub drop-append_cons :
      (xs ys : List A) (y : A) (n : ℕ) → n ≡ suc (length xs) → drop n (xs ++ y ∷ ys) ≡ ys
  drop-append_cons [] ys y zero e = absurd (omega arith)
  drop-append_cons [] ys y (suc n) e = let z : n ≡ 0 = omega arith in rw z
  drop-append_cons (x ∷ xs) ys y zero e = absurd (omega arith)
  drop-append_cons (x ∷ xs) ys y (suc n) e = drop-append_cons xs ys y n (omega arith)

  pub insert_all-append :
      (a ys c : List A) (i : ℕ) → i ≡ length a → insert_all i ys (a ++ c) ≡ a ++ (ys ++ c)
  insert_all-append a ys c i e = rw (take-append_of_eq a c i e, drop-append_of_eq a c i e)

  pub update_at-append :
      (xs ys : List A) (y : A) (f : A → A) (n : ℕ)
      → n ≡ length xs
      → update_at n f (xs ++ y ∷ ys) ≡ xs ++ f y ∷ ys
  update_at-append [] ys y f zero e = refl
  update_at-append [] ys y f (suc n) e = absurd (omega arith)
  update_at-append (x ∷ xs) ys y f zero e = absurd (omega arith)
  update_at-append (x ∷ xs) ys y f (suc n) e =
      ap (x ∷◌) (update_at-append xs ys y f n (omega arith))

  -- Two ways to take a vector apart, the first before the second.
  pub append_meet :
      (a b c d : List A)
      → a ++ b ≡ c ++ d
      → length a ≤ length c
      → (mid : List A) × (c ≡ a ++ mid) × (b ≡ mid ++ d)
  append_meet [] b c d e h = (c, refl, e)
  append_meet (x ∷ a) b [] d e h = absurd (omega arith)
  append_meet (x ∷ a) b (y ∷ c) d e h =
      let (mid, p, q) = append_meet a b c d (cc) (omega arith) in (mid, cc, q)
