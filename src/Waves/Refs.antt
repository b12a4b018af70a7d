-- ===== src/Waves/Refs.antt =====
-- References in lists and as the keys of a map.
use kahuna.Common.{
  ℕ, ◌+◌, ◌<◌, ◌≡◌, refl, ap, ◌∙◌, Bool, true, false, not, ◌&&◌, ◌||◌, List, [], ◌∷◌, ◌++◌, ◌==◌,
  arith, length, update_at, get_elem?, some, none, zero, suc,
}
use kahuna.Tree.{Node, Items}
use kahuna.Tree.Edit.{refs}
use kahuna.Tree.Correct.{levels}
use kahuna.Tree.Visible.{update_visible_from, next_after}
use kahuna.Waves.{Map, get, remove, insert}
use kahuna.Waves.Edit.{is_some, remove_all, position_of}

abbrev pub mem : ℕ → List ℕ → Bool
mem r [] = false
mem r (x ∷ xs) = x == r || mem r xs

abbrev pub Unique : List ℕ → Type 0
Unique [] = Unit
Unique (x ∷ xs) = (mem x xs ≡ false) × Unique xs

pub mem-append : (r : ℕ) (xs ys : List ℕ) → mem r (xs ++ ys) ≡ (mem r xs || mem r ys)
mem-append r [] ys = refl
mem-append r (x ∷ xs) ys = ground (arith, mem-append r xs ys)

pub Unique-append_left : (xs ys : List ℕ) → Unique (xs ++ ys) → Unique xs
Unique-append_left [] ys u = tt
Unique-append_left (x ∷ xs) ys u =
    (ground (arith, mem-append x xs ys, u.0), Unique-append_left xs ys u.1)

pub Unique-append_right : (xs ys : List ℕ) → Unique (xs ++ ys) → Unique ys
Unique-append_right [] ys u = u
Unique-append_right (x ∷ xs) ys u = Unique-append_right xs ys u.1

pub Unique-apart : (r : ℕ) (xs ys : List ℕ) → Unique (xs ++ ys) → mem r xs ≡ true → mem r ys ≡ false
Unique-apart r [] ys u m = cc
Unique-apart r (x ∷ xs) ys u m = ground (arith, mem-append x xs ys, u.0, Unique-apart r xs ys u.1)

pub Unique-append :
    (xs ys : List ℕ)
    → Unique xs
    → Unique ys
    → ((r : ℕ) → mem r xs ≡ true → mem r ys ≡ false)
    → Unique (xs ++ ys)
Unique-append [] ys u v h = v
Unique-append (x ∷ xs) ys u v h = (
  ground (arith, mem-append x xs ys, u.0, h x),
  Unique-append xs ys u.1 v (λ r m. h r (ground arith)),
)

-- What is left of a list without a part of it.
pub Unique-without : (xs ys zs : List ℕ) → Unique (xs ++ (ys ++ zs)) → Unique (xs ++ zs)
Unique-without xs ys zs u =
    Unique-append xs zs (Unique-append_left xs (ys ++ zs) u)
      (Unique-append_right ys zs (Unique-append_right xs (ys ++ zs) u))
      (λ r m. ground (arith, Unique-apart r xs (ys ++ zs) u m, mem-append r ys zs))

pub mem-without :
    (r : ℕ) (xs ys zs : List ℕ)
    → Unique (xs ++ (ys ++ zs))
    → (not (mem r ys) && mem r (xs ++ (ys ++ zs))) ≡ mem r (xs ++ zs)
mem-without r xs ys zs u = ground (
  arith,
  mem-append r xs (ys ++ zs),
  mem-append r ys zs,
  mem-append r xs zs,
  Unique-apart r xs (ys ++ zs) u,
  Unique-apart r ys zs (Unique-append_right xs (ys ++ zs) u),
)

module _ {A : Type 0} where
  abbrev pub has : ℕ → Map A → Bool
  has r m = is_some (get r m)

  pub has-remove : (r k : ℕ) (m : Map A) → has r (remove k m) ≡ (not (k == r) && has r m)
  unfolding get remove
  has-remove r k [] = ground arith
  has-remove r k ((j, a) ∷ m) = ground (arith, has-remove r k m)

  pub has-insert : (r k : ℕ) (a : A) (m : Map A) → has r (insert k a m) ≡ (k == r || has r m)
  unfolding insert get
  has-insert r k a m = ground (arith, has-remove r k m)

  pub has-remove_all :
      (r : ℕ) (ks : List ℕ) (m : Map A) → has r (remove_all ks m) ≡ (not (mem r ks) && has r m)
  unfolding remove_all
  has-remove_all r [] m = ground arith
  has-remove_all r (k ∷ ks) m = ground (arith, has-remove_all r ks (remove k m), has-remove r k m)

-- A change of nodes that keeps their references and levels keeps those of the vector.
abbrev pub Keeps : (Node → Node) → Type 0
Keeps f = (n : Node) → ((f n).item_ref ≡ n.item_ref) × ((f n).level ≡ n.level)

abbrev pub Same : Items → Items → Type 0
Same xs ys = (refs xs ≡ refs ys) × (levels xs ≡ levels ys)

pub update_at-Same : (i : ℕ) (f : Node → Node) (xs : Items) → Keeps f → Same (update_at i f xs) xs
update_at-Same i f [] k = (refl, refl)
update_at-Same zero f (x ∷ xs) k = (rw ((k x).0) refl, rw ((k x).1) refl)
update_at-Same (suc i) f (x ∷ xs) k =
    (ap (x.item_ref ∷◌) (update_at-Same i f xs k).0, ap (x.level ∷◌) (update_at-Same i f xs k).1)

pub update_visible_from-Same :
    (fuel : ℕ) (f : ℕ → Node → Node) (xs : Items) (idx vidx : ℕ)
    → ((v : ℕ) → Keeps (f v))
    → Same (update_visible_from fuel f xs idx vidx) xs
unfolding update_visible_from
update_visible_from-Same zero f xs idx vidx k = (refl, refl)
update_visible_from-Same (suc fuel) f xs idx vidx k =
    elim (get_elem? xs idx)
      as (λ o.
        Same
          (elim o [
            | none ↦ xs
            | some n ↦
                update_visible_from fuel f (update_at idx (f vidx) xs) (next_after n xs idx)
                  (vidx + 1)
          ])
          xs) [
            | none ↦ (refl, refl)
            | some n ↦
                let ih =
                  update_visible_from-Same fuel f (update_at idx (f vidx) xs) (next_after n xs idx)
                    (vidx + 1) k in
                let at = update_at-Same idx (f vidx) xs (k vidx) in (ih.0 ∙ at.0, ih.1 ∙ at.1)
          ]

-- A reference that is found stands at the index.
pub position_of-lt : (r : ℕ) (xs : Items) (i : ℕ) → position_of r xs ≡ some i → i < length xs
unfolding position_of
position_of-lt r [] i e = cc
position_of-lt r (x ∷ xs) zero e = omega arith
position_of-lt r (x ∷ xs) (suc i) e = ground (arith, position_of-lt r xs i)

pub position_of-at :
    (r : ℕ) (xs : Items) (i : ℕ) (n : Node)
    → position_of r xs ≡ some i
    → get_elem? xs i ≡ some n
    → n.item_ref ≡ r
unfolding position_of
position_of-at r [] i n e g = cc
position_of-at r (x ∷ xs) zero n e g = ground arith
position_of-at r (x ∷ xs) (suc i) n e g = ground (arith, position_of-at r xs i n)

pub position_of-none : (r : ℕ) (xs : Items) → position_of r xs ≡ none → mem r (refs xs) ≡ false
unfolding position_of
position_of-none r [] e = refl
position_of-none r (x ∷ xs) e = ground (arith, position_of-none r xs)
