-- ===== src/Common/Outcomes.antt =====
-- What a method returns: a value, one of the errors of its `Result`, or a panic (a slice or an
-- index out of range, a failed assertion).
use mathlib.Core.Path.{◌≡◌, refl}
use mathlib.Core.Bool.{Bool, true, false}
use mathlib.Core.Option.{Option, none, some}

pub data Outcome {ℓ κ} (E : Type κ) (A : Type ℓ) : Type (ℓ ⊔ κ) where
  ok : A → Outcome E A
  err : E → Outcome E A
  panic : Outcome E A

infixl 5 ◌>>=◌
abbrev pub ◌>>=◌ {ℓ κ ι} :
    {E : Type κ} {A : Type ℓ} {B : Type ι} → Outcome E A → (A → Outcome E B) → Outcome E B
ok a >>= f = f a
err e >>= f = err e
panic >>= f = panic

-- A chain that ends in a value passed through one.
module _ {ℓ κ ι} {E : Type κ} {A : Type ℓ} {B : Type ι} (rest : A → Outcome E B) {end : B} where
  pub passed : (o : Outcome E A) → ◌>>=◌ o rest ≡ ok end → (x : A) × (rest x ≡ ok end) × (o ≡ ok x)
  passed panic p = cc
  passed (err _) p = cc
  passed (ok x) p = (x, p, refl)

-- A chain goes on with the value of its first part.
pub chained {ℓ κ ι ο} :
    {E : Type κ} {A : Type ℓ} {B : Type ι} {C : Type ο} (o : Outcome E A) (g : A → Outcome E B)
    (k : B → Outcome E C) {b : B}
    → (o >>= g) ≡ ok b
    → (o >>= λ a. g a >>= k) ≡ k b
chained (ok a) g k e = rw e refl
chained (err x) g k e = cc
chained panic g k e = cc

-- `o.unwrap()`, or an index expression whose `get` is `o`.
abbrev pub unwrap {ℓ κ} : {E : Type κ} {A : Type ℓ} → Option A → Outcome E A
unwrap none = panic
unwrap (some a) = ok a

-- `assert!(b)`, or the bounds check of a slice.
abbrev pub require {ℓ κ} : {E : Type κ} {A : Type ℓ} → Bool → Outcome E A → Outcome E A
require true k = k
require false k = panic

pub ok-injective {ℓ κ} :
    {E : Type κ} {A : Type ℓ} {a b : A} → ◌≡◌ {A = Outcome E A} (ok a) (ok b) → a ≡ b
ok-injective h = cc

-- The outcome is no panic, and a value that it holds satisfies `P`.
abbrev pub Safe {ℓ κ} : {E : Type κ} {A : Type ℓ} → (A → Type 0) → Outcome E A → Type 0
Safe P (ok a) = P a
Safe P (err e) = Unit
Safe P panic = ⊥

pub Safe-bind {ℓ κ ι} :
    {E : Type κ} {A : Type ℓ} {B : Type ι} (P : A → Type 0) (Q : B → Type 0) (m : Outcome E A)
    (f : A → Outcome E B)
    → Safe P m
    → ((a : A) → m ≡ ok a → P a → Safe Q (f a))
    → Safe Q (m >>= f)
Safe-bind P Q (ok a) f h k = k a refl h
Safe-bind P Q (err e) f h k = tt
Safe-bind P Q panic f h k = absurd h
