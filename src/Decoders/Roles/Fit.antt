-- ===== src/Decoders/Roles/Fit.antt =====
-- `RoleBindings::fit_to` in libsurfer/src/decoders/mod.rs.
use kahuna.Common.{
  ℕ, zero, suc, ◌-◌, ◌≡◌, refl, ap, true, false, List, [], ◌∷◌, ◌++◌, Option, none, some, ltb,
  if◌then◌else◌, length, get_elem?, take, replicate, arith, Bool-cases, inl, inr,
}
use kahuna.Decoders.Protocols.{Protocol, roles}
use kahuna.Decoders.Roles.{RoleBindings, get, fit_to}

length-replicate {ℓ} : {A : Type ℓ} (x : A) (k : ℕ) → length (replicate k x) ≡ k
length-replicate x zero = refl
length-replicate x (suc k) = ap suc (length-replicate x k)

module _ {A : Type 0} where
  abbrev resized : ℕ → List (Option A) → List (Option A)
  resized n s = take n s ++ replicate (n - length s) none

  abbrev flat : Option (Option A) → Option A
  flat none = none
  flat (some s) = s

  nothing_there : (k i : ℕ) → flat (get_elem? (replicate k none) i) ≡ none
  nothing_there zero i = refl
  nothing_there (suc k) zero = refl
  nothing_there (suc k) (suc i) = nothing_there k i

  length-resized : (n : ℕ) (s : List (Option A)) → length (resized n s) ≡ n
  length-resized zero s = let e : 0 - length s ≡ 0 = omega arith in rw e refl
  length-resized (suc n) [] =
      let e : suc n - 0 ≡ suc n = omega arith in rw e (ap suc (length-replicate none n))
  length-resized (suc n) (x ∷ s) =
      let e : suc n - suc (length s) ≡ n - length s = omega arith in
      rw e (ap suc (length-resized n s))

  flat-resized :
      (n : ℕ) (s : List (Option A)) (i : ℕ)
      → flat (get_elem? (resized n s) i) ≡ (if ltb i n then flat (get_elem? s i) else none)
  flat-resized zero s i =
      let e : 0 - length s ≡ 0 = omega arith in
      let f : ltb i 0 ≡ false = ground arith in rw (e, f) refl
  flat-resized (suc n) [] i = elim (Bool-cases (ltb i (suc n))) [
    | inl e ↦ rw e (nothing_there (suc n - 0) i)
    | inr e ↦ rw e (nothing_there (suc n - 0) i)
  ]
  flat-resized (suc n) (x ∷ s) zero = let f : ltb 0 (suc n) ≡ true = ground arith in rw f refl
  flat-resized (suc n) (x ∷ s) (suc i) =
      let e : suc n - suc (length s) ≡ n - length s = omega arith in
      let f : ltb (suc i) (suc n) ≡ ltb i n = ground arith in rw (e, f) (flat-resized n s i)

-- After `fit_to` there is an entry for each role of the protocol, a role has the binding that it
-- had, and no index beyond the roles has one.
pub get-fit_to :
    {V S : Type 0} (b : RoleBindings V S) (protocol : Protocol) (i : ℕ)
    → (length (fit_to b protocol).signals ≡ length (roles protocol))
      × (get (fit_to b protocol) i ≡ (if ltb i (length (roles protocol)) then get b i else none))
unfolding get fit_to
get-fit_to b protocol i = (
  length-resized (length (roles protocol)) b.signals,
  flat-resized (length (roles protocol)) b.signals i,
)
