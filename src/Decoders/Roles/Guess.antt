-- ===== src/Decoders/Roles/Guess.antt =====
-- `RoleBindings::guess` in libsurfer/src/decoders/mod.rs: how often a candidate is bound.
use kahuna.Common.{
  ℕ, zero, suc, ◌+◌, ◌≤◌, ◌≡◌, refl, Bool, true, false, List, [], ◌∷◌, map, Option, none, some,
  length, replicate, arith, Bool-cases, inl, inr,
}
use kahuna.References.{VariableRef}
use kahuna.Decoders.{Text}
use kahuna.Decoders.Protocols.{Protocol, roles}
use kahuna.Decoders.Roles.{
  Alias, is_bound, bind_at, Candidate, Guess, fits, after_other, claim, bound_to, bind_alias,
  bind_all, longest_first, aliases_from, guess,
}

abbrev num : Bool → ℕ
num true = 1
num false = 0

module _ {V S : Type 0} (p : VariableRef V S → Bool) where
  -- How many of the variables satisfy `p`.
  abbrev pub tally : List (VariableRef V S) → ℕ
  tally [] = 0
  tally (v ∷ vs) = num (p v) + tally vs

  abbrev pub tally_bound : List (Option (VariableRef V S)) → ℕ
  tally_bound [] = 0
  tally_bound (none ∷ ss) = tally_bound ss
  tally_bound (some v ∷ ss) = num (p v) + tally_bound ss

  abbrev tally_taken : List (Candidate V S) → ℕ
  tally_taken [] = 0
  tally_taken ((v, true) ∷ cs) = num (p v) + tally_taken cs
  tally_taken ((v, false) ∷ cs) = tally_taken cs

  abbrev tally_all : List (Candidate V S) → ℕ
  tally_all [] = 0
  tally_all ((v, t) ∷ cs) = num (p v) + tally_all cs

  -- A claim takes one more candidate, and they stay the same candidates.
  abbrev Claimed : List (Candidate V S) → Option (VariableRef V S × List (Candidate V S)) → Type 0
  Claimed cs none = Unit
  Claimed cs (some (v, ds)) =
      (tally_taken ds ≡ num (p v) + tally_taken cs) × (tally_all ds ≡ tally_all cs)

  Claimed-after_other :
      (c : Candidate V S) (cs : List (Candidate V S))
      (r : Option (VariableRef V S × List (Candidate V S)))
      → Claimed cs r
      → Claimed (c ∷ cs) (after_other c r)
  Claimed-after_other c cs none h = tt
  Claimed-after_other (u, true) cs (some (v, ds)) h = (omega (arith, h.0), omega (arith, h.1))
  Claimed-after_other (u, false) cs (some (v, ds)) h = (omega (arith, h.0), omega (arith, h.1))

  claim-Claimed : (alias : Text) (cs : List (Candidate V S)) → Claimed cs (claim alias cs)
  unfolding claim
  claim-Claimed alias [] = tt
  claim-Claimed alias ((v, true) ∷ cs) =
      Claimed-after_other (v, true) cs (claim alias cs) (claim-Claimed alias cs)
  claim-Claimed alias ((v, false) ∷ cs) = elim (Bool-cases (fits alias v)) [
    | inl here ↦ rw here (refl, refl)
    | inr later ↦
        rw later (Claimed-after_other (v, false) cs (claim alias cs) (claim-Claimed alias cs))
  ]

  tally_bound-bind_at :
      (idx : ℕ) (v : VariableRef V S) (ss : List (Option (VariableRef V S)))
      → tally_bound (bind_at idx v ss) ≤ num (p v) + tally_bound ss
  tally_bound-bind_at idx v [] = omega arith
  tally_bound-bind_at zero v (none ∷ ss) = omega arith
  tally_bound-bind_at zero v (some u ∷ ss) = omega arith
  tally_bound-bind_at (suc idx) v (none ∷ ss) = tally_bound-bind_at idx v ss
  tally_bound-bind_at (suc idx) v (some u ∷ ss) = omega (arith, tally_bound-bind_at idx v ss)

  tally_taken-bound : (cs : List (Candidate V S)) → tally_taken cs ≤ tally_all cs
  tally_taken-bound [] = omega arith
  tally_taken-bound ((v, true) ∷ cs) = omega (arith, tally_taken-bound cs)
  tally_taken-bound ((v, false) ∷ cs) = omega (arith, tally_taken-bound cs)

  -- The bound variables are among those taken, and the candidates weigh `n`.
  abbrev Fair : ℕ → Guess V S → Type 0
  Fair n g = (tally_bound g.0 ≤ tally_taken g.1) × (tally_all g.1 ≡ n)

  bound_to-Fair :
      (n idx : ℕ) (g : Guess V S) (r : Option (VariableRef V S × List (Candidate V S)))
      → Claimed g.1 r
      → Fair n g
      → Fair n (bound_to idx g r)
  bound_to-Fair n idx g none c h = h
  bound_to-Fair n idx g (some (v, ds)) c h =
      (omega (arith, h.0, c.0, tally_bound-bind_at idx v g.0), omega (arith, h.1, c.1))

  bind_alias-Fair : (n : ℕ) (a : Alias) (g : Guess V S) → Fair n g → Fair n (bind_alias a g)
  unfolding bind_alias
  bind_alias-Fair n (idx, alias) g h = elim (Bool-cases (is_bound g.0 idx)) [
    | inl bound ↦ rw (bind_alias, bound) h
    | inr free ↦
        rw (bind_alias, free) (bound_to-Fair n idx g (claim alias g.1) (claim-Claimed alias g.1) h)
  ]

  bind_all-Fair : (n : ℕ) (rest : List Alias) (g : Guess V S) → Fair n g → Fair n (bind_all rest g)
  unfolding bind_all
  bind_all-Fair n [] g h = h
  bind_all-Fair n (a ∷ rest) g h = bind_all-Fair n rest (bind_alias a g) (bind_alias-Fair n a g h)

  tally_bound-nothing : (n : ℕ) → tally_bound (replicate n none) ≡ 0
  tally_bound-nothing zero = refl
  tally_bound-nothing (suc n) = tally_bound-nothing n

  tally_all-free :
      (vs : List (VariableRef V S))
      → tally_all (map (λ (v : VariableRef V S). (v, false)) vs) ≡ tally vs
  tally_all-free [] = refl
  tally_all-free (v ∷ vs) = omega (arith, tally_all-free vs)

-- Among the variables that `guess` binds, no more satisfy `p` than among the candidates, whatever
-- `p` is: each candidate is bound to one role at most, and nothing else is bound.
pub tally_bound-guess :
    {V S : Type 0} (p : VariableRef V S → Bool) (protocol : Protocol)
    (candidates : List (VariableRef V S))
    → tally_bound p (guess protocol candidates).signals ≤ tally p candidates
unfolding guess
tally_bound-guess {V} {S} p protocol candidates =
    let free = map (λ (v : VariableRef V S). (v, false)) candidates in
    let nothing : List (Option (VariableRef V S)) = replicate (length (roles protocol)) none in
    let h =
      bind_all-Fair p (tally p candidates) (longest_first (aliases_from 0 (roles protocol)))
        (nothing, free)
        (
          omega (arith, tally_bound-nothing p (length (roles protocol))),
          tally_all-free p candidates,
        ) in
    omega (
      arith,
      h.0,
      h.1,
      tally_taken-bound p
          (bind_all (longest_first (aliases_from 0 (roles protocol))) (nothing, free)).1,
    )
