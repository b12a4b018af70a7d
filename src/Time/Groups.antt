-- ===== src/Time/Groups.antt =====
-- Groups of digits: they are the text, and all but the first have the full size.
use native.Mathlib.Nat.{div-add-mod', mod-lt}
use kahuna.Common.{
  ℕ, zero, suc, ◌+◌, ◌*◌, ◌/◌, ◌%◌, ◌≤◌, ◌<◌, ◌≡◌, refl, ap, ◌∙◌, List, [], ◌∷◌, ◌++◌, length, take,
  drop, length-take, length-drop, take-append-drop, ltb, arith, Bool-cases, inl, inr,
}
use kahuna.Decoders.{Text}
use kahuna.Time.Format.{full_groups, group_n_chars}

abbrev pub concat : List Text → Text
concat [] = []
concat (t ∷ ts) = t ++ concat ts

abbrev pub AllOf : ℕ → List Text → Type 0
AllOf n [] = Unit
AllOf n (t ∷ ts) = (length t ≡ n) × AllOf n ts

-- The first group has a character and not more than the others.
abbrev pub InGroups : ℕ → List Text → Type 0
InGroups n [] = Unit
InGroups n (t ∷ ts) = (0 < length t) × (length t ≤ n) × AllOf n ts

full_groups_lem :
    (fuel k n : ℕ) (s : Text)
    → 0 < n
    → length s ≤ fuel
    → length s ≡ k * n
    → (concat (full_groups fuel n s) ≡ s) × AllOf n (full_groups fuel n s)
unfolding full_groups
full_groups_lem zero k n [] p h e = (refl, tt)
full_groups_lem zero k n (c ∷ cs) p h e = absurd (omega arith)
full_groups_lem (suc fuel) k n [] p h e = (refl, tt)
full_groups_lem (suc fuel) zero n (c ∷ cs) p h e = absurd (omega arith)
full_groups_lem (suc fuel) (suc k) n (c ∷ cs) p h e =
    let next : suc k * n ≡ k * n + n = grind arith in
    let enough : n ≤ length (c ∷ cs) = omega (arith, e, next) in
    let left : length (drop n (c ∷ cs)) ≡ k * n = omega (arith, length-drop n (c ∷ cs), e, next) in
    let rest =
      full_groups_lem fuel k n (drop n (c ∷ cs)) p (omega (arith, left, e, next, h, p)) left in
    (
      ap (take n (c ∷ cs) ++◌) rest.0 ∙ take-append-drop n (c ∷ cs),
      (length-take n (c ∷ cs) enough, rest.1),
    )

AllOf-InGroups : (n : ℕ) (ts : List Text) → 0 < n → AllOf n ts → InGroups n ts
AllOf-InGroups n [] p h = tt
AllOf-InGroups n (t ∷ ts) p h = (omega (arith, h.0), omega (arith, h.0), h.1)

-- Grouped by a number that is not 0, a text is the concatenation of its groups; all but the first have
-- that many characters, and the first has at least one and not more.
pub group_n_chars-InGroups :
    (s : Text) (n : ℕ) → 0 < n → (concat (group_n_chars s n) ≡ s) × InGroups n (group_n_chars s n)
unfolding group_n_chars
group_n_chars-InGroups s n p =
    let rem = length s % n in
    let whole = div-add-mod' (length s) n in
    let size : length (drop rem s) ≡ length s / n * n = omega (arith, length-drop rem s, whole) in
    let groups =
      full_groups_lem (length s) (length s / n) n (drop rem s) p (omega (arith, size, whole))
        size in
    elim (Bool-cases (ltb 0 rem)) [
      | inl some_left ↦
          let first : length (take rem s) ≡ rem = length-take rem s (omega (arith, whole)) in
          rw some_left (
            ap (take rem s ++◌) groups.0 ∙ take-append-drop rem s,
            (ground (arith, first, some_left), omega (arith, first, mod-lt (length s) p), groups.1),
          )
      | inr even ↦
          let z : rem ≡ 0 = ground (arith, even) in
          rw even (
            groups.0 ∙ ap (λ (i : ℕ). drop i s) z,
            AllOf-InGroups n (full_groups (length s) n (drop rem s)) p groups.1,
          )
    ]
