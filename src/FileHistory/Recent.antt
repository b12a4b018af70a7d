-- ===== src/FileHistory/Recent.antt =====
-- The history after `add`.
use mathlib.Core.List.{Memᴰ}
use mathlib.Core.List.Memᴰ
use kahuna.Common.{
  ℕ, zero, suc, ◌≤◌, ◌<◌, ◌≡◌, refl, Bool, false, ◌||◌, List, [], ◌∷◌, some, ◌==◌, if◌then◌else◌,
  length, take, get_elem?, arith, Bool-cases, inl, inr,
}
use kahuna.Decoders.{Text}
use kahuna.FileHistory.{FileHistory, truncate_to_limit, is_connection_entry, retain_others, add}

-- The paths of a history, by the equality of paths
module _ (same_path : Text → Text → Bool) where
  abbrev pub Absent : Text → List Text → Type 0
  Absent t [] = Unit
  Absent t (u ∷ us) = (same_path u t ≡ false) × Absent t us

  -- No file is listed twice.
  abbrev pub Distinct : List Text → Type 0
  Distinct [] = Unit
  Distinct (t ∷ ts) = Absent t ts × Distinct ts

  -- There are no more entries than the limit allows, and each one differs from the others.
  pub record IsValid (h : FileHistory) : Type 0 where
    pub bounded : length h.files ≤ h.max_entries
    pub distinct : Distinct h.files

  retain_others-Absent :
      (file : Text) (ps : List Text) → Absent file (retain_others same_path file ps)
  unfolding retain_others
  retain_others-Absent file [] = tt
  retain_others-Absent file (p ∷ ps) = elim (Bool-cases (same_path p file)) [
    | inl e ↦ rw (retain_others, e) (retain_others-Absent file ps)
    | inr e ↦ rw (retain_others, e) (e, retain_others-Absent file ps)
  ]

  Absent-retain_others :
      (t file : Text) (ps : List Text) → Absent t ps → Absent t (retain_others same_path file ps)
  unfolding retain_others
  Absent-retain_others t file [] a = tt
  Absent-retain_others t file (p ∷ ps) a = elim (Bool-cases (same_path p file)) [
    | inl e ↦ rw (retain_others, e) (Absent-retain_others t file ps a.1)
    | inr e ↦ rw (retain_others, e) (a.0, Absent-retain_others t file ps a.1)
  ]

  Distinct-retain_others :
      (file : Text) (ps : List Text) → Distinct ps → Distinct (retain_others same_path file ps)
  unfolding retain_others
  Distinct-retain_others file [] d = tt
  Distinct-retain_others file (p ∷ ps) d = elim (Bool-cases (same_path p file)) [
    | inl e ↦ rw (retain_others, e) (Distinct-retain_others file ps d.1)
    | inr e ↦
        rw (retain_others, e)
          (Absent-retain_others p file ps d.0, Distinct-retain_others file ps d.1)
  ]

  Absent-take : (t : Text) (n : ℕ) (ps : List Text) → Absent t ps → Absent t (take n ps)
  Absent-take t zero ps a = tt
  Absent-take t (suc n) [] a = tt
  Absent-take t (suc n) (p ∷ ps) a = (a.0, Absent-take t n ps a.1)

  Distinct-take : (n : ℕ) (ps : List Text) → Distinct ps → Distinct (take n ps)
  Distinct-take zero ps d = tt
  Distinct-take (suc n) [] d = tt
  Distinct-take (suc n) (p ∷ ps) d = (Absent-take p n ps d.0, Distinct-take n ps d.1)

  take-bound : (n : ℕ) (ps : List Text) → length (take n ps) ≤ n
  take-bound zero ps = omega arith
  take-bound (suc n) [] = omega arith
  take-bound (suc n) (p ∷ ps) = omega (arith, take-bound n ps)

  take-first : (n : ℕ) (t : Text) (ps : List Text) → 0 < n → get_elem? (take n (t ∷ ps)) 0 ≡ some t
  take-first zero t ps h = absurd (omega arith)
  take-first (suc n) t ps h = refl

  truncated-IsValid : (h : FileHistory) → Distinct h.files → IsValid (truncate_to_limit h)
  unfolding truncate_to_limit
  truncated-IsValid h d = record {
    bounded = take-bound h.max_entries h.files;
    distinct = Distinct-take h.max_entries h.files d;
  }

  retain_others-Memᴰ :
      (file p : Text) (ps : List Text)
      → Memᴰ p ps
      → same_path p file ≡ false
      → Memᴰ p (retain_others same_path file ps)
  unfolding retain_others
  retain_others-Memᴰ file p [] m other = absurd (Memᴰ.not-nil m)
  retain_others-Memᴰ file p (q ∷ ps) (Memᴰ.head e) other =
      let kept : same_path q file ≡ false = rw (← e) other in rw kept (Memᴰ.head e)
  retain_others-Memᴰ file p (q ∷ ps) (Memᴰ.tail m) other =
      let rest = retain_others-Memᴰ file p ps m other in
      elim (Bool-cases (same_path q file)) [ inl e ↦ rw e rest | inr e ↦ rw e (Memᴰ.tail rest) ]

  length-retain_others :
      (file : Text) (ps : List Text) → length (retain_others same_path file ps) ≤ length ps
  unfolding retain_others
  length-retain_others file [] = omega arith
  length-retain_others file (q ∷ ps) =
      let rest = length-retain_others file ps in
      elim (Bool-cases (same_path q file)) [
        | inl e ↦ rw e (omega (arith, rest))
        | inr e ↦ rw e (omega (arith, rest))
      ]

  Memᴰ-take : (p : Text) (n : ℕ) (ps : List Text) → length ps ≤ n → Memᴰ p ps → Memᴰ p (take n ps)
  Memᴰ-take p n [] h m = absurd (Memᴰ.not-nil m)
  Memᴰ-take p zero (q ∷ ps) h m = absurd (omega (arith, h))
  Memᴰ-take p (suc n) (q ∷ ps) h (Memᴰ.head e) = Memᴰ.head e
  Memᴰ-take p (suc n) (q ∷ ps) h (Memᴰ.tail m) = Memᴰ.tail (Memᴰ-take p n ps (omega (arith, h)) m)

  -- `add` keeps the history within its limit and without a file that is listed twice. The file comes
  -- first, unless it is a connection or the limit is 0: then the first entry stays. While there is
  -- room no other file is lost. Files are compared by the equality of paths.
  pub add-IsValid :
      (file : Text) (h : FileHistory)
      → IsValid h
      → IsValid (add same_path file h)
        × (get_elem? (add same_path file h).files 0 ≡ (
            if h.max_entries == 0 || is_connection_entry file
            then get_elem? h.files 0
            else some file))
        × ((p : Text)
            → Memᴰ p h.files
            → same_path p file ≡ false
            → length h.files < h.max_entries
            → Memᴰ p (add same_path file h).files)
  unfolding add truncate_to_limit
  add-IsValid file h v = elim (Bool-cases (h.max_entries == 0 || is_connection_entry file)) [
    | inl refused ↦ rw (add, refused) (v, refl, λ p m other room. m)
    | inr added ↦
        let others = retain_others same_path file h.files in
        rw (add, added)
          (
            truncated-IsValid (record h { files = file ∷ others })
                (retain_others-Absent file h.files, Distinct-retain_others file h.files v.distinct),
            take-first h.max_entries file others (ground (arith, added)),
            λ p m other room.
                Memᴰ-take p h.max_entries (file ∷ others)
                  (omega (arith, length-retain_others file h.files, room))
                  (Memᴰ.tail (retain_others-Memᴰ file p h.files m other)),
          )
  ]
