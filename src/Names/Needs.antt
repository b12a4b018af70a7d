-- ===== src/Names/Needs.antt =====
-- What the entries need: the components that are shown of two scopes differ.
use Prim.Native.Nat.{max}
use kahuna.Common.{ℕ, ◌+◌, ◌<◌, ◌≤◌, ◌≡◌, ◌≢◌, refl, List, [], ◌∷◌, Option, some, take, arith}
use kahuna.Decoders.{Text}
use kahuna.Names.{Entry, common_prefix_len, needed_beside, next_path, with_needs}
use kahuna.Names.Prefixes.{squeeze, take-apart}
use kahuna.Names.Sorted.{Each, Pairs, Le, Follows, Le_refl}

above : (a b m n : ℕ) → a ≤ b → m ≡ b + 1 → a < max m n
above a b m n h e = ground (arith, h, e)

module _ {V S : Type 0} where
  -- The components that are taken differ.
  abbrev pub Apart : Entry V S × ℕ → Entry V S × ℕ → Type 0
  Apart r s = take r.1 r.0.0 ≢ take s.1 s.0.0

  abbrev Shorter : Entry V S → ℕ → Entry V S → Type 0
  Shorter e n g = common_prefix_len e.0 g.0 < n

  -- Behind an entry `p` that does not come before `e`
  rows-Apart :
      (e : Entry V S) (n : ℕ) (p : Entry V S) (es : List (Entry V S))
      → Le e p
      → Each (Follows p) es
      → Pairs Follows es
      → Each (Follows e) es
      → Each (Shorter e n) es
      → Each (Apart (e, n)) (with_needs (some p.0) es)
  unfolding with_needs needed_beside
  rows-Apart e n p [] le after pairs later short = tt
  rows-Apart e n p (g ∷ gs) le after pairs later short =
      let between = squeeze e.0 p.0 g.0 le after.0.0 in
      let m = needed_beside g.0 (some p.0) in
      let k = needed_beside g.0 (next_path gs) in
      let enough : common_prefix_len e.0 g.0 < max m k =
        above (common_prefix_len e.0 g.0) (common_prefix_len g.0 p.0) m k between.1 refl in
      (
        take-apart e.0 g.0 n (max m k) later.0.1 short.0 enough,
        rows-Apart e n g gs later.0.0 pairs.0 pairs.1 later.1 short.1,
      )

  -- No later entry shares more with an entry than the next one.
  next_shares :
      (e f : Entry V S) (n : ℕ) (es : List (Entry V S))
      → Le e f
      → Each (Le f) es
      → common_prefix_len e.0 f.0 < n
      → Each (Shorter e n) es
  next_shares e f n [] le h short = tt
  next_shares e f n (g ∷ gs) le h short =
      let between = squeeze e.0 f.0 g.0 le h.0 in
      (omega (arith, between.0, short), next_shares e f n gs le h.1 short)

  Follows-Le : (f : Entry V S) (es : List (Entry V S)) → Each (Follows f) es → Each (Le f) es
  Follows-Le f [] h = tt
  Follows-Le f (g ∷ gs) h = (h.0.0, Follows-Le f gs h.1)

  all-Shorter :
      (e : Entry V S) (previous : Option (List Text)) (es : List (Entry V S))
      → Each (Follows e) es
      → Pairs Follows es
      → Each (Shorter e (max (needed_beside e.0 previous) (needed_beside e.0 (next_path es)))) es
  unfolding needed_beside
  all-Shorter e previous [] h pairs = tt
  all-Shorter e previous (f ∷ fs) h pairs =
      let m = needed_beside e.0 previous in
      let k = needed_beside e.0 (some f.0) in
      let short : common_prefix_len e.0 f.0 < max m k = ground arith in
      (short, next_shares e f (max m k) fs h.0.0 (Follows-Le f fs pairs.0) short)

  pub with_needs-Apart :
      (previous : Option (List Text)) (es : List (Entry V S))
      → Pairs Follows es
      → Pairs Apart (with_needs previous es)
  unfolding with_needs
  with_needs-Apart previous [] h = tt
  with_needs-Apart previous (e ∷ es) h =
      let n = max (needed_beside e.0 previous) (needed_beside e.0 (next_path es)) in
      (
        rows-Apart e n e es (Le_refl e) h.0 h.1 h.0 (all-Shorter e previous es h.0 h.1),
        with_needs-Apart (some e.0) es h.1,
      )

  pub with_needs-Each :
      (P : Entry V S → Type 0) (previous : Option (List Text)) (es : List (Entry V S))
      → Each P es
      → Each (λ r. P r.0) (with_needs previous es)
  unfolding with_needs
  with_needs-Each P previous [] h = tt
  with_needs-Each P previous (e ∷ es) h = (h.0, with_needs-Each P (some e.0) es h.1)
