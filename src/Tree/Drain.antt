-- ===== src/Tree/Drain.antt =====
-- `drain_recursive_if` against one pass over the vector.
use kahuna.Common.{
  ℕ, zero, suc, ◌+◌, ◌≤◌, ◌≡◌, refl, ap, ◌∙◌, Bool, true, false, List, [], ◌∷◌, ◌++◌, Option, none,
  some, ltb, length, ok, arith, append_assoc, append-nil, map-append, Bool-cases, inl, inr,
  length-append, le→ltb, get_elem?-append_of_eq, get_elem?-none,
}
use kahuna.Tree.{Node, Items, DisplayedItemRef}
use kahuna.Tree.Split.{Deeper, ClosedBy, SplitAt, split_run, root_at, subtree_end_split}
use kahuna.Tree.Nesting.{Nested, Fits, WellFormed}
use kahuna.Tree.Remove.{slice_subtree, without_subtree}
use kahuna.Tree.Edit.{refs, drain_from, drain_recursive_if}

-- Whether a node goes: it satisfies `f`, or it is deeper than a node above it that went. The
-- first argument is the level of the last node that went because of `f`.
abbrev pub deeper_than : Option ℕ → ℕ → Bool
deeper_than none level = false
deeper_than (some l) level = ltb l level

-- The nodes that stay, and the nodes that go, in order.
unfoldable pub kept : (Node → Bool) → Option ℕ → Items → Items
kept f cut [] = []
kept f cut (x ∷ xs) = elim (deeper_than cut x.level) [
  | true ↦ kept f cut xs
  | false ↦ elim (f x) [ true ↦ kept f (some x.level) xs | false ↦ x ∷ kept f none xs ]
]

unfoldable pub gone : (Node → Bool) → Option ℕ → Items → Items
gone f cut [] = []
gone f cut (x ∷ xs) = elim (deeper_than cut x.level) [
  | true ↦ x ∷ gone f cut xs
  | false ↦ elim (f x) [ true ↦ x ∷ gone f (some x.level) xs | false ↦ gone f none xs ]
]

kept_run :
    (f : Node → Bool) (l : ℕ) (inner below : Items)
    → Deeper l inner
    → ClosedBy l below
    → kept f (some l) (inner ++ below) ≡ kept f none below
unfolding kept
kept_run f l [] [] d c = refl
kept_run f l [] (x ∷ xs) d c = ground arith
kept_run f l (x ∷ inner) below d c = ground (arith, kept_run f l inner below)

gone_run :
    (f : Node → Bool) (l : ℕ) (inner below : Items)
    → Deeper l inner
    → ClosedBy l below
    → gone f (some l) (inner ++ below) ≡ inner ++ gone f none below
unfolding gone
gone_run f l [] [] d c = refl
gone_run f l [] (x ∷ xs) d c = ground arith
gone_run f l (x ∷ inner) below d c = ground (arith, gone_run f l inner below)

-- One round that takes a subtree out.
drain_hit :
    (fuel : ℕ) (f : Node → Bool) (pre : Items) (x : Node) (inner below : Items) (idx : ℕ)
    (removed : List DisplayedItemRef)
    → idx ≡ length pre
    → f x ≡ true
    → Deeper x.level inner
    → ClosedBy x.level below
    → drain_from (suc fuel) f idx (pre ++ x ∷ (inner ++ below)) removed
      ≡ drain_from fuel f idx (pre ++ below) (removed ++ refs (x ∷ inner))
unfolding drain_from
drain_hit fuel f pre x inner below idx removed e hit d c =
    rw (root_at s, drain_from)
      (rw (hit, drain_from)
        (rw (subtree_end_split s, drain_from) (rw (slice_subtree s, without_subtree s))))
  where
    s : SplitAt (pre ++ x ∷ (inner ++ below)) idx
    s = record {
      above = pre;
      root = x;
      inner = inner;
      below = below;
      splits = refl;
      at_root = e;
      deeper = d;
      closed = c;
    }

-- The nodes before the index stay, whatever `f` says of them.
drain_from_lem :
    (fuel : ℕ) (f : Node → Bool) (pre rest : Items) (idx : ℕ) (removed : List DisplayedItemRef)
    → idx ≡ length pre
    → length rest ≤ fuel
    → drain_from fuel f idx (pre ++ rest) removed
      ≡ ok (removed ++ refs (gone f none rest), pre ++ kept f none rest)
unfolding drain_from kept gone
drain_from_lem zero f pre [] idx removed e h =
    rw (append-nil pre, append-nil removed, le→ltb idx (length pre) (omega arith))
drain_from_lem zero f pre (x ∷ xs) idx removed e h = absurd (omega arith)
drain_from_lem (suc fuel) f pre [] idx removed e h =
    rw (append-nil pre, append-nil removed) (rw (get_elem?-none pre idx (omega arith), drain_from))
drain_from_lem (suc fuel) f pre (x ∷ xs) idx removed e h = elim (Bool-cases (f x)) [
  | inl hit ↦
      let r = split_run x.level xs in
      let size : length r.below ≤ fuel =
        omega (arith, ap length r.splits, length-append r.inner r.below) in
      rw (hit, r.splits)
        (drain_hit fuel f pre x r.inner r.below idx removed e hit r.deeper r.closed
          ∙ drain_from_lem fuel f pre r.below idx _ e size
          ∙ rw
              (
                gone_run f x.level r.inner r.below r.deeper r.closed,
                kept_run f x.level r.inner r.below r.deeper r.closed,
              )
              (simp (map-append, append_assoc)))
  | inr miss ↦
      rw (get_elem?-append_of_eq pre xs x idx e, drain_from)
        (rw (miss, drain_from)
          (rw (← append_assoc pre (x ∷ []) xs) (
            drain_from_lem fuel f (pre ++ x ∷ []) xs (idx + 1) removed
              (omega (arith, length-append pre (x ∷ []))) (omega arith)
            ∙ rw append_assoc)))
]

abbrev pub NoneIs : (Node → Bool) → Items → Type 0
NoneIs f [] = Unit
NoneIs f (x ∷ xs) = (f x ≡ false) × NoneIs f xs

NoneIs-kept : (f : Node → Bool) (cut : Option ℕ) (items : Items) → NoneIs f (kept f cut items)
unfolding kept
NoneIs-kept f cut [] = tt
NoneIs-kept f none (x ∷ xs) = ground (arith, NoneIs-kept f none xs, NoneIs-kept f (some x.level) xs)
NoneIs-kept f (some l) (x ∷ xs) =
    ground
      (arith, NoneIs-kept f none xs, NoneIs-kept f (some x.level) xs, NoneIs-kept f (some l) xs)

-- Where a node goes, what follows its subtree is no deeper than it.
abbrev Under : Option ℕ → ℕ → ℕ → Type 0
Under none b bound = b ≤ bound
Under (some l) b bound = l ≤ bound

Nested-kept :
    (f : Node → Bool) (cut : Option ℕ) (b bound : ℕ) (xs : Items)
    → Nested b xs
    → Under cut b bound
    → Nested bound (kept f cut xs)
unfolding kept
Nested-kept f cut b bound [] n h = tt
Nested-kept f none b bound (x ∷ xs) n h = ground (
  arith,
  Nested-kept f none (suc x.level) (suc x.level) xs,
  Nested-kept f (some x.level) (suc x.level) bound xs,
)
Nested-kept f (some l) b bound (x ∷ xs) n h = ground (
  arith,
  Nested-kept f none (suc x.level) (suc x.level) xs,
  Nested-kept f (some x.level) (suc x.level) bound xs,
  Nested-kept f (some l) (suc x.level) bound xs,
)

Fits-kept : (f : Node → Bool) (cut : Option ℕ) (xs : Items) → Fits xs → Fits (kept f cut xs)
unfolding kept
Fits-kept f cut [] h = tt
Fits-kept f none (x ∷ xs) h = ground (arith, Fits-kept f none xs, Fits-kept f (some x.level) xs)
Fits-kept f (some l) (x ∷ xs) h =
    ground (arith, Fits-kept f none xs, Fits-kept f (some x.level) xs, Fits-kept f (some l) xs)

-- The loop of `drain_recursive_if` ends, and does what one pass does: a node goes if it satisfies
-- `f` or lies in the subtree of one that goes, and all others stay in order. No node that stays
-- satisfies `f`, and the vector stays well-formed.
pub drain_recursive_if_correct :
    (items : Items) (f : Node → Bool)
    → WellFormed items
    → (drain_recursive_if items f ≡ ok (refs (gone f none items), kept f none items))
      × NoneIs f (kept f none items)
      × WellFormed (kept f none items)
unfolding drain_recursive_if
drain_recursive_if_correct items f w = (
  drain_from_lem (length items) f [] items 0 [] refl (omega arith),
  NoneIs-kept f none items,
  record {
    nested = Nested-kept f none 0 0 items w.nested (omega arith);
    fits = Fits-kept f none items w.fits;
  },
)
