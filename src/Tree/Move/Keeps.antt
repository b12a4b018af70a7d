-- ===== src/Tree/Move/Keeps.antt =====
-- What `move_items` does to a well-formed vector, where no selected node lies in the subtree of
-- another.
use mathlib.Core.List.{Perm}
use mathlib.Core.List.Perm
use mathlib.Core.Path.{subst}
use kahuna.Common.{
  ℕ, suc, ◌+◌, ◌≤◌, ◌≡◌, refl, sym, ap, ◌∙◌, List, [], ◌∷◌, ◌++◌, length, ok, arith, ltb, leb, ◌&&◌,
  Bool-cases, inl, inr, append_assoc, length-append, append_meet, Safe, Safe-bind, le→leb,
}
use kahuna.Tree.{Node, Items, ItemIndex}
use kahuna.Tree.Split.{ClosedBy, SplitAt, behind, subtree_end_split, length_split}
use kahuna.Tree.Nesting.{Nested-append_left, WellFormed}
use kahuna.Tree.Preserve.{without-WellFormed, Nested-parts}
use kahuna.Tree.Remove.{slice_subtree, without_subtree}
use kahuna.Tree.Move.{Moving, extract_one, shift_all, shift_subtree_to_level}
use kahuna.Tree.Move.Block.{
  Block, Block-append, Deeper-AtLeast, shift_all-Block, shift_all-Safe, refs-shift_all,
}
use kahuna.Tree.Move.Refs.{perm_extract, length-refs_eq}
use kahuna.Tree.Edit.{refs}

-- The indices fall, each is in the vector, and the subtree at each ends before the one above it
-- in the list starts, the first before `end`.
abbrev pub Apart : Items → ℕ → List ItemIndex → Type 0
Apart items end [] = Unit
Apart items end (i ∷ is) = ((s : SplitAt items i) × (behind s ≤ end)) × Apart items i is

-- A vector no deeper at its head than another, or at its end.
abbrev pub HeadLe : Items → Items → Type 0
HeadLe [] ys = Unit
HeadLe (x ∷ xs) [] = ⊥
HeadLe (x ∷ xs) (y ∷ ys) = x.level ≤ y.level

HeadLe-self : (xs : Items) → HeadLe xs xs
HeadLe-self [] = tt
HeadLe-self (x ∷ xs) = omega arith

HeadLe-append : (mid xs ys : Items) → HeadLe xs ys → HeadLe (mid ++ xs) (mid ++ ys)
HeadLe-append [] xs ys h = h
HeadLe-append (x ∷ mid) xs ys h = omega arith

ClosedBy-HeadLe : (level : ℕ) (xs ys : Items) → HeadLe xs ys → ClosedBy level ys → ClosedBy level xs
ClosedBy-HeadLe level [] ys h c = tt
ClosedBy-HeadLe level (x ∷ xs) [] h c = absurd h
ClosedBy-HeadLe level (x ∷ xs) (y ∷ ys) h c = omega arith

HeadLe-ClosedBy : (root : Node) (xs ys : Items) → ClosedBy root.level xs → HeadLe xs (root ∷ ys)
HeadLe-ClosedBy root [] ys c = tt
HeadLe-ClosedBy root (x ∷ xs) ys c = c

-- The loop's invariant: before `end` nothing is changed yet, and what stands behind it is no
-- deeper than what stood there.
pub record Progress (items : Items) (end level : ℕ) (m : Moving) : Type 0 where
  pub same : Items
  pub rest : Items
  pub tail : Items
  pub items_splits : items ≡ same ++ rest
  pub result_splits : m.result ≡ same ++ tail
  pub end_is : end ≡ length same
  pub head_le : HeadLe tail rest
  pub well_formed : WellFormed m.result
  pub block : Block level m.extracted
  pub perm : Perm (refs m.extracted ++ refs m.result) (refs items)
  pub count : length m.extracted + length m.result ≡ length items

-- Where a subtree of `items` ends at `end` or before, the same subtree stands in `result`.
module _ {items : Items} {end level : ℕ} {m : Moving} (p : Progress items end level m)
    {i : ItemIndex} (s : SplitAt items i) (h : behind s ≤ end) where
  inside :
      (mid : Items) × (p.same ≡ (s.above ++ s.root ∷ s.inner) ++ mid) × (s.below ≡ mid ++ p.rest)
  inside =
      append_meet (s.above ++ s.root ∷ s.inner) s.below p.same p.rest
        (append_assoc s.above (s.root ∷ s.inner) s.below ∙ sym s.splits ∙ p.items_splits)
        (omega (arith, length-append s.above (s.root ∷ s.inner), s.at_root, p.end_is))

  in_result : SplitAt m.result i
  in_result = record {
    above = s.above;
    root = s.root;
    inner = s.inner;
    below = inside.0 ++ p.tail;
    splits =
        p.result_splits
        ∙ ap (λ xs. xs ++ p.tail) inside.1
        ∙ append_assoc (s.above ++ s.root ∷ s.inner) inside.0 p.tail
        ∙ append_assoc s.above (s.root ∷ s.inner) (inside.0 ++ p.tail);
    at_root = s.at_root;
    deeper = s.deeper;
    closed =
        ClosedBy-HeadLe s.root.level (inside.0 ++ p.tail) (inside.0 ++ p.rest)
          (HeadLe-append inside.0 p.tail p.rest p.head_le) (rw inside.2 at s.closed);
  }

  subtree : Items
  subtree = s.root ∷ s.inner

  shifted_Block :
      (shift_all s.root.level level subtree).0 ≡ ok tt
      → Block level (shift_all s.root.level level subtree).1
  unfolding subtree in_result
  shifted_Block e =
      let parts = Nested-parts p.well_formed in_result in
      let b =
        shift_all-Block s.root.level level s.root.level subtree e
          (omega arith, Deeper-AtLeast s.root.level s.inner s.deeper)
          (
            omega arith,
            Nested-append_left (suc s.root.level) s.inner (inside.0 ++ p.tail) parts.1.1,
          )
          level (omega arith) in
      record { nested = b.0; at_least = b.1; fits = b.2 }

  -- One round keeps the invariant and does not panic.
  pub extract_one-Progress : Safe (Progress items i level) (extract_one items level i m)
  unfolding extract_one shift_subtree_to_level subtree in_result
  extract_one-Progress =
      rw (subtree_end_split s)
        (elim (Bool-cases (leb (i + 1) m.shifted_target && ltb m.shifted_target (behind s))) [
          | inl circular ↦ rw circular tt
          | inr straight ↦
              rw
                (
                  straight,
                  le→leb (behind s) (length m.result) fits_result,
                  slice_subtree in_result,
                  without_subtree in_result,
                )
                (Safe-bind (λ _. Unit {0}) (Progress items i level)
                  (shift_all s.root.level level subtree).0 _
                  (shift_all-Safe s.root.level level subtree)
                  (λ _ e _. record {
                    same = s.above;
                    rest = s.root ∷ (s.inner ++ s.below);
                    tail = inside.0 ++ p.tail;
                    items_splits = s.splits;
                    result_splits = refl;
                    end_is = s.at_root;
                    head_le = HeadLe-ClosedBy s.root _ _ in_result.closed;
                    well_formed = without-WellFormed p.well_formed in_result;
                    block = Block-append _ m.extracted (shifted_Block e) p.block;
                    perm =
                        Perm.trans
                          (perm_extract subtree _ m.extracted s.above (inside.0 ++ p.tail)
                            (refs-shift_all s.root.level level subtree))
                          (subst (λ xs. Perm (refs m.extracted ++ refs xs) (refs items))
                            in_result.splits p.perm);
                    count = sizes;
                  }))
        ])
    where
      fits_result : behind s ≤ length m.result
      fits_result =
          omega (arith, length_split in_result, length-append s.inner (inside.0 ++ p.tail))

      sizes :
          length ((shift_all s.root.level level subtree).1 ++ m.extracted)
            + length (s.above ++ (inside.0 ++ p.tail))
          ≡ length items
      sizes = omega (
        arith,
        p.count,
        length-append (shift_all s.root.level level subtree).1 m.extracted,
        length-refs_eq (shift_all s.root.level level subtree).1 subtree
            (refs-shift_all s.root.level level subtree),
        length-append s.above (inside.0 ++ p.tail),
        ap length in_result.splits,
        length-append s.above (subtree ++ (inside.0 ++ p.tail)),
        length-append s.inner (inside.0 ++ p.tail),
      )
