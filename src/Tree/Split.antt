-- ===== src/Tree/Split.antt =====
-- The subtree of a node in the flat vector: the run of deeper nodes behind it.
use kahuna.Common.{
  ℕ, zero, suc, ◌+◌, ◌≤◌, ◌<◌, ◌≡◌, refl, ap, [], ◌∷◌, ◌++◌, some, ltb, length, get_elem?, drop, ok,
  arith, length-append, Bool-cases, inl, inr, drop-append_cons, get_elem?-append_of_eq,
}
use kahuna.Tree.{Node, Items, ItemIndex, find_le, offset_or, subtree_end}

abbrev pub Deeper : ℕ → Items → Type 0
Deeper level [] = Unit
Deeper level (x ∷ xs) = (level < x.level) × Deeper level xs

-- The vector ends here, or goes on with a node that is no deeper than `level`.
abbrev pub ClosedBy : ℕ → Items → Type 0
ClosedBy level [] = Unit
ClosedBy level (x ∷ xs) = x.level ≤ level

-- The vector around the subtree of the node at `idx`.
pub record SplitAt (items : Items) (idx : ItemIndex) : Type 0 where
  pub above : Items
  pub root : Node
  pub inner : Items
  pub below : Items
  pub splits : items ≡ above ++ root ∷ (inner ++ below)
  pub at_root : idx ≡ length above
  pub deeper : Deeper root.level inner
  pub closed : ClosedBy root.level below

pub record SplitRun (level : ℕ) (xs : Items) : Type 0 where
  pub inner : Items
  pub below : Items
  pub splits : xs ≡ inner ++ below
  pub deeper : Deeper level inner
  pub closed : ClosedBy level below

pub split_run : (level : ℕ) (xs : Items) → SplitRun level xs
split_run level [] = record { inner = []; below = []; splits = refl; deeper = tt; closed = tt }
split_run level (x ∷ xs) = elim (Bool-cases (ltb level x.level)) [
  | inl d ↦
      let r = split_run level xs in
      record {
        inner = x ∷ r.inner;
        below = r.below;
        splits = ap (x ∷◌) r.splits;
        deeper = (ground arith, r.deeper);
        closed = r.closed;
      }
  | inr s ↦ record { inner = []; below = x ∷ xs; splits = refl; deeper = tt; closed = ground arith }
]

pub split_at : (items : Items) (idx : ItemIndex) → idx < length items → SplitAt items idx
split_at [] idx h = absurd (omega arith)
split_at (x ∷ xs) zero h =
    let r = split_run x.level xs in
    record {
      above = [];
      root = x;
      inner = r.inner;
      below = r.below;
      splits = ap (x ∷◌) r.splits;
      at_root = refl;
      deeper = r.deeper;
      closed = r.closed;
    }
split_at (x ∷ xs) (suc idx) h =
    let r = split_at xs idx (omega arith) in
    record {
      above = x ∷ r.above;
      root = r.root;
      inner = r.inner;
      below = r.below;
      splits = ap (x ∷◌) r.splits;
      at_root = ap suc r.at_root;
      deeper = r.deeper;
      closed = r.closed;
    }

find_le_run :
    (level : ℕ) (inner below : Items) (base : ℕ)
    → Deeper level inner
    → ClosedBy level below
    → offset_or (find_le level (inner ++ below)) base (base + length (inner ++ below))
      ≡ base + length inner
unfolding find_le
find_le_run level [] [] base d c = omega arith
find_le_run level [] (x ∷ xs) base d c = ground arith
find_le_run level (x ∷ inner) below base d c =
    ground (arith, find_le_run level inner below (base + 1))

module _ {items : Items} {idx : ItemIndex} (s : SplitAt items idx) where
  open s use {above, root, inner, below, splits, at_root, deeper, closed}

  -- The index behind the subtree.
  abbrev pub behind : ℕ
  behind = idx + 1 + length inner

  pub length_split : length items ≡ idx + 1 + length (inner ++ below)
  length_split = rw splits (omega (arith, at_root, length-append above (root ∷ (inner ++ below))))

  pub root_at : get_elem? items idx ≡ some root
  root_at = rw splits (get_elem?-append_of_eq above (inner ++ below) root idx at_root)

  pub drop_root : drop (idx + 1) items ≡ inner ++ below
  drop_root =
      rw splits (drop-append_cons above (inner ++ below) root (idx + 1) (omega (arith, at_root)))

  -- `subtree_end` is the index behind the run of deeper nodes.
  pub subtree_end_split : subtree_end items idx ≡ ok behind
  unfolding subtree_end
  subtree_end_split =
      rw (root_at, drop_root, length_split)
        (ap ok (find_le_run root.level inner below (idx + 1) deeper closed))
