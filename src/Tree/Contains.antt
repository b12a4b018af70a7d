-- ===== src/Tree/Contains.antt =====
-- `subtree_contains`, against the subtree that it is named for.
use kahuna.Common.{◌<◌, ◌≡◌, true, ltb, leb, length, ok, arith}
use kahuna.Tree.{Items, ItemIndex, subtree_contains}
use kahuna.Tree.Split.{split_at, behind, subtree_end_split}

-- For a candidate in the vector, `subtree_contains` answers whether it stands at the root or
-- behind it: where the subtree of the root ends has no influence.
pub subtree_contains_lem :
    (items : Items) (root candidate : ItemIndex)
    → candidate < length items
    → subtree_contains items root candidate ≡ ok (leb root candidate)
unfolding subtree_contains
subtree_contains_lem items root candidate h =
    let s = split_at items candidate h in
    let below : ltb candidate (behind s) ≡ true = ground arith in
    rw (subtree_end_split s, below) (ground arith)
