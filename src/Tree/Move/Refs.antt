-- ===== src/Tree/Move/Refs.antt =====
-- What `move_items` does to the references of the nodes.
use mathlib.Core.List.{Perm, perm_append_comm}
use mathlib.Core.List.Perm
use mathlib.Core.Path.{subst}
use kahuna.Common.{
  ℕ, ◌+◌, ◌≡◌, sym, ap, ◌∙◌, List, ◌++◌, map-append, append_assoc, length, length-map,
  length-append, arith, take, drop, insert_all, take-append-drop,
}
use kahuna.Tree.{Items}
use kahuna.Tree.Edit.{refs}

perm_swap {ℓ} : {A : Type ℓ} (a b c : List A) → Perm (a ++ (b ++ c)) (b ++ (a ++ c))
perm_swap a b c =
    rw (← append_assoc a b c, ← append_assoc b a c) (Perm.append_right c (perm_append_comm a b))

-- A part goes from the middle of one vector to the front of another.
pub perm_extract :
    (sub sub' extracted above below : Items)
    → refs sub' ≡ refs sub
    → Perm
        (refs (sub' ++ extracted) ++ refs (above ++ below))
        (refs extracted ++ refs (above ++ (sub ++ below)))
perm_extract sub sub' extracted above below e =
    simp (map-append, append_assoc, e)
      (Perm.trans (perm_swap (refs sub) (refs extracted) (refs above ++ refs below))
        (Perm.append_left (refs extracted) (perm_swap (refs sub) (refs above) (refs below))))

pub perm_insert_all :
    (n : ℕ) (block items : Items)
    → Perm (refs (insert_all n block items)) (refs block ++ refs items)
perm_insert_all n block items =
    subst (λ xs. Perm (refs (insert_all n block items)) (refs block ++ refs xs))
      (take-append-drop n items)
      (simp map-append (perm_swap (refs (take n items)) (refs block) (refs (drop n items))))

pub length-refs_eq : (xs ys : Items) → refs xs ≡ refs ys → length xs ≡ length ys
length-refs_eq xs ys e = sym (length-map _ xs) ∙ ap length e ∙ length-map _ ys

pub length-insert_all :
    (n : ℕ) (block items : Items) → length (insert_all n block items) ≡ length block + length items
length-insert_all n block items = omega (
  arith,
  length-append (take n items) (block ++ drop n items),
  length-append block (drop n items),
  length-append (take n items) (drop n items),
  ap length (take-append-drop n items),
)
