-- ===== src/Tree/Move/Correct.antt =====
-- `move_items` as a whole.
use mathlib.Core.List.{Perm}
use mathlib.Core.List.Perm
use kahuna.Common.{
  ℕ, ◌<◌, ◌≡◌, refl, sym, List, [], ◌∷◌, length, insert_all, arith, Bool-cases, inl, inr,
  append-nil, Safe, Safe-bind, ==_iff,
}
use kahuna.Tree.{Items, ItemIndex, TargetPosition, check_location}
use kahuna.Tree.Nesting.{WellFormed}
use kahuna.Tree.Location.{check_location_iff, check_location-Safe}
use kahuna.Tree.Preserve.{insert_all-WellFormed}
use kahuna.Tree.Edit.{refs}
use kahuna.Tree.Move.{
  Moving, extract_one, extract_all, move_items, dedup, sorted_back_to_front, last_out_of_range,
}
use kahuna.Tree.Move.Refs.{perm_insert_all, length-insert_all}
use kahuna.Tree.Move.Keeps.{Apart, Progress, extract_one-Progress}

module _ (items : Items) (level : ℕ) where
  abbrev Done : Moving → Type 0
  Done m = (end : ℕ) × Progress items end level m

  extract_all-Progress :
      (is : List ItemIndex) (end : ℕ) (m : Moving)
      → Apart items end is
      → Progress items end level m
      → Safe Done (extract_all items level is m)
  unfolding extract_all
  extract_all-Progress [] end m a p = (end, p)
  extract_all-Progress (i ∷ is) end m a p =
      Safe-bind (Progress items i level) Done (extract_one items level i m) _
        (extract_one-Progress p a.0.0 a.0.1) (λ m' _ p'. extract_all-Progress is i m' a.1 p')

  start-Progress :
      (before : ℕ)
      → WellFormed items
      → Progress items
          (length items)
          level
          (record { result = items; extracted = []; shifted_target = before })
  start-Progress before w = record {
    same = items;
    rest = [];
    tail = [];
    items_splits = sym (append-nil items);
    result_splits = sym (append-nil items);
    end_is = refl;
    head_le = tt;
    well_formed = w;
    block = record { nested = tt; at_least = tt; fits = tt };
    perm = Perm.refl (refs items);
    count = omega arith;
  }

-- Where no selected node lies in the subtree of another, `move_items` does not panic, and what it
-- leaves on success is well-formed and holds the items that were there.
pub move_items_keeps :
    (items : Items) (indices : List ItemIndex) (target : TargetPosition)
    → WellFormed items
    → target.level < 256
    → Apart items (length items) (dedup (sorted_back_to_front indices))
    → Safe
        (λ after. WellFormed after × Perm (refs after) (refs items))
        (move_items items indices target)
unfolding move_items
move_items_keeps items indices target w h a =
    elim (Bool-cases (last_out_of_range (length items) indices)) [
      | inl out ↦ rw out tt
      | inr fine ↦ rw fine (
          Safe-bind (Done items target.level) _ _ _
            (extract_all-Progress items target.level _ (length items) _ a
              (start-Progress items target.level target.before w))
            (λ m _ (end, p).
              let location : TargetPosition = record {
                before = m.shifted_target;
                level = target.level;
              } in
              Safe-bind (λ _. Unit {0}) _ (check_location m.result location) _
                (check_location-Safe m.result location)
                (λ _ accepted _.
                  let located = (check_location_iff location p.well_formed h).0 accepted in
                  rw ((==_iff _ _).1 (sizes m p)) (
                    insert_all-WellFormed m.shifted_target target.level m.extracted p.well_formed
                        located p.block.nested p.block.at_least p.block.fits,
                    Perm.trans (perm_insert_all m.shifted_target m.extracted m.result) p.perm,
                  ))))
    ]
  where
    sizes :
        (m : Moving) {end : ℕ}
        → Progress items end target.level m
        → length items ≡ length (insert_all m.shifted_target m.extracted m.result)
    sizes m p = omega (arith, p.count, length-insert_all m.shifted_target m.extracted m.result)
