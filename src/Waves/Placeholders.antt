-- ===== src/Waves/Placeholders.antt =====
-- The invariant through `remove_placeholders` of libsurfer/src/wave_data.rs.
use mathlib.Core.Path.{subst}
use kahuna.Common.{
  ◌≤◌, ◌≡◌, refl, sym, ap, ◌∙◌, Bool, true, false, not, ◌&&◌, ◌||◌, List, [], ◌∷◌, Option, none,
  some, arith, Bool-cases, inl, inr, ok-injective, ℕ,
}
use kahuna.Tree.{Node, Items}
use kahuna.Tree.Edit.{refs}
use kahuna.Tree.Drain.{kept, gone, deeper_than, drain_recursive_if_correct}
use kahuna.Waves.{Parts, WaveData, get, is_placeholder}
use kahuna.Waves.Edit.{remove_all, remove_placeholders}
use kahuna.Waves.Refs.{mem, Unique, has-remove_all}
use kahuna.Waves.Consistent.{Consistent}
use kahuna.Waves.Sound.{Keeper}

-- References that are divided into two parts, which share none
record Divided (gs ks all : List ℕ) : Type 0 where
  both : (r : ℕ) → mem r all ≡ (mem r gs || mem r ks)
  unique : Unique ks
  apart : (r : ℕ) → mem r gs ≡ true → mem r ks ≡ false

first-Divided :
    (x : ℕ) (gs ks all : List ℕ)
    → mem x all ≡ false
    → Divided gs ks all
    → Divided (x ∷ gs) ks (x ∷ all)
first-Divided x gs ks all new d = record {
  both = λ r. ground (arith, d.both r);
  unique = d.unique;
  apart = λ r m. ground (arith, d.both r, d.both x, d.apart r, new, m);
}

second-Divided :
    (x : ℕ) (gs ks all : List ℕ)
    → mem x all ≡ false
    → Divided gs ks all
    → Divided gs (x ∷ ks) (x ∷ all)
second-Divided x gs ks all new d = record {
  both = λ r. ground (arith, d.both r);
  unique = (ground (arith, d.both x, new), d.unique);
  apart = λ r m. ground (arith, d.both r, d.both x, d.apart r, new, m);
}

drained-Divided :
    (f : Node → Bool) (cut : Option ℕ) (items : Items)
    → Unique (refs items)
    → Divided (refs (gone f cut items)) (refs (kept f cut items)) (refs items)
unfolding kept gone
drained-Divided f cut [] u = record { both = λ r. refl; unique = tt; apart = λ r m. refl }
drained-Divided f cut (x ∷ xs) u = elim (Bool-cases (deeper_than cut x.level)) [
  | inl inside ↦
      rw (kept, gone, inside) (first-Divided x.item_ref _ _ _ u.0 (drained-Divided f cut xs u.1))
  | inr outside ↦ elim (Bool-cases (f x)) [
    | inl hit ↦
        rw (kept, gone, outside, hit)
          (first-Divided x.item_ref _ _ _ u.0 (drained-Divided f (some x.level) xs u.1))
    | inr miss ↦
        rw (kept, gone, outside, miss)
          (second-Divided x.item_ref _ _ _ u.0 (drained-Divided f none xs u.1))
  ]
]

left_in : (a g k : Bool) → a ≡ (g || k) → (g ≡ true → k ≡ false) → (not g && a) ≡ k
left_in a true k e h = sym (h refl)
left_in a false k e h = e

module _ {P : Parts} where
  pub remove_placeholders-Keeper : Keeper {P = P} remove_placeholders
  unfolding remove_placeholders
  remove_placeholders-Keeper w w' c e =
      let f = λ (node : Node). is_placeholder (get node.item_ref w.displayed_items) in
      let run = drain_recursive_if_correct w.items_tree f c.tree in
      let d = drained-Divided f none w.items_tree c.unique in
      let left : WaveData P = record w {
        items_tree = kept f none w.items_tree;
        displayed_items = remove_all (refs (gone f none w.items_tree)) w.displayed_items;
      } in
      let now : Consistent left = record {
        tree = run.2;
        unique = d.unique;
        keyed = λ r.
            has-remove_all r (refs (gone f none w.items_tree)) w.displayed_items
            ∙ ap (λ b. not (mem r (refs (gone f none w.items_tree))) && b) (c.keyed r)
            ∙ left_in _ _ _ (d.both r) (d.apart r);
        counted = λ r m. c.counted r (d.both r ∙ ground (arith, m));
      } in
      let made : left ≡ w' = ok-injective (rw run.0 at e) in
      subst (λ v. Consistent v × (w.display_item_ref_counter ≤ v.display_item_ref_counter)) made
        (now, omega arith)
