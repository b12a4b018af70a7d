-- ===== src/Waves/Marks.antt =====
-- The invariant of the displayed items and changes of marks and of single items.
use mathlib.Core.Path.{subst}
use kahuna.Common.{
  ℕ, ◌≤◌, ◌≡◌, refl, sym, ◌∙◌, Bool, true, false, [], ◌∷◌, map, Option, none, some, length, ok,
  arith, ok-injective, update_at,
}
use kahuna.Tree.{Node, Items, VisibleItemIndex}
use kahuna.Tree.Edit
use kahuna.Tree.Edit.{refs, fold, deselect, marked, raise}
use kahuna.Tree.Correct.{WellFormed-levels}
use kahuna.Tree.Visible.{xselect, xselect_all_visible, xselect_visible_range, select, to_displayed}
use kahuna.Waves.{Parts, WaveData, DisplayedItem, Map, get}
use kahuna.Waves.Refs.{has, Same, Keeps, update_at-Same, update_visible_from-Same}
use kahuna.Waves.Consistent.{Consistent}
use kahuna.Waves.Messages.{modify, selected_too}
use kahuna.Waves.Sound.{Keeper, Consistent-same}

pub has-modify : {A : Type 0} (f : A → A) (k r : ℕ) (m : Map A) → has r (modify f k m) ≡ has r m
unfolding get modify
has-modify f k r [] = refl
has-modify f k r ((j, a) ∷ m) = ground (arith, has-modify f k r m)

pub xselect-Same : (items : Items) (v : ℕ) (b : Bool) → Same (xselect items v b) items
unfolding xselect
xselect-Same items v b =
    elim (to_displayed items v)
      as (λ o. Same (elim o [ none ↦ items | some i ↦ update_at i (select b) items ]) items) [
        | none ↦ (refl, refl)
        | some i ↦ update_at-Same i (select b) items (λ n. (refl, refl))
      ]

pub xselect_all_visible-Same : (items : Items) (b : Bool) → Same (xselect_all_visible items b) items
unfolding xselect_all_visible
xselect_all_visible-Same items b =
    update_visible_from-Same (length items) (λ _. select b) items 0 0 (λ v n. (refl, refl))

pub xselect_visible_range-Same :
    (items : Items) (from to : ℕ) (b : Bool) → Same (xselect_visible_range items from to b) items
unfolding xselect_visible_range
xselect_visible_range-Same items from to b =
    update_visible_from-Same (length items) _ items 0 0 (λ v n. (ground arith, ground arith))

map-Same : (f : Node → Node) (xs : Items) → Keeps f → Same (map f xs) xs
map-Same f [] k = (refl, refl)
map-Same f (x ∷ xs) k = (ground (arith, k x, map-Same f xs k), ground (arith, k x, map-Same f xs k))

pub xfold_all-Same : (items : Items) (b : Bool) → Same (Edit.xfold_all items b) items
unfolding Edit.xfold_all
xfold_all-Same items b = map-Same _ items (λ n. (ground arith, ground arith))

pub selected_too-Same :
    (b : Bool) (focus : Option VisibleItemIndex) (new : VisibleItemIndex) (items : Items)
    → Same (selected_too b focus new items) items
selected_too-Same false focus new items = (refl, refl)
selected_too-Same true none new items = xselect-Same items new true
selected_too-Same true (some old) new items =
    let one = xselect-Same items old true in
    let two = xselect-Same (xselect items old true) new true in (two.0 ∙ one.0, two.1 ∙ one.1)

module _ {P : Parts} where
  abbrev pub Kept : WaveData P → WaveData P → Type 0
  Kept w w' = Consistent w' × (w.display_item_ref_counter ≤ w'.display_item_ref_counter)

  -- The same tree but for its marks, and the same keys
  pub tree-Kept :
      (w : WaveData P) (items : Items) (focus : Option VisibleItemIndex)
      → Consistent w
      → Same items w.items_tree
      → Kept w (record w { items_tree = items; focused_item = focus })
  tree-Kept w items focus c s = (
    Consistent-same w _ c s.0 (WellFormed-levels w.items_tree items (sym s.1) c.tree) (λ r. refl)
        (omega arith),
    omega arith,
  )

  pub items-Kept :
      (w : WaveData P) (m : Map (DisplayedItem P))
      → Consistent w
      → ((r : ℕ) → has r m ≡ has r w.displayed_items)
      → Kept w (record w { displayed_items = m })
  items-Kept w m c h = (Consistent-same w _ c refl c.tree h (omega arith), omega arith)

  -- A handler without a panic, given by its result
  pub result-Keeper :
      (g : WaveData P → WaveData P)
      → ((w : WaveData P) → Consistent w → Kept w (g w))
      → Keeper (λ w. ok (g w))
  result-Keeper g h w w' c e = subst (Kept w) (ok-injective e) (h w c)
