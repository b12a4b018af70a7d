-- ===== src/Waves/Changes.antt =====
-- The invariant of the displayed items and the messages that change one item or some of them.
use mathlib.Core.Path.{subst}
use kahuna.Common.{
  ℕ, ◌≡◌, refl, ◌∙◌, true, List, [], ◌∷◌, Option, none, some, ok, arith, ok-injective, update_at,
}
use kahuna.Tree.{Node, VisibleItemIndex, Fallible}
use kahuna.Tree.Visible.{xselect_visible_range, to_displayed, get_visible}
use kahuna.Waves.{Parts, WaveData, DisplayedItem, Map}
use kahuna.Waves.Refs.{has, update_at-Same}
use kahuna.Waves.Consistent.{Consistent}
use kahuna.Waves.Messages
use kahuna.Waves.Messages.{
  or_else, toggled, modify, modify_each, modify_selected, modify_visible, modify_target,
  iter_visible_selected,
}
use kahuna.Waves.Sound.{Keeper}
use kahuna.Waves.Marks.{Kept, tree-Kept, items-Kept, has-modify, xselect_visible_range-Same}

module _ {P : Parts} where
  abbrev Ends : Fallible (WaveData P) → WaveData P → Type 0
  Ends o w' = o ≡ ok w'

  unchanged :
      (w w' : WaveData P)
      → Consistent w
      → ◌≡◌ {A = Fallible (WaveData P)} (ok w) (ok w')
      → Kept w w'
  unchanged w w' c e = subst (Kept w) (ok-injective e) (c, omega arith)

  has-modify_each :
      (f : DisplayedItem P → DisplayedItem P) (ns : List Node) (m : Map (DisplayedItem P)) (r : ℕ)
      → has r (modify_each f ns m) ≡ has r m
  has-modify_each f [] m r = refl
  has-modify_each f (n ∷ ns) m r =
      has-modify_each f ns (modify f n.item_ref m) r ∙ has-modify f n.item_ref r m

  pub modify_selected-Kept :
      (f : DisplayedItem P → DisplayedItem P) (w : WaveData P)
      → Consistent w
      → Kept w (modify_selected f w)
  modify_selected-Kept f w c =
      items-Kept w _ c (has-modify_each f (iter_visible_selected w.items_tree) w.displayed_items)

  pub modify_visible-Kept :
      (f : DisplayedItem P → DisplayedItem P) (o : Option Node) (w : WaveData P)
      → Consistent w
      → Kept w (modify_visible f o w)
  modify_visible-Kept f none w c = (c, omega arith)
  modify_visible-Kept f (some n) w c =
      items-Kept w _ c (λ r. has-modify f n.item_ref r w.displayed_items)

  pub modify_target-Kept :
      (f : DisplayedItem P → DisplayedItem P) (t : Messages.MessageTarget) (w : WaveData P)
      → Consistent w
      → Kept w (modify_target f t w)
  modify_target-Kept f (Messages.MessageTarget.explicit v) w c =
      modify_visible-Kept f (get_visible w.items_tree v) w c
  modify_target-Kept f Messages.MessageTarget.current_selection w c =
      elim w.focused_item
        as (λ o. Kept w (elim o [
          | none ↦ modify_selected f w
          | some focus ↦ elim (get_visible w.items_tree focus) [
            | none ↦ w
            | some node ↦ modify_selected f (modify_visible f (some node) w)
          ]
        ])) [
          | none ↦ modify_selected-Kept f w c
          | some focus ↦
              elim (get_visible w.items_tree focus)
                as (λ o. Kept w (elim o [
                  | none ↦ w
                  | some node ↦ modify_selected f (modify_visible f (some node) w)
                ])) [
                  | none ↦ (c, omega arith)
                  | some node ↦
                      modify_selected-Kept f (modify_visible f (some node) w)
                        (modify_visible-Kept f (some node) w c).0
                ]
        ]

  pub item_select_range-Keeper :
      (to : VisibleItemIndex)
      → Keeper {P = P} (λ w. elim w.focused_item [
        | none ↦ ok w
        | some from ↦ ok (record w { items_tree = xselect_visible_range w.items_tree from to true })
      ])
  item_select_range-Keeper to w w' c e =
      elim w.focused_item
          as (λ o.
            Ends
              (elim o [
                | none ↦ ok w
                | some from ↦
                    ok (record w { items_tree = xselect_visible_range w.items_tree from to true })
              ])
              w'
            → Kept w w') [
              | none ↦ unchanged w w' c
              | some from ↦ λ e. subst (Kept w) (ok-injective e) (
                  tree-Kept w _ w.focused_item c
                    (xselect_visible_range-Same w.items_tree from to true))
            ]
        e

  pub toggle_item_selected-Keeper :
      (vidx : Option VisibleItemIndex)
      → Keeper {P = P} (λ w. elim (or_else vidx w.focused_item) [
        | none ↦ ok w
        | some v ↦ elim (to_displayed w.items_tree v) [
          | none ↦ ok w
          | some item ↦ ok (record w { items_tree = update_at item toggled w.items_tree })
        ]
      ])
  toggle_item_selected-Keeper vidx w w' c e =
      elim (or_else vidx w.focused_item)
          as (λ o.
            Ends
              (elim o [
                | none ↦ ok w
                | some v ↦ elim (to_displayed w.items_tree v) [
                  | none ↦ ok w
                  | some item ↦ ok (record w { items_tree = update_at item toggled w.items_tree })
                ]
              ])
              w'
            → Kept w w') [
              | none ↦ unchanged w w' c
              | some v ↦
                  elim (to_displayed w.items_tree v)
                    as (λ o.
                      Ends
                        (elim o [
                          | none ↦ ok w
                          | some item ↦
                              ok (record w { items_tree = update_at item toggled w.items_tree })
                        ])
                        w'
                      → Kept w w') [
                        | none ↦ unchanged w w' c
                        | some item ↦ λ e. subst (Kept w) (ok-injective e) (
                            tree-Kept w _ w.focused_item c
                              (update_at-Same item toggled w.items_tree (λ n. (refl, refl))))
                      ]
            ]
        e

  pub item_name_change-Keeper :
      (vidx : Option VisibleItemIndex) (f : DisplayedItem P → DisplayedItem P)
      → Keeper {P = P} (λ w. elim (or_else vidx w.focused_item) [
        | none ↦ ok w
        | some v ↦ ok (modify_visible f (get_visible w.items_tree v) w)
      ])
  item_name_change-Keeper vidx f w w' c e =
      elim (or_else vidx w.focused_item)
          as (λ o.
            Ends
              (elim o [
                | none ↦ ok w
                | some v ↦ ok (modify_visible f (get_visible w.items_tree v) w)
              ])
              w'
            → Kept w w') [
              | none ↦ unchanged w w' c
              | some v ↦ λ e.
                  subst (Kept w) (ok-injective e)
                    (modify_visible-Kept f (get_visible w.items_tree v) w c)
            ]
        e
