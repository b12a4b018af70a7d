-- ===== src/Waves/Invariant.antt =====
-- The invariant of the displayed items and of the saved canvases through `update`.
use mathlib.Core.Path.{subst}
use kahuna.Common.{
  ℕ, ◌≡◌, refl, Bool, true, false, none, some, length, ok, ◌>>=◌, ltb, if◌then◌else◌, arith, ◌==◌,
  passed, ok-injective,
}
use kahuna.Tree.{VisibleItemIndex, Fallible}
use kahuna.Tree.Edit
use kahuna.Tree.Move.{MoveDir}
use kahuna.Tree.Visible.{get_visible, iter_visible}
use kahuna.Waves.{Parts, WaveData}
use kahuna.Waves.Rows.{set_color, set_background_color, set_name, configure_decoder, configured}
use kahuna.Waves.Consistent.{Consistent}
use kahuna.Waves.State.{System}
use kahuna.Waves.Messages
use kahuna.Waves.Messages.{
  on_waves, or_else, toggled, modify, modify_each, modify_selected, modify_visible, modify_target,
  iter_visible_selected, focus_at_root, selected_too, moved_to, focus_moved,
}
use kahuna.Waves.Message.{
  Message, update, add_divider, add_timeline, focus_item, item_select_range, item_select_all,
  item_selection_clear, unfocus_item, set_item_selected, toggle_item_selected, move_focus,
  item_color_change, item_background_color_change, item_name_change, item_name_reset, remove_items,
  group_dissolve, group_fold, group_unfold, group_fold_recursive, group_unfold_recursive,
  group_fold_all, group_unfold_all, decoder_configure, remove_placeholders, undo_message,
  redo_message,
}
use kahuna.Waves.Sound.{
  Keeper, Sound, has-map_values, on_waves-Sound, save_current_canvas-Sound, undo-Sound, redo-Sound,
}
use kahuna.Waves.Marks.{
  Kept, tree-Kept, items-Kept, result-Keeper, xselect-Same, xselect_all_visible-Same,
  xfold_all-Same, selected_too-Same,
}
use kahuna.Waves.Insertion.{add_divider-Keeper, add_timeline-Keeper}
use kahuna.Waves.Changes.{
  modify_selected-Kept, modify_visible-Kept, modify_target-Kept, item_select_range-Keeper,
  toggle_item_selected-Keeper, item_name_change-Keeper,
}
use kahuna.Waves.Placeholders.{remove_placeholders-Keeper}
use kahuna.Waves.Groups.{remove_each-Keeper, group_dissolve-Keeper, group_fold-Keeper}

-- GroupFoldAll and GroupUnfoldAll
fold_all_at : {P : Parts} → Bool → WaveData P → Fallible (WaveData P)
unfolding get_visible
fold_all_at open_it w = do
  focus ← focus_at_root open_it w.items_tree w.focused_item
  ok (record w { items_tree = Edit.xfold_all w.items_tree open_it; focused_item = focus })

module _ {P : Parts} where
  fold_all-Keeper : (open_it : Bool) → Keeper {P = P} (fold_all_at open_it)
  unfolding fold_all_at
  fold_all-Keeper open_it w w' c e =
      let (focus, last, _) = passed _ (focus_at_root open_it w.items_tree w.focused_item) e in
      subst (Kept w) (ok-injective last)
        (tree-Kept w _ focus c (xfold_all-Same w.items_tree open_it))

  move_focus-Kept :
      (direction : MoveDir) (count : ℕ) (b : Bool) (w : WaveData P)
      → Consistent w
      → Kept w (focus_moved direction count b w)
  move_focus-Kept direction count b w c =
      elim (length (iter_visible w.items_tree) == 0)
        as (λ t. Kept w (
          if t then w else record w {
            items_tree =
                selected_too b w.focused_item
                  (moved_to direction w.focused_item count (length (iter_visible w.items_tree)))
                  w.items_tree;
            focused_item =
                some (moved_to direction w.focused_item count (length (iter_visible w.items_tree)));
          })) [
            | true ↦ (c, omega arith)
            | false ↦ tree-Kept w _ _ c (selected_too-Same b w.focused_item _ w.items_tree)
          ]

  focus_item-Kept :
      (idx : VisibleItemIndex) (w : WaveData P)
      → Consistent w
      → Kept w
          (if ltb idx (length w.displayed_items) then record w { focused_item = some idx } else w)
  focus_item-Kept idx w c =
      elim (ltb idx (length w.displayed_items))
        as (λ t. Kept w (if t then record w { focused_item = some idx } else w)) [
          | true ↦ tree-Kept w w.items_tree (some idx) c (refl, refl)
          | false ↦ (c, omega arith)
        ]

  -- Whatever one of the modelled messages does, if it does not panic, the tree stays well-formed and holds
  -- each reference once, exactly those that have an item, and none above the counter; and the same
  -- holds of every state that Undo and Redo can restore.
  pub update-Sound : (m : Message P) (s s' : System P) → Sound s → update m s ≡ ok s' → Sound s'
  unfolding update fold_all_at configure_decoder Messages.add_divider_message
      Messages.add_timeline_message Messages.focus_item Messages.item_select_range
      Messages.item_select_all Messages.set_item_selected Messages.toggle_item_selected
      Messages.unfocus_item Messages.move_focus Messages.item_color_change
      Messages.item_background_color_change Messages.item_name_change Messages.item_name_reset
      Messages.remove_items Messages.group_dissolve Messages.group_fold Messages.group_fold_all
      Messages.decoder_configure Messages.remove_placeholders_message
  update-Sound (add_divider name vidx) s s' h e =
      on_waves-Sound _ _ s' (add_divider-Keeper name vidx) (save_current_canvas-Sound _ s h) e
  update-Sound (add_timeline vidx) s s' h e =
      on_waves-Sound _ _ s' (add_timeline-Keeper vidx) (save_current_canvas-Sound _ s h) e
  update-Sound (focus_item idx) s s' h e =
      on_waves-Sound _ s s' (result-Keeper _ (focus_item-Kept idx)) h e
  update-Sound (item_select_range to) s s' h e =
      on_waves-Sound _ s s' (item_select_range-Keeper to) h e
  update-Sound item_select_all s s' h e =
      on_waves-Sound _ s s'
        (result-Keeper _
          (λ w c. tree-Kept w _ w.focused_item c (xselect_all_visible-Same w.items_tree true)))
        h e
  update-Sound item_selection_clear s s' h e =
      on_waves-Sound _ s s'
        (result-Keeper _
          (λ w c. tree-Kept w _ w.focused_item c (xselect_all_visible-Same w.items_tree false)))
        h e
  update-Sound unfocus_item s s' h e =
      on_waves-Sound _ s s' (result-Keeper _ (λ w c. tree-Kept w w.items_tree none c (refl, refl)))
        h e
  update-Sound (set_item_selected v b) s s' h e =
      on_waves-Sound _ s s'
        (result-Keeper _ (λ w c. tree-Kept w _ w.focused_item c (xselect-Same w.items_tree v b))) h
        e
  update-Sound (toggle_item_selected v) s s' h e =
      on_waves-Sound _ s s' (toggle_item_selected-Keeper v) h e
  update-Sound (move_focus direction count b) s s' h e =
      on_waves-Sound _ s s' (result-Keeper _ (move_focus-Kept direction count b)) h e
  update-Sound (item_color_change t color) s s' h e =
      on_waves-Sound _ _ s' (result-Keeper _ (modify_target-Kept (set_color color) t))
        (save_current_canvas-Sound _ s h) e
  update-Sound (item_background_color_change t color) s s' h e =
      on_waves-Sound _ _ s' (result-Keeper _ (modify_target-Kept (set_background_color color) t))
        (save_current_canvas-Sound _ s h) e
  update-Sound (item_name_change v name) s s' h e =
      on_waves-Sound _ _ s' (item_name_change-Keeper v (set_name name))
        (save_current_canvas-Sound _ s h) e
  update-Sound (item_name_reset (Messages.MessageTarget.explicit v)) s s' h e =
      on_waves-Sound _ _ s'
        (result-Keeper _ (λ w. modify_visible-Kept (set_name none) (get_visible w.items_tree v) w))
        (save_current_canvas-Sound _ s h) e
  update-Sound (item_name_reset Messages.MessageTarget.current_selection) s s' h e =
      on_waves-Sound _ _ s' (result-Keeper _ (modify_selected-Kept (set_name none)))
        (save_current_canvas-Sound _ s h) e
  update-Sound (remove_items items) s s' h e =
      on_waves-Sound _ _ s' (remove_each-Keeper _) (save_current_canvas-Sound _ s h) e
  update-Sound (group_dissolve item) s s' h e =
      on_waves-Sound _ _ s' (group_dissolve-Keeper item) (save_current_canvas-Sound _ s h) e
  update-Sound (group_fold item) s s' h e =
      on_waves-Sound _ _ s' (group_fold-Keeper false false item) (save_current_canvas-Sound _ s h) e
  update-Sound (group_unfold item) s s' h e =
      on_waves-Sound _ _ s' (group_fold-Keeper true false item) (save_current_canvas-Sound _ s h) e
  update-Sound (group_fold_recursive item) s s' h e =
      on_waves-Sound _ _ s' (group_fold-Keeper false true item) (save_current_canvas-Sound _ s h) e
  update-Sound (group_unfold_recursive item) s s' h e =
      on_waves-Sound _ _ s' (group_fold-Keeper true true item) (save_current_canvas-Sound _ s h) e
  update-Sound group_fold_all s s' h e =
      on_waves-Sound _ _ s' (fold_all-Keeper false) (save_current_canvas-Sound _ s h) e
  update-Sound group_unfold_all s s' h e =
      on_waves-Sound _ _ s' (fold_all-Keeper true) (save_current_canvas-Sound _ s h) e
  update-Sound (decoder_configure i settings bindings) s s' h e =
      on_waves-Sound _ _ s'
        (result-Keeper _ (λ w c.
          items-Kept w _ c
            (λ r. has-map_values (configured i settings bindings) r w.displayed_items)))
        (save_current_canvas-Sound _ s h) e
  update-Sound remove_placeholders s s' h e = on_waves-Sound _ s s' remove_placeholders-Keeper h e
  update-Sound (undo_message n) s s' h e = subst Sound (ok-injective e) (undo-Sound n s h)
  update-Sound (redo_message n) s s' h e = subst Sound (ok-injective e) (redo-Sound n s h)
