-- ===== src/Waves/Message.antt =====
-- `SystemState::update` of libsurfer/src/lib.rs for the messages of Waves.Messages, a part of the source's: a
-- message that is not in `Message` here is not modelled.
use kahuna.Common.{ℕ, Bool, true, false, List, Option, ok}
use kahuna.Decoders.{Text}
use kahuna.Decoders.Roles.{RoleBindings, DecoderSettings}
use kahuna.Tree.{DisplayedItemRef, VisibleItemIndex, Fallible}
use kahuna.Tree.Move.{MoveDir}
use kahuna.Waves.{Parts}
use kahuna.Waves.State.{System, undo, redo}
use kahuna.Waves.Messages

-- The modelled messages
pub data Message (P : Parts) : Type 0 where
  add_divider : Option Text → Option VisibleItemIndex → Message P
  add_timeline : Option VisibleItemIndex → Message P
  focus_item : VisibleItemIndex → Message P
  item_select_range : VisibleItemIndex → Message P
  item_select_all item_selection_clear unfocus_item : Message P
  set_item_selected : VisibleItemIndex → Bool → Message P
  toggle_item_selected : Option VisibleItemIndex → Message P
  move_focus : MoveDir → ℕ → Bool → Message P
  item_color_change item_background_color_change : Messages.MessageTarget → Option Text → Message P
  item_name_change : Option VisibleItemIndex → Option Text → Message P
  item_name_reset : Messages.MessageTarget → Message P
  remove_items : List DisplayedItemRef → Message P
  group_dissolve : Option DisplayedItemRef → Message P
  group_fold group_unfold group_fold_recursive group_unfold_recursive :
      Option DisplayedItemRef → Message P
  group_fold_all group_unfold_all : Message P
  decoder_configure : ℕ → DecoderSettings → RoleBindings P.VarId P.ScopeId → Message P
  remove_placeholders : Message P
  undo_message redo_message : ℕ → Message P

unfoldable pub update : {P : Parts} → Message P → System P → Fallible (System P)
update (add_divider name vidx) s = Messages.add_divider_message name vidx s
update (add_timeline vidx) s = Messages.add_timeline_message vidx s
update (focus_item idx) s = Messages.focus_item idx s
update (item_select_range to) s = Messages.item_select_range to s
update item_select_all s = Messages.item_select_all true s
update item_selection_clear s = Messages.item_select_all false s
update unfocus_item s = Messages.unfocus_item s
update (set_item_selected vidx selected) s = Messages.set_item_selected vidx selected s
update (toggle_item_selected vidx) s = Messages.toggle_item_selected vidx s
update (move_focus direction count select) s = Messages.move_focus direction count select s
update (item_color_change target color) s = Messages.item_color_change target color s
update (item_background_color_change target color) s =
    Messages.item_background_color_change target color s
update (item_name_change vidx name) s = Messages.item_name_change vidx name s
update (item_name_reset target) s = Messages.item_name_reset target s
update (remove_items items) s = Messages.remove_items items s
update (group_dissolve item) s = Messages.group_dissolve item s
update (group_fold item) s = Messages.group_fold false false item s
update (group_unfold item) s = Messages.group_fold true false item s
update (group_fold_recursive item) s = Messages.group_fold false true item s
update (group_unfold_recursive item) s = Messages.group_fold true true item s
update group_fold_all s = Messages.group_fold_all false s
update group_unfold_all s = Messages.group_fold_all true s
update (decoder_configure instance_id settings bindings) s =
    Messages.decoder_configure instance_id settings bindings s
update remove_placeholders s = Messages.remove_placeholders_message s
update (undo_message count) s = ok (undo count s)
update (redo_message count) s = ok (redo count s)
