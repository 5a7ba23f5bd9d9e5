-- ===== src/Logic/Service.antt =====
-- apps/logic/service/chat_service.go: the RPC methods over the message table. A fault of the database
-- is an argument.
use go_im_system.Prelude.{ℕ, Bool, List, Option, none, some, ℤ, map}
use go_im_system.Text.{Text}
use go_im_system.Logic.Messages.{
  Messages, get_unread_messages, mark_messages_as_read, mark_message_as_read,
  mark_send_transport_delivered,
}

pub record MessageItem : Type 0 where
  pub msg_id : ℤ
  pub sender_id : ℤ
  pub group_id : ℤ
  pub content : Text
  pub seq_id : ℤ
  pub send_status : ℕ

abbrev pub item_of : Messages → MessageItem
item_of m = record {
  msg_id = m.msg_id;
  sender_id = m.sender_id;
  group_id = m.group_id;
  content = m.content;
  seq_id = m.seq_id;
  send_status = m.send_status;
}

-- The calls that the gateway makes, with the one field of their arguments.
pub data Rpc : Type 0 where
  sync_unread notify_delivered ack_message read_messages : ℤ → Rpc

pub data Reply : Type 0 where
  synced : List MessageItem → Reply
  success rpc_error : Reply

abbrev updated : List Messages → Option (List Messages) → List Messages × Reply
updated t none = (t, rpc_error)
updated t (some t') = (t', success)

unfoldable pub serve : Bool → Rpc → List Messages → List Messages × Reply
serve fault (sync_unread receiver) t = elim (get_unread_messages fault receiver t) [
  | none ↦ (t, rpc_error)
  | some ms ↦ (t, synced (map item_of ms))
]
serve fault (notify_delivered id) t = updated t (mark_send_transport_delivered fault id t)
serve fault (ack_message id) t = updated t (mark_message_as_read fault id t)
serve fault (read_messages receiver) t = updated t (mark_messages_as_read fault receiver t)
