-- ===== src/Gateway/Receipt.antt =====
-- `handleAck` in apps/gateway/ws/chat.go: a reader confirms a message. The RPC runs on Logic's table;
-- `rpc_fails` is a fault of the call or of its database.
use go_im_system.Prelude.{◌≡◌, Bool, List, Option, none, some, ℤ}
use go_im_system.Text.{format_int}
use go_im_system.Logic.Messages.{Messages}
use go_im_system.Logic.Service.{Reply, synced, success, rpc_error, serve, ack_message}
use go_im_system.Gateway.Client.{read_receipt, send_message}
use go_im_system.Gateway.Pool.{Pool, get_client, modify}
pub mod Confirmed

pub record AckRequest : Type 0 where
  pub msg_id : ℤ
  pub sender_id : ℤ

abbrev send_receipt : Bool → ℤ → AckRequest → Pool → Pool
send_receipt take_closed user r p = elim (get_client (format_int r.sender_id) p) [
  | none ↦ p
  | some h ↦ modify h (send_message take_closed (read_receipt user r.msg_id)) p
]

abbrev after_ack : Bool → ℤ → AckRequest → Pool → List Messages × Reply → List Messages × Pool
after_ack take_closed user r p (t, rpc_error) = (t, p)
after_ack take_closed user r p (t, success) = (t, send_receipt take_closed user r p)
after_ack take_closed user r p (t, synced items) = (t, send_receipt take_closed user r p)

-- `none` is a message that cannot be parsed.
unfoldable pub handle_ack :
    Bool → Bool → ℤ → Option AckRequest → List Messages → Pool → List Messages × Pool
handle_ack rpc_fails take_closed user none t p = (t, p)
handle_ack rpc_fails take_closed user (some r) t p =
    after_ack take_closed user r p (serve rpc_fails (ack_message r.msg_id) t)
