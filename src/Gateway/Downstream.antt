-- ===== src/Gateway/Downstream.antt =====
-- apps/gateway/ws/mq_consumer.go: one delivery from Logic to a connection of this gateway.
use go_im_system.Prelude.{
  ℕ, ◌≡◌, Bool, true, false, List, [], ◌∷◌, ◌++◌, Option, none, some, ℤ, if◌then◌else◌,
}
use go_im_system.Text.{Text, format_int}
use go_im_system.Wire.{DownPayload, Json, Settle, ack, nack_drop}
use go_im_system.Gateway.Client.{Frame, chat_push, send_message}
use go_im_system.Gateway.Pool.{Pool, get_client, modify}
pub mod Push

-- `marshalChatPush`: the frame's fields, in the order of the constructor. It cannot fail on these.
abbrev pub push_of : DownPayload → Frame
push_of p = chat_push p.msg_id p.seq_id p.sender_id p.group_id p.content

-- The confirmations handed to `onTransportDelivered`, (sender, message), oldest first.
pub record Consumer : Type 0 where
  pub pool : Pool
  pub callback : Bool  -- `onTransportDelivered` is set
  pub notified : List (ℤ × ℤ)

abbrev notify : DownPayload → Consumer → Consumer
notify p c =
    if c.callback then record c { notified = c.notified ++ (p.sender_id, p.msg_id) ∷ [] } else c

unfoldable pub deliver_down : Bool → DownPayload → Consumer → Settle × Consumer
deliver_down take_closed p c = elim (get_client (format_int p.receiver_id) c.pool) [
  | none ↦ (ack, c)
  | some h ↦
      (ack, notify p (record c { pool = modify h (send_message take_closed (push_of p)) c.pool }))
]

module _ (j : Json) where
  open j use {Body, decode_down}

  unfoldable pub handle_mq_delivery : Bool → Body → Consumer → Settle × Consumer
  handle_mq_delivery take_closed body c = elim (decode_down body) [
    | none ↦ (nack_drop, c)
    | some p ↦ deliver_down take_closed p c
  ]
