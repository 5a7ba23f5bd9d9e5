-- ===== src/Journey.antt =====
-- A single chat on its whole way: handleSingleChat of apps/gateway/ws/chat.go at the sender's gateway,
-- handleUploadDelivery of apps/logic/service/upload_consumer.go, the consumer of
-- apps/gateway/ws/mq_consumer.go at the receiver's gateway, and NotifyMessageDelivered back in Logic.
use go_im_system.Prelude.{
  int_eq, ap, int_eq, ℕ, ◌+◌, ◌≡◌, ◌<◌, refl, ◌∙◌, Bool, true, false, List, [], ◌∷◌, ◌++◌, some, ℤ,
  pos, int_Eq, int_eq_iff, nat_eq, list_Eq, lookup, insert, length, arith,
}
use go_im_system.Text.{Text, format_int}
use go_im_system.Sql.{insert_row, has_key, update_where}
use go_im_system.Snowflake.{Snowflake, generate}
use go_im_system.Wire.{UploadPayload, Json, ack, chat_type_single}
use go_im_system.Logic.Messages.{
  message_row, Messages, message_key, sent_unconfirmed, is_unsent_id, deliver_row,
  mark_send_transport_delivered, insert_message,
}
use go_im_system.Logic.Upload.{
  upload_row, done, LogicState, draw, down_of, route_key, handle_upload_delivery,
  handle_single_chat, store_single, route_single, publish_down,
}
use go_im_system.Logic.Delivery.{stored_row, draw_frame, dispatch_single}
use go_im_system.Logic.FanOut.{no_fault, no_faults}
use go_im_system.Logic.Service.{serve, notify_delivered}
use go_im_system.Gateway.Client.{chat_push, capacity}
use go_im_system.Gateway.Pool.{get_client}
use go_im_system.Gateway.Chat.{
  ClientRequest, ChatFaults, Gateway, single_chat_conv_id, seq_key, counter, single_payload,
  get_next_seq_id, generate_msg_id, assign_ids, acknowledge, publish_and_ack,
}
use go_im_system.Gateway.Chat
use go_im_system.Gateway.Downstream.{Consumer, handle_mq_delivery}
use go_im_system.Gateway.Downstream.Push.{push_taken}

abbrev pub works : Bool → ChatFaults
works k = record { incr_fails = false; publish_fails = false; take_closed = k }

-- Another id's row is left as it is.
unmarked :
    (id : ℤ) (t : List Messages)
    → has_key message_key id t ≡ false
    → update_where (is_unsent_id id) deliver_row t ≡ t
unmarked id [] new = refl
unmarked id (m ∷ t) new = ground (arith, unmarked id t)

marked_last :
    (id : ℤ) (t : List Messages) (r : Messages)
    → has_key message_key id t ≡ false
    → r.msg_id ≡ id
    → r.send_status ≡ 0
    → update_where (is_unsent_id id) deliver_row (t ++ r ∷ []) ≡ t ++ deliver_row r ∷ []
marked_last id [] r new this fresh = ground (arith, int_eq_iff r.msg_id id)
marked_last id (m ∷ t) r new this fresh = ground (arith, marked_last id t r)

module _ {B : Type 0} where
  acknowledge-uploaded :
      (k : Bool) (sender : ℤ) (id seq : ℕ) (g : Gateway B)
      → (acknowledge k sender id seq g).uploaded ≡ g.uploaded
  unfolding acknowledge
  acknowledge-uploaded k sender id seq g = ground arith

-- The number that the sender's message gets in its conversation.
abbrev pub next_of : {B : Type 0} → ℤ → ClientRequest → Gateway B → ℕ
next_of sender r g = counter (seq_key (single_chat_conv_id sender r.receiver) sender) g.counters + 1

-- What the sender's gateway uploads.
abbrev pub upload_of : {B : Type 0} → ℤ → ClientRequest → ℕ → Gateway B → UploadPayload
upload_of sender r id g =
    single_payload sender r id (next_of sender r g) (single_chat_conv_id sender r.receiver)

module _ (j : Json) where
  open j use {Body, encode_upload, encode_down, decode_upload-encode, decode_down-encode}

  uploads :
      (k : Bool) (sender : ℤ) (r : ClientRequest) (g : Gateway Body) (id : ℕ) (flake : Snowflake)
      (rest : List ℕ)
      → g.reliable ≡ true
      → generate g.snowflake g.clock ≡ some (id, flake, rest)
      → (g' : Gateway Body) × (Chat.handle_single_chat j (works k) sender (some r) g
          ≡ some (true, g'))
        × (g'.uploaded ≡ g.uploaded ++ encode_upload (upload_of sender r id g) ∷ [])
  unfolding Chat.handle_single_chat assign_ids get_next_seq_id generate_msg_id publish_and_ack
      generate
  uploads k sender r g id flake rest reliable made =
      let p = upload_of sender r id g in
      let conv = single_chat_conv_id sender r.receiver in
      let published = record g {
        counters = insert (seq_key conv sender) (next_of sender r g) g.counters;
        snowflake = flake;
        clock = rest;
        uploaded = g.uploaded ++ encode_upload p ∷ [];
      } in
      (
        acknowledge k sender id (next_of sender r g) published,
        simp (reliable, made) refl,
        acknowledge-uploaded k sender id (next_of sender r g) published,
      )

  abbrev pub pushed : UploadPayload → Text → LogicState Body → LogicState Body → LogicState Body
  pushed p gateway s drawn = record drawn {
    messages = s.messages ++ stored_row p s.now ∷ [];
    published = s.published ++ (gateway, encode_down (down_of p)) ∷ [];
  }

  -- A row that has an id keeps it.
  message_row-given :
      (b : ℤ) (now : ℕ) (m : Messages)
      → int_eq m.msg_id (pos 0) ≡ false
      → message_row b now m ≡ record m { create_time = now }
  message_row-given b now m given =
      ap (λ i. record m { msg_id = i; create_time = now }) (rw given refl)

  insert_given :
      (b : ℤ) (now : ℕ) (m : Messages) (t : List Messages)
      → int_eq m.msg_id (pos 0) ≡ false
      → has_key message_key m.msg_id t ≡ false
      → insert_message false b now m t ≡ some (t ++ record m { create_time = now } ∷ [])
  unfolding insert_message
  insert_given b now m t given new =
      ap (λ r. insert_row message_key false r t) (message_row-given b now m given) ∙ rw new refl

  store_single_online :
      (b : ℤ) (p : UploadPayload) (fresh : ℕ) (s : LogicState Body) (gateway : Text)
      → int_eq p.msg_id (pos 0) ≡ false
      → has_key message_key p.msg_id s.messages ≡ false
      → lookup (route_key p.receiver_id) s.routes ≡ some gateway
      → store_single j (no_fault b) p fresh s ≡ (done, pushed p gateway s s)
  unfolding store_single route_single publish_down
  store_single_online b p fresh s gateway given new online =
      rw
        (
          store_single,
          insert_given b s.now (upload_row false p fresh) s.messages given new,
          route_single,
          online,
        )
        refl

  stores :
      (a : ℤ → ℤ) (p : UploadPayload) (s drawn : LogicState Body) (fresh : ℕ) (gateway : Text)
      → p.chat_type ≡ chat_type_single
      → int_eq p.msg_id (pos 0) ≡ false
      → has_key message_key p.msg_id s.messages ≡ false
      → draw s ≡ some (fresh, drawn)
      → lookup (route_key p.receiver_id) s.routes ≡ some gateway
      → handle_upload_delivery j (no_faults a) (encode_upload p) s
        ≡ some (ack, pushed p gateway s drawn)
  unfolding handle_single_chat
  stores a p s drawn fresh gateway kind given new drew online =
      let (messages, published, routes, now, members) = draw_frame s fresh drawn drew in
      let stored : store_single j (no_fault (a (pos 0))) p fresh drawn
          ≡ (done, pushed p gateway drawn drawn) =
        store_single_online (a (pos 0)) p fresh drawn gateway given (rw messages new)
          (rw routes online) in
      dispatch_single j (no_faults a) (encode_upload p) p s (decode_upload-encode p) kind
      ∙ rw (handle_single_chat, drew, stored, messages, published, now) refl

  -- A single chat on its whole way, where the gateway assigns ids and nothing fails, both
  -- generators give an id, the gateway's id is not 0 and new to the table, the receiver has a
  -- route, and its connection at the gateway of the route is open and has room: the sender's
  -- gateway uploads one payload; Logic acknowledges it, stores one unread row behind the
  -- others and publishes one push to the route's gateway; that gateway acknowledges the push,
  -- puts a frame with the same id, number in the conversation, sender and content at the end
  -- of the receiver's connection and confirms it once; and the confirmation marks that row,
  -- and no other, as sent.
  pub single_chat_arrives :
      (k : Bool) (a : ℤ → ℤ) (sender : ℤ) (r : ClientRequest) (id fresh h : ℕ) (flake : Snowflake)
      (rest : List ℕ) (gateway : Text) (g : Gateway Body) (s drawn : LogicState Body) (c : Consumer)
      → g.reliable ≡ true
      → generate g.snowflake g.clock ≡ some (id, flake, rest)
      → 0 < id
      → has_key message_key (pos id) s.messages ≡ false
      → draw s ≡ some (fresh, drawn)
      → lookup (route_key r.receiver) s.routes ≡ some gateway
      → get_client (format_int r.receiver) c.pool ≡ some h
      → (c.pool.object h).closed ≡ false
      → length (c.pool.object h).send_chan < capacity
      → c.callback ≡ true
      → let p = upload_of sender r id g in
        let s' = pushed p gateway s drawn in
        let (settled, c') = handle_mq_delivery j k (encode_down (down_of p)) c in
        ((g' : Gateway Body) × (Chat.handle_single_chat j (works k) sender (some r) g
            ≡ some (true, g'))
          × (g'.uploaded ≡ g.uploaded ++ encode_upload p ∷ []))
        × (handle_upload_delivery j (no_faults a) (encode_upload p) s ≡ some (ack, s'))
        × (settled ≡ ack)
        × ((c'.pool.object h).send_chan
            ≡ (c.pool.object h).send_chan
              ++ chat_push (pos id) (pos (next_of sender r g)) sender (pos 0) r.message ∷ [])
        × (c'.notified ≡ c.notified ++ (sender, pos id) ∷ [])
        × ((serve false (notify_delivered (pos id)) s'.messages).0
            ≡ s.messages ++ record (stored_row p s.now) { send_status = sent_unconfirmed } ∷ [])
  unfolding serve mark_send_transport_delivered
  single_chat_arrives k a sender r id fresh h flake rest gateway g s drawn c reliable made given new
        drew online there live room set =
      let p = upload_of sender r id g in
      let (settled, queued, others, notified) =
        push_taken j k (encode_down (down_of p)) (down_of p) c h (decode_down-encode (down_of p))
          there live room set in
      (
        uploads k sender r g id flake rest reliable made,
        stores a p s drawn fresh gateway refl (ground arith) new drew online,
        settled,
        queued,
        notified,
        marked_last (pos id) s.messages (stored_row p s.now) new refl refl,
      )
