-- ===== src/Logic/Redelivery.antt =====
-- What becomes of a delivery that `handleUploadDelivery` of apps/logic/service/upload_consumer.go puts
-- back into the queue, while Logic goes on with other deliveries and with RPCs.
use mathlib.Core.List.{append-nil}
use go_im_system.Prelude.{
  ℕ, ◌≡◌, refl, sym, ap, ◌∙◌, inr, inl, true, false, List, [], ◌∷◌, ◌++◌, some, ℤ, pos, int_eq,
  int_eq_iff, int_Eq, Bool, Option-cases, arith,
}
use go_im_system.Text.{Text}
use go_im_system.Sql.{has_key, has_key-append, has_key-update}
use go_im_system.Wire.{UploadPayload, Json, Settle, nack_requeue, chat_type_single}
use go_im_system.Logic.Messages.{
  Messages, message_key, row_id, message_row, is_unread_id, is_unsent_id, is_unread_of, deliver_row,
  read_row, get_unread_messages, mark_messages_as_read, mark_message_as_read,
  mark_send_transport_delivered,
}
use go_im_system.Logic.Upload.{DeliveryFaults, LogicState, handle_upload_delivery}
use go_im_system.Logic.Service.{
  Rpc, serve, sync_unread, notify_delivered, ack_message, read_messages,
}
use go_im_system.Logic.Delivery.{stored_row, single_delivery-Stored, single_delivery-Refused}
use go_im_system.Logic.Status.{Inserts, none_yet, one_more, insert_message-append}
use go_im_system.Logic.Run.{Event, delivered, called, step, delivery-Inserts}

Inserts-has_key :
    {t u : List Messages} (k : ℤ)
    → Inserts t u
    → has_key message_key k t ≡ true
    → has_key message_key k u ≡ true
Inserts-has_key k none_yet old = old
Inserts-has_key {t} {u} k (one_more {u = w} fault a now m i z e) old =
    ap (has_key message_key k) (insert_message-append fault a now m w u e)
    ∙ has_key-append message_key k w (message_row a now m)
    ∙ rw (Inserts-has_key k i old) refl

serve-has_key :
    (k : ℤ) (fault : Bool) (c : Rpc) (t : List Messages)
    → has_key message_key k (serve fault c t).0 ≡ has_key message_key k t
unfolding serve get_unread_messages mark_messages_as_read mark_message_as_read
    mark_send_transport_delivered
serve-has_key k true (sync_unread r) t = refl
serve-has_key k true (notify_delivered r) t = refl
serve-has_key k true (ack_message r) t = refl
serve-has_key k true (read_messages r) t = refl
serve-has_key k false (sync_unread r) t = refl
serve-has_key k false (notify_delivered id) t =
    has_key-update message_key k (is_unsent_id id) deliver_row t (λ m. refl)
serve-has_key k false (ack_message id) t =
    has_key-update message_key k (is_unread_id id) read_row t (λ m. refl)
serve-has_key k false (read_messages r) t =
    has_key-update message_key k (is_unread_of r) read_row t (λ m. refl)

module _ (j : Json) where
  open j use {Body, decode_upload}

  -- A state of Logic that some time after `s` can come to: other deliveries and RPCs are handled,
  -- with any faults, and in between the groups, the routes and the time change.
  pub data Later (s : LogicState Body) : LogicState Body → Type 0 where
    at_once : Later s s
    after_event :
        {t u : LogicState Body} (e : Event Body) → Later s t → step j e t ≡ some u → Later s u
    after_change :
        {t : LogicState Body} (members : List (ℤ × ℤ)) (routes : List (Text × Text))
        (clock : List ℕ) (now : ℕ)
        → Later s t
        → Later s (record t { members = members; routes = routes; clock = clock; now = now })

  step-has_key :
      (k : ℤ) (e : Event Body) (t u : LogicState Body)
      → step j e t ≡ some u
      → has_key message_key k t.messages ≡ true
      → has_key message_key k u.messages ≡ true
  step-has_key k (delivered f b) t u one old =
      elim (Option-cases (handle_upload_delivery j f b t)) [
        | inl stuck ↦ absurd (ground (arith, stuck))
        | inr ((r, v), ended) ↦
            let same : v ≡ u = ground (arith, ended) in
            ap (λ (x : LogicState Body). has_key message_key k x.messages) (sym same)
            ∙ Inserts-has_key k (delivery-Inserts j f b t v r ended) old
      ]
  step-has_key k (called fault c) t u one old =
      let same : u.messages ≡ (serve fault c t.messages).0 = ground arith in
      ap (has_key message_key k) same ∙ serve-has_key k fault c t.messages ∙ old

  Later-has_key :
      {s t : LogicState Body} (k : ℤ)
      → Later s t
      → has_key message_key k s.messages ≡ true
      → has_key message_key k t.messages ≡ true
  Later-has_key k at_once old = old
  Later-has_key {s} {t} k (after_event {t = v} e before one) old =
      step-has_key k e v t one (Later-has_key k before old)
  Later-has_key k (after_change members routes clock now before) old = Later-has_key k before old

  -- The id of a message that has one.
  given_id : (assigned id : ℤ) → int_eq id (pos 0) ≡ false → row_id assigned id ≡ id
  given_id assigned id given = rw given refl

  -- A single chat with a new id other than 0 is stored while Redis fails: it goes back into
  -- the queue, its row is behind the others, and nothing is pushed. Then any number of
  -- deliveries and RPCs are handled, with any faults, while groups, routes and the time
  -- change. When the same body is delivered again, whatever works by then, and its handling
  -- ends, it goes back into the queue again, with nothing stored or pushed.
  pub requeued_forever :
      (f g : DeliveryFaults) (b : Body) (p : UploadPayload) (s s' t t' : LogicState Body)
      (r r' : Settle)
      → decode_upload b ≡ some p
      → p.chat_type ≡ chat_type_single
      → int_eq p.msg_id (pos 0) ≡ false
      → f.direct.insert_fails ≡ false
      → f.direct.redis_fails ≡ true
      → has_key message_key p.msg_id s.messages ≡ false
      → handle_upload_delivery j f b s ≡ some (r, s')
      → Later s' t
      → handle_upload_delivery j g b t ≡ some (r', t')
      → ((r ≡ nack_requeue)
          × (s'.messages ≡ s.messages ++ stored_row p s.now ∷ [])
          × (s'.published ≡ s.published))
        × ((r' ≡ nack_requeue) × (t'.messages ≡ t.messages) × (t'.published ≡ t.published))
  requeued_forever f g b p s s' t t' r r' dec kind given fine down new one later again =
      let mine = given_id f.direct.assigned p.msg_id given in
      let (nacked, stored, pushed) =
        single_delivery-Stored j f b p s s' r dec kind fine
          (ap (λ k. has_key message_key k s.messages) mine ∙ new) one in
      let rows : s'.messages ≡ s.messages ++ stored_row p s.now ∷ [] =
        stored ∙ ap (λ k. s.messages ++ record (stored_row p s.now) { msg_id = k } ∷ []) mine in
      let old : has_key message_key p.msg_id s'.messages ≡ true =
        ap (has_key message_key p.msg_id) rows
        ∙ ground (
          arith,
          has_key-append message_key p.msg_id s.messages (stored_row p s.now),
          int_eq_iff p.msg_id p.msg_id,
        ) in
      let there =
        ap (λ k. has_key message_key k t.messages) (given_id g.direct.assigned p.msg_id given)
        ∙ Later-has_key p.msg_id later old in
      (
        (rw down at nacked, rows, rw down at pushed ∙ append-nil s.published),
        single_delivery-Refused j g b p t t' r' dec kind (inr there) again,
      )
