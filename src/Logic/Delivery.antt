-- ===== src/Logic/Delivery.antt =====
-- What `handleUploadDelivery` does with one delivery, on every branch.
use mathlib.Core.List.{append-nil}
use go_im_system.Prelude.{
  ℕ, ◌≡◌, refl, sym, ap, ◌∙◌, ◌⊎◌, inl, inr, true, false, List, [], ◌∷◌, ◌++◌, none, some, int_Eq,
  nat_eq, list_Eq, lookup, if◌then◌else◌, Option-cases, arith,
}
use go_im_system.Text.{Text}
use go_im_system.Sql.{has_key}
use go_im_system.Wire.{UploadPayload, Json, Settle, ack, nack_requeue, chat_type_single}
use go_im_system.Logic.Messages.{Messages, message_key, row_id, insert_message}
use go_im_system.Logic.Upload.{
  Faults, DeliveryFaults, LogicState, Outcome, done, failed, draw, publish_down, down_of, route_key,
  route_single, store_single, settle, handle_single_chat, dispatch_upload, handle_upload_delivery,
}

-- Drawing an id changes the generator and the clock alone.
pub draw_frame :
    {B : Type 0} (s : LogicState B) (id : ℕ) (s' : LogicState B)
    → draw s ≡ some (id, s')
    → (s'.messages ≡ s.messages)
      × (s'.published ≡ s.published)
      × (s'.routes ≡ s.routes)
      × (s'.now ≡ s.now)
      × (s'.members ≡ s.members)
unfolding draw
draw_frame s id s' e = ground arith

-- The row of a single chat: unread, not yet pushed, under the gateway's ids.
abbrev pub stored_row : UploadPayload → ℕ → Messages
stored_row p now = record {
  msg_id = p.msg_id;
  seq_id = p.seq_id;
  sender_id = p.sender_id;
  receiver_id = p.receiver_id;
  group_id = p.group_id;
  is_read = false;
  content = p.content;
  send_status = 0;
  create_time = now;
}

-- The row as the table gets it.
abbrev pub stored_under : Faults → UploadPayload → ℕ → Messages
stored_under f p now = record (stored_row p now) { msg_id = row_id f.assigned p.msg_id }

module _ (j : Json) where
  open j use {Body, encode_down, decode_upload}

  -- The pushes that follow a stored message: at most one, to the gateway in the routing table.
  abbrev pub single_push : Faults → UploadPayload → LogicState Body → List (Text × Body)
  single_push f p s = elim (lookup (route_key p.receiver_id) s.routes) [
    | none ↦ []
    | some gateway ↦ if f.publish_fails then [] else (gateway, encode_down (down_of p)) ∷ []
  ]

  abbrev pub Refused : LogicState Body → Settle → LogicState Body → Type 0
  Refused s r s' = (r ≡ nack_requeue) × (s'.messages ≡ s.messages) × (s'.published ≡ s.published)

  abbrev pub Stored : Faults → UploadPayload → LogicState Body → Settle → LogicState Body → Type 0
  Stored f p s r s' =
      (r ≡ (if f.redis_fails then nack_requeue else ack))
      × (s'.messages ≡ s.messages ++ stored_under f p s.now ∷ [])
      × (s'.published ≡ s.published ++ (if f.redis_fails then [] else single_push f p s))

  abbrev settled : Outcome → Settle
  settled done = ack
  settled failed = nack_requeue

  route_single-Stored :
      (f : Faults) (p : UploadPayload) (s : LogicState Body)
      → let (o, s') = route_single j f p s in
        (settled o ≡ (if f.redis_fails then nack_requeue else ack))
        × (s'.messages ≡ s.messages)
        × (s'.published ≡ s.published ++ (if f.redis_fails then [] else single_push f p s))
  unfolding route_single publish_down
  route_single-Stored f p s = ground (arith, append-nil s.published)

  store_single-Stored :
      (f : Faults) (p : UploadPayload) (fresh : ℕ) (s : LogicState Body)
      → f.insert_fails ≡ false
      → has_key message_key (row_id f.assigned p.msg_id) s.messages ≡ false
      → let (o, s') = store_single j f p fresh s in Stored f p s (settled o) s'
  unfolding store_single insert_message
  store_single-Stored f p fresh s fine new = ground (
    arith,
    route_single-Stored f p (record s { messages = s.messages ++ stored_under f p s.now ∷ [] }),
  )

  store_single-Refused :
      (f : Faults) (p : UploadPayload) (fresh : ℕ) (s : LogicState Body)
      → (f.insert_fails ≡ true)
        ⊎ (has_key message_key (row_id f.assigned p.msg_id) s.messages ≡ true)
      → let (o, s') = store_single j f p fresh s in Refused s (settled o) s'
  unfolding store_single insert_message
  store_single-Refused f p fresh s bad = ground arith

  pub dispatch_single :
      (f : DeliveryFaults) (b : Body) (p : UploadPayload) (s : LogicState Body)
      → decode_upload b ≡ some p
      → p.chat_type ≡ chat_type_single
      → handle_upload_delivery j f b s ≡ settle j (handle_single_chat j f.direct p s)
  unfolding handle_upload_delivery dispatch_upload
  dispatch_single f b p s dec kind = rw (dec, handle_upload_delivery, kind)

  settle-some : (o : Outcome) (s : LogicState Body) → settle j (some (o, s)) ≡ some (settled o, s)
  settle-some done s = refl
  settle-some failed s = refl

  -- The handling of a single chat is a draw and a store.
  single_steps :
      (f : DeliveryFaults) (b : Body) (p : UploadPayload) (s s' : LogicState Body) (r : Settle)
      → decode_upload b ≡ some p
      → p.chat_type ≡ chat_type_single
      → handle_upload_delivery j f b s ≡ some (r, s')
      → (fresh : ℕ) × (drawn : LogicState Body) × (draw s ≡ some (fresh, drawn))
        × (r ≡ settled (store_single j f.direct p fresh drawn).0)
        × (s' ≡ (store_single j f.direct p fresh drawn).1)
  unfolding handle_single_chat
  single_steps f b p s s' r dec kind e =
      let run = sym (dispatch_single f b p s dec kind) ∙ e in
      elim (Option-cases (draw s)) [
        | inl stuck ↦ ground (arith, stuck, run)
        | inr ((fresh, drawn), drew) ↦
            let after = store_single j f.direct p fresh drawn in
            let same = settle-some after.0 after.1 in
            (fresh, drawn, drew, ground (arith, run, same), ground (arith, run, same))
      ]

  -- A single chat whose id, or for a zero id the one that the database gives, is new, where
  -- the insertion works and the handling ends: its row is stored unread under that id behind
  -- the others; then, if Redis answers, the delivery is acknowledged and the message goes to
  -- the gateway of the receiver's route, if there is one and the broker takes it; if Redis
  -- fails, the delivery goes back into the queue and nothing is pushed.
  pub single_delivery-Stored :
      (f : DeliveryFaults) (b : Body) (p : UploadPayload) (s s' : LogicState Body) (r : Settle)
      → decode_upload b ≡ some p
      → p.chat_type ≡ chat_type_single
      → f.direct.insert_fails ≡ false
      → has_key message_key (row_id f.direct.assigned p.msg_id) s.messages ≡ false
      → handle_upload_delivery j f b s ≡ some (r, s')
      → Stored f.direct p s r s'
  single_delivery-Stored f b p s s' r dec kind fine new e =
      let (fresh, drawn, drew, hr, hs) = single_steps f b p s s' r dec kind e in
      let frame = draw_frame s fresh drawn drew in
      let stored =
        store_single-Stored f.direct p fresh drawn fine
          (ap (has_key message_key (row_id f.direct.assigned p.msg_id)) frame.0 ∙ new) in
      ground (arith, stored)

  -- A single chat whose id, or for a zero id the one that the database gives, is in the table
  -- already, or whose insertion fails, goes back into the queue when its handling ends, and
  -- nothing is stored or pushed.
  pub single_delivery-Refused :
      (f : DeliveryFaults) (b : Body) (p : UploadPayload) (s s' : LogicState Body) (r : Settle)
      → decode_upload b ≡ some p
      → p.chat_type ≡ chat_type_single
      → (f.direct.insert_fails ≡ true)
        ⊎ (has_key message_key (row_id f.direct.assigned p.msg_id) s.messages ≡ true)
      → handle_upload_delivery j f b s ≡ some (r, s')
      → Refused s r s'
  single_delivery-Refused f b p s s' r dec kind bad e =
      let (fresh, drawn, drew, hr, hs) = single_steps f b p s s' r dec kind e in
      let frame = draw_frame s fresh drawn drew in
      let refused = store_single-Refused f.direct p fresh drawn (rw frame.0 bad) in
      ground (arith, refused)
