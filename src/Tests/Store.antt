-- ===== src/Tests/Store.antt =====
-- Runs of the Logic service.
use go_im_system.Prelude.{
  ℕ, ◌≡◌, refl, inl, inr, List, [], ◌∷◌, some, All, arith, pos, true, false, int_Eq,
}
use go_im_system.Text.{Text, codes, format_int}
use go_im_system.Sql.{UniqueKeys}
use go_im_system.Snowflake.{generate}
use go_im_system.Wire.{UploadPayload, plain_json, ack, nack_requeue, chat_type_single}
use go_im_system.Logic.Messages.{
  Messages, message_key, insert_message, mark_message_as_read, mark_send_transport_delivered,
}
use go_im_system.Logic.Upload.{
  Faults, DeliveryFaults, LogicState, draw, publish_down, route_single, store_single,
  handle_single_chat, dispatch_upload, handle_upload_delivery, down_of,
}
use go_im_system.Logic.Service.{
  serve, sync_unread, read_messages, notify_delivered, ack_message, synced,
}
use go_im_system.Logic.Delivery.{
  Stored, Refused, stored_row, single_delivery-Stored, single_delivery-Refused,
}
use go_im_system.Logic.Redelivery.{Later, at_once, after_event, after_change, requeued_forever}
use go_im_system.Logic.Unread.{sync-read}
use go_im_system.Logic.Status.{Grows, HasStatus}
use go_im_system.Logic.Run.{Event, delivered, called, run, run-Grows}

abbrev Bodies : Type 0
Bodies = plain_json.Body

abbrev works : Faults
works = record {
  insert_fails = false;
  assigned = pos 1;
  redis_fails = false;
  publish_fails = false;
}

abbrev redis_down : Faults
redis_down = record {
  insert_fails = false;
  assigned = pos 1;
  redis_fails = true;
  publish_fails = false;
}

abbrev with_faults : Faults → DeliveryFaults
with_faults f = record { members_fails = false; direct = f; for_member = λ u. f }

abbrev hello : UploadPayload
hello = record {
  msg_id = pos 100;
  seq_id = pos 1;
  chat_type = chat_type_single;
  group_id = pos 0;
  conv_id = codes "7_8";
  sender_id = pos 7;
  receiver_id = pos 8;
  content = codes "hello";
}

abbrev logic_at : List Messages → List (Text × Bodies) → ℕ → List ℕ → LogicState Bodies
logic_at ms ps t cs = record {
  messages = ms;
  members = (pos 5, pos 7) ∷ (pos 5, pos 8) ∷ (pos 5, pos 9) ∷ [];
  routes = (codes "route:user:8", codes "gw:8080") ∷ [];
  published = ps;
  snowflake = record { last_timestamp = t; sequence = 0; node_id = 2 };
  clock = cs;
  now = 40;
}

abbrev fresh_logic : LogicState Bodies
fresh_logic = logic_at [] [] 10 (11 ∷ 12 ∷ 13 ∷ [])

abbrev body : Bodies
body = inl hello

abbrev hello_row : Messages
hello_row = stored_row hello 40

stored_and_pushed :
    handle_upload_delivery plain_json (with_faults works) body fresh_logic
    ≡ some (
      ack,
      logic_at (hello_row ∷ []) ((codes "gw:8080", inr (down_of hello)) ∷ []) 11 (12 ∷ 13 ∷ []),
    )
unfolding handle_upload_delivery dispatch_upload handle_single_chat store_single route_single
    publish_down insert_message draw generate format_int
stored_and_pushed = refl

abbrev stored_unpushed : LogicState Bodies
stored_unpushed = logic_at (hello_row ∷ []) [] 11 (12 ∷ 13 ∷ [])

stored_and_requeued :
    handle_upload_delivery plain_json (with_faults redis_down) body fresh_logic
    ≡ some (nack_requeue, stored_unpushed)
unfolding handle_upload_delivery dispatch_upload handle_single_chat store_single route_single
    publish_down insert_message draw generate format_int
stored_and_requeued = refl

single_delivery-Stored_example :
    Stored plain_json works hello fresh_logic ack
      (logic_at (hello_row ∷ []) ((codes "gw:8080", inr (down_of hello)) ∷ []) 11 (12 ∷ 13 ∷ []))
single_delivery-Stored_example =
    single_delivery-Stored plain_json (with_faults works) body hello fresh_logic
      (logic_at (hello_row ∷ []) ((codes "gw:8080", inr (down_of hello)) ∷ []) 11 (12 ∷ 13 ∷ []))
      ack refl refl refl refl stored_and_pushed

refused_once :
    handle_upload_delivery plain_json (with_faults works) body stored_unpushed
    ≡ some (nack_requeue, logic_at (hello_row ∷ []) [] 12 (13 ∷ []))
unfolding handle_upload_delivery dispatch_upload handle_single_chat store_single route_single
    publish_down insert_message draw generate format_int
refused_once = refl

single_delivery-Refused_example :
    Refused plain_json stored_unpushed nack_requeue (logic_at (hello_row ∷ []) [] 12 (13 ∷ []))
single_delivery-Refused_example =
    single_delivery-Refused plain_json (with_faults works) body hello stored_unpushed
      (logic_at (hello_row ∷ []) [] 12 (13 ∷ [])) nack_requeue refl refl (inr refl) refused_once

sync-read_example :
    (serve false (sync_unread (pos 8)) (serve false (read_messages (pos 8)) (hello_row ∷ [])).0).1
    ≡ synced []
sync-read_example = sync-read (pos 8) (pos 8) (hello_row ∷ [])

-- With one message stored: a second is delivered, the first is confirmed by the gateway and read by
-- its receiver, and a late confirmation changes nothing.
abbrev second : UploadPayload
second = record hello { msg_id = pos 101; seq_id = pos 2 }

abbrev second_row : Messages
second_row = stored_row second 40

abbrev day : List (Event Bodies)
day =
    delivered (with_faults works) (inl second)
    ∷ called false (notify_delivered (pos 100))
    ∷ called false (ack_message (pos 100))
    ∷ called false (notify_delivered (pos 100))
    ∷ []

abbrev read_hello : Messages
read_hello = record hello_row { is_read = true; send_status = 2 }

abbrev evening : LogicState Bodies
evening =
    logic_at (read_hello ∷ second_row ∷ []) ((codes "gw:8080", inr (down_of second)) ∷ []) 12
      (13 ∷ [])

day_runs : run plain_json day stored_unpushed ≡ some evening
unfolding run handle_upload_delivery dispatch_upload handle_single_chat store_single route_single
    publish_down insert_message draw generate format_int serve mark_message_as_read
    mark_send_transport_delivered
day_runs = refl

run-Grows_example :
    Grows (hello_row ∷ []) (read_hello ∷ second_row ∷ [])
    × All HasStatus (read_hello ∷ second_row ∷ [])
    × UniqueKeys message_key (read_hello ∷ second_row ∷ [])
run-Grows_example =
    run-Grows plain_json day stored_unpushed evening day_runs (omega arith, tt) (refl, tt)

-- After the failure another message is delivered, the first is confirmed and read, and the receiver
-- moves to another gateway; then everything works.
abbrev moved : LogicState Bodies
moved = record evening { routes = (codes "route:user:8", codes "gw:9090") ∷ [] }

moved-Later : Later plain_json stored_unpushed moved
unfolding handle_upload_delivery dispatch_upload handle_single_chat store_single route_single
    publish_down insert_message draw generate format_int serve mark_message_as_read
    mark_send_transport_delivered
moved-Later =
    after_change ((pos 5, pos 7) ∷ (pos 5, pos 8) ∷ (pos 5, pos 9) ∷ [])
      ((codes "route:user:8", codes "gw:9090") ∷ []) (13 ∷ []) 40
      (after_event (called false (ack_message (pos 100)))
        (after_event (called false (notify_delivered (pos 100)))
          (after_event (delivered (with_faults works) (inl second)) at_once refl) refl)
        refl)

refused_later :
    handle_upload_delivery plain_json (with_faults works) body moved
    ≡ some (
      nack_requeue,
      record moved {
        snowflake = record { last_timestamp = 13; sequence = 0; node_id = 2 };
        clock = [];
      },
    )
unfolding handle_upload_delivery dispatch_upload handle_single_chat store_single route_single
    publish_down insert_message draw generate format_int
refused_later = refl

requeued_forever_example :
    ((nack_requeue ≡ nack_requeue)
      × (stored_unpushed.messages ≡ hello_row ∷ [])
      × (stored_unpushed.published ≡ []))
    × ((nack_requeue ≡ nack_requeue)
        × (moved.messages ≡ read_hello ∷ second_row ∷ [])
        × (moved.published ≡ (codes "gw:8080", inr (down_of second)) ∷ []))
requeued_forever_example =
    requeued_forever plain_json (with_faults redis_down) (with_faults works) body hello fresh_logic
      stored_unpushed moved
      (record moved {
        snowflake = record { last_timestamp = 13; sequence = 0; node_id = 2 };
        clock = [];
      })
      nack_requeue nack_requeue refl refl refl refl refl refl stored_and_requeued moved-Later
      refused_later
