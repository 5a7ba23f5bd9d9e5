-- ===== src/Tests/Connections.antt =====
-- Runs of a gateway's connections.
use go_im_system.Prelude.{
  zero, ◌⊎◌, ◌↔◌, suc, if◌then◌else◌, ℕ, ◌≡◌, ◌≢◌, refl, List, [], ◌∷◌, some, pos, true, false, inr,
  arith,
}
use go_im_system.Text.{Text, codes, format_int}
use go_im_system.Wire.{ack, DownPayload, plain_json, chat_type_single}
use go_im_system.Logic.Messages.{Messages}
use go_im_system.Logic.Service.{item_of, serve, sync_unread, synced}
use go_im_system.Gateway.Client.{
  Client, Frame, kick, pong, Action, send, pump, shut, acts, act, send_message, pump_round, close,
  new_client,
}
use go_im_system.Gateway.Client.Queue.{taken, Subseq, acts-open, acts-Subseq}
use go_im_system.Gateway.Pool.{Pool, route_of, register, get_client, leave}
use go_im_system.Gateway.Pool.Takeover.{key_eq, takeover}
use go_im_system.Gateway.Chat.{Gateway, single_chat_conv_id}
use go_im_system.Gateway.Chat.Conversation.{single_chat_conv_id-pair}
use go_im_system.Gateway.Downstream.{push_of, Consumer, handle_mq_delivery}
use go_im_system.Gateway.Downstream.Push.{push_taken, push_dropped}
use go_im_system.Logic.Messages.{get_unread_messages}
use go_im_system.Gateway.Client.{read_receipt}
use go_im_system.Gateway.Receipt.{AckRequest, handle_ack}
use go_im_system.Gateway.Receipt.Confirmed.{ack-unread}
use go_im_system.Gateway.Session.{unread_frame, sync_message}
use go_im_system.Gateway.Session.Sync.{working, sync_message_lem}

abbrev user : Client
user = new_client (pos 7)

abbrev busy_run : List Action
busy_run = send false pong ∷ pump false true ∷ send false kick ∷ []

busy_open : (acts busy_run user).closed ≡ false
unfolding acts act send_message pump_round close
busy_open = refl

acts-open_example : taken (acts busy_run user) ≡ pong ∷ kick ∷ []
acts-open_example = acts-open busy_run user busy_open

abbrev broken_run : List Action
broken_run = send false pong ∷ pump false false ∷ send false kick ∷ shut ∷ []

abbrev pool_at : ℕ → Pool
pool_at n = record {
  clients = (format_int (pos 7), 3) ∷ [];
  object = λ h. user;
  next = n;
  routes =
      (route_of (format_int (pos 7)), record { gateway = codes "gw:8080"; expires = 100 }) ∷ [];
}

user_there : get_client (format_int (pos 7)) (pool_at 4) ≡ some 3
unfolding get_client format_int
user_there = refl

takeover_example :
    let q = register (pos 7) 4 false (pool_at 5) in
    ((q.object 3).closed ≡ true)
    × ((key : Text)
        → get_client key (leave 3 q)
          ≡ (if key_eq (format_int (pos 7)) key then some 4 else get_client key (pool_at 5)))
    × ((leave 3 q).routes ≡ (pool_at 5).routes)
    × ((leave 3 q).object 4 ≡ q.object 4)
unfolding get_client
takeover_example = takeover (pos 7) 4 3 false (pool_at 5) user_there refl (ground arith)

abbrev frames : ℕ → List Frame
frames zero = []
frames (suc n) = pong ∷ frames n

abbrev full : Client
full = record user { send_chan = frames 1024 }

acts-Subseq_example : Subseq (taken (acts broken_run user)) (pong ∷ kick ∷ [])
acts-Subseq_example = acts-Subseq broken_run user

single_chat_conv_id-pair_example :
    (single_chat_conv_id (pos 7) (pos 8) ≡ single_chat_conv_id (pos 8) (pos 7))
    ↔ (((pos 7 ≡ pos 8) × (pos 8 ≡ pos 7)) ⊎ ((pos 7 ≡ pos 7) × (pos 8 ≡ pos 8)))
single_chat_conv_id-pair_example = single_chat_conv_id-pair (pos 7) (pos 8) (pos 8) (pos 7)

abbrev gateway : Gateway ℕ
gateway = record {
  pool = pool_at 4;
  counters = (codes "seq:7_8:7", 5) ∷ [];
  reliable = true;
  snowflake = record { last_timestamp = 10; sequence = 0; node_id = 1 };
  clock = 11 ∷ [];
  uploaded = [];
}

abbrev pushed : DownPayload
pushed = record {
  msg_id = pos 100;
  seq_id = pos 1;
  sender_id = pos 9;
  receiver_id = pos 7;
  group_id = pos 0;
  chat_type = chat_type_single;
  content = codes "hi";
}

abbrev consumer : Client → Consumer
consumer c = record {
  pool = record (pool_at 4) { object = λ h. c };
  callback = true;
  notified = [];
}

push_taken_example :
    let (r, c') = handle_mq_delivery plain_json false (inr pushed) (consumer user) in
    (r ≡ ack)
    × ((c'.pool.object 3).send_chan ≡ push_of pushed ∷ [])
    × ((i : ℕ) → i ≢ 3 → c'.pool.object i ≡ user)
    × (c'.notified ≡ (pos 9, pos 100) ∷ [])
unfolding get_client
push_taken_example =
    push_taken plain_json false (inr pushed) pushed (consumer user) 3 refl user_there refl
      (omega arith) refl

push_dropped_example :
    let (r, c') = handle_mq_delivery plain_json false (inr pushed) (consumer full) in
    (r ≡ ack)
    × ((c'.pool.object 3).send_chan ≡ frames 1024)
    × ((c'.pool.object 3).written ≡ [])
    × ((c'.pool.object 3).closed ≡ true)
    × (c'.notified ≡ (pos 9, pos 100) ∷ [])
unfolding get_client
push_dropped_example =
    push_dropped plain_json false (inr pushed) pushed (consumer full) 3 refl user_there
      (omega arith) refl

abbrev waiting_row : Messages
waiting_row = record {
  msg_id = pos 100;
  sender_id = pos 9;
  receiver_id = pos 7;
  group_id = pos 0;
  seq_id = pos 1;
  content = codes "hi";
  is_read = false;
  send_status = 0;
  create_time = 40;
}

sync_message_lem_example :
    let s = sync_message (working false) (pos 7) user (waiting_row ∷ []) in
    (s.client.send_chan ≡ unread_frame (item_of waiting_row) ∷ [])
    × (s.client.closed ≡ false)
    × (s.is_error ≡ false)
    × ((serve false (sync_unread (pos 7)) s.table).1 ≡ synced [])
sync_message_lem_example = sync_message_lem false (pos 7) 1024 user (waiting_row ∷ []) refl refl

abbrev confirmed : AckRequest
confirmed = record { msg_id = pos 100; sender_id = pos 7 }

ack-unread_example :
    let (t', p') = handle_ack false false (pos 7) (some confirmed) (waiting_row ∷ []) (pool_at 4) in
    (get_unread_messages false (pos 7) t' ≡ some [])
    × ((p'.object 3).send_chan ≡ read_receipt (pos 7) (pos 100) ∷ [])
ack-unread_example =
    ack-unread false (pos 7) (pos 7) confirmed (waiting_row ∷ []) (pool_at 4) 3 user_there refl
      (omega arith)
