-- ===== src/Tests/Journeys.antt =====
-- A message from its sender's gateway to its receiver's connection.
use go_im_system.Prelude.{ℕ, ◌≡◌, refl, List, [], ◌∷◌, some, ℤ, pos, true, false, arith, inl, inr}
use go_im_system.Text.{Text, codes, format_int}
use go_im_system.Snowflake.{Snowflake, generate}
use go_im_system.Wire.{plain_json, ack}
use go_im_system.Logic.Upload.{LogicState, draw, down_of, handle_upload_delivery}
use go_im_system.Logic.Messages.{sent_unconfirmed}
use go_im_system.Logic.Delivery.{stored_row}
use go_im_system.Logic.FanOut.{no_faults}
use go_im_system.Logic.Service.{serve, notify_delivered}
use go_im_system.Gateway.Client.{new_client, chat_push}
use go_im_system.Gateway.Pool.{Pool, get_client}
use go_im_system.Gateway.Chat.{ClientRequest, Gateway}
use go_im_system.Gateway.Chat
use go_im_system.Gateway.Downstream.{Consumer, handle_mq_delivery}
use go_im_system.Journey.{works, upload_of, next_of, pushed, single_chat_arrives}

abbrev Bodies : Type 0
Bodies = plain_json.Body

abbrev any_id : ℤ → ℤ
any_id m = pos 1

abbrev to_eight : ClientRequest
to_eight = record {
  chat_type = codes "single_chat";
  receiver = pos 8;
  group_id = pos 0;
  message = codes "hi";
}

abbrev flake : ℕ → ℕ → Snowflake
flake node last = record { last_timestamp = last; sequence = 0; node_id = node }

abbrev pool : Text → ℤ → Pool
pool key uid = record {
  clients = (key, 3) ∷ [];
  object = λ h. new_client uid;
  next = 4;
  routes = [];
}

abbrev gateway : Gateway Bodies
gateway = record {
  pool = pool (codes "7") (pos 7);
  counters = [];
  reliable = true;
  snowflake = flake 1 10;
  clock = 11 ∷ [];
  uploaded = [];
}

abbrev logic : List ℕ → ℕ → LogicState Bodies
logic clock last = record {
  messages = [];
  members = [];
  routes = (codes "route:user:8", codes "gw:8080") ∷ [];
  published = [];
  snowflake = flake 2 last;
  clock = clock;
  now = 40;
}

abbrev consumer : Consumer
consumer = record { pool = pool (codes "8") (pos 8); callback = true; notified = [] }

made : generate gateway.snowflake gateway.clock ≡ some (46141440, flake 1 11, [])
unfolding generate
made = refl

drew : draw (logic (12 ∷ []) 10) ≡ some (50339840, logic [] 12)
unfolding draw generate
drew = refl

there : get_client (format_int (pos 8)) consumer.pool ≡ some 3
unfolding get_client format_int
there = refl

single_chat_arrives_example :
    let p = upload_of (pos 7) to_eight 46141440 gateway in
    let s' = pushed plain_json p (codes "gw:8080") (logic (12 ∷ []) 10) (logic [] 12) in
    let (settled, c') = handle_mq_delivery plain_json false (inr (down_of p)) consumer in
    ((g' : Gateway Bodies) × (Chat.handle_single_chat plain_json
          (works false)
          (pos 7)
          (some to_eight)
          gateway
        ≡ some (true, g'))
      × (g'.uploaded ≡ inl p ∷ []))
    × (handle_upload_delivery plain_json (no_faults any_id) (inl p) (logic (12 ∷ []) 10)
        ≡ some (ack, s'))
    × (settled ≡ ack)
    × ((c'.pool.object 3).send_chan
        ≡ chat_push
            (pos 46141440)
            (pos (next_of (pos 7) to_eight gateway))
            (pos 7)
            (pos 0)
            (codes "hi")
          ∷ [])
    × (c'.notified ≡ (pos 7, pos 46141440) ∷ [])
    × ((serve false (notify_delivered (pos 46141440)) s'.messages).0
        ≡ record (stored_row p 40) { send_status = sent_unconfirmed } ∷ [])
unfolding format_int
single_chat_arrives_example =
    single_chat_arrives plain_json false any_id (pos 7) to_eight 46141440 50339840 3 (flake 1 11) []
      (codes "gw:8080") gateway (logic (12 ∷ []) 10) (logic [] 12) consumer refl made (omega arith)
      refl drew refl there refl (omega arith) refl
