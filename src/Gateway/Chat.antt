-- ===== src/Gateway/Chat.antt =====
-- apps/gateway/ws/chat.go and reliability.go: what a gateway does with a client's chat message. The
-- bytes of the message come parsed (`encoding/json`); what Redis, the broker and the agent do on a
-- call is an argument.
use go_im_system.Prelude.{
  ℕ, suc, ◌+◌, ◌≡◌, refl, Bool, true, false, List, [], ◌∷◌, ◌++◌, Option, none, some, ℤ, pos,
  negsuc, int_lt, lookup, insert, if◌then◌else◌, Eq, list_Eq, nat_eq,
}
use go_im_system.Text.{Text, codes, format_int}
use go_im_system.Snowflake.{Snowflake, generate}
use go_im_system.Wire.{UploadPayload, Json, chat_type_single, chat_type_group, chat_type_ai}
use go_im_system.Gateway.Client.{Frame, server_ack, send_message}
use go_im_system.Gateway.Pool.{Pool, get_client, modify}
pub mod Conversation
pub mod Sequence

pub record ClientRequest : Type 0 where
  pub chat_type : Text
  pub receiver : ℤ
  pub group_id : ℤ
  pub message : Text

pub record ChatFaults : Type 0 where
  pub incr_fails : Bool
  pub publish_fails : Bool
  pub take_closed : Bool  -- the choice of the `select` in `SendMessage`

pub record Gateway (B : Type 0) : Type 0 where
  pub pool : Pool
  pub counters : List (Text × ℕ)  -- Redis keys under INCR
  pub reliable : Bool  -- `DefaultReliability` is set
  pub snowflake : Snowflake
  pub clock : List ℕ
  pub uploaded : List B  -- published under "upload.all", oldest first

-- The ordered pair of users.
unfoldable pub single_chat_conv_id : ℤ → ℤ → Text
single_chat_conv_id a b =
    if int_lt b a
    then format_int b ++ (codes "_" ++ format_int a)
    else format_int a ++ (codes "_" ++ format_int b)

unfoldable pub group_conv_id : ℤ → Text
group_conv_id g = codes "group_" ++ format_int g

unfoldable pub ai_conv_id : ℤ → Text
ai_conv_id uid = codes "ai_" ++ format_int uid

unfoldable pub seq_key : Text → ℤ → Text
seq_key conv participant = codes "seq:" ++ (conv ++ (codes ":" ++ format_int participant))

abbrev pub counter : Text → List (Text × ℕ) → ℕ
counter k m = elim (lookup k m) [ none ↦ 0 | some n ↦ n ]

module _ {B : Type 0} where
  -- `INCR`, which starts from 0.
  unfoldable pub get_next_seq_id : Text → ℤ → Gateway B → ℕ × Gateway B
  get_next_seq_id conv participant g =
      let n = counter (seq_key conv participant) g.counters + 1 in
      (n, record g { counters = insert (seq_key conv participant) n g.counters })

  unfoldable pub generate_msg_id : Gateway B → Option (ℕ × Gateway B)
  generate_msg_id g = elim (generate g.snowflake g.clock) [
    | none ↦ none
    | some (id, flake, rest) ↦ some (id, record g { snowflake = flake; clock = rest })
  ]

-- The ids of a message, or an early return.
pub data Ids (B : Type 0) : Type 0 where
  assigned : ℕ → ℕ → Gateway B → Ids B  -- msg_id, seq_id
  refused : Gateway B → Ids B
  waiting : Ids B  -- the clock gives no later time

module _ {B : Type 0} where
  unfoldable pub assign_ids : Bool → Text → ℤ → Gateway B → Ids B
  unfolding get_next_seq_id generate_msg_id
  assign_ids incr_fails conv sender g =
      if g.reliable
      then (if incr_fails
          then refused g
          else elim (generate_msg_id (get_next_seq_id conv sender g).1) [
            | none ↦ waiting
            | some (id, g') ↦ assigned id (get_next_seq_id conv sender g).0 g'
          ])
      else assigned 0 0 g

  -- `server_ack` to the sender's own connection, if it is on this gateway.
  unfoldable pub acknowledge : Bool → ℤ → ℕ → ℕ → Gateway B → Gateway B
  acknowledge take_closed sender id seq g = elim (get_client (format_int sender) g.pool) [
    | none ↦ g
    | some h ↦ record g {
      pool = modify h (send_message take_closed (server_ack (pos id) (pos seq))) g.pool;
    }
  ]

abbrev pub single_payload : ℤ → ClientRequest → ℕ → ℕ → Text → UploadPayload
single_payload sender r id seq conv = record {
  msg_id = pos id;
  seq_id = pos seq;
  chat_type = chat_type_single;
  group_id = pos 0;
  conv_id = conv;
  sender_id = sender;
  receiver_id = r.receiver;
  content = r.message;
}

abbrev pub group_payload : ℤ → ClientRequest → ℕ → ℕ → UploadPayload
group_payload sender r id seq = record {
  msg_id = pos id;
  seq_id = pos seq;
  chat_type = chat_type_group;
  group_id = r.group_id;
  conv_id = group_conv_id r.group_id;
  sender_id = sender;
  receiver_id = r.receiver;
  content = r.message;
}

-- The receiver is -1, the agent.
abbrev pub ai_payload : ℤ → ClientRequest → ℕ → ℕ → UploadPayload
ai_payload sender r id seq = record {
  msg_id = pos id;
  seq_id = pos seq;
  chat_type = chat_type_ai;
  group_id = pos 0;
  conv_id = ai_conv_id sender;
  sender_id = sender;
  receiver_id = negsuc 0;
  content = r.message;
}

module _ (j : Json) where
  open j use {Body, encode_upload}

  -- Publishes the payload and then acknowledges it; `false` if the handler has returned early.
  unfoldable pub publish_and_ack :
      ChatFaults → ℤ → ℕ → ℕ → UploadPayload → Gateway Body → Bool × Gateway Body
  publish_and_ack f sender id seq p g = if f.publish_fails then (false, g) else (
    true,
    acknowledge f.take_closed sender id seq
        (record g { uploaded = g.uploaded ++ encode_upload p ∷ [] }),
  )

  abbrev with_ids :
      Ids Body → (ℕ → ℕ → Gateway Body → Bool × Gateway Body) → Option (Bool × Gateway Body)
  with_ids (assigned id seq g) k = some (k id seq g)
  with_ids (refused g) k = some (false, g)
  with_ids waiting k = none

  -- Without the manager the conversation id of a single chat stays empty.
  unfoldable pub handle_single_chat :
      ChatFaults → ℤ → Option ClientRequest → Gateway Body → Option (Bool × Gateway Body)
  handle_single_chat f sender none g = some (false, g)
  handle_single_chat f sender (some r) g =
      let conv = if g.reliable then single_chat_conv_id sender r.receiver else [] in
      with_ids (assign_ids f.incr_fails conv sender g)
        (λ id seq g'. publish_and_ack f sender id seq (single_payload sender r id seq conv) g')

  unfoldable pub handle_group_chat :
      ChatFaults → ℤ → Option ClientRequest → Gateway Body → Option (Bool × Gateway Body)
  handle_group_chat f sender none g = some (false, g)
  handle_group_chat f sender (some r) g =
      with_ids (assign_ids f.incr_fails (group_conv_id r.group_id) sender g)
        (λ id seq g'. publish_and_ack f sender id seq (group_payload sender r id seq) g')

  -- Up to the call of the agent; `Gateway.Relay` has the rest.
  unfoldable pub handle_ai_question :
      ChatFaults → ℤ → Option ClientRequest → Gateway Body → Option (Bool × Gateway Body)
  handle_ai_question f sender none g = some (false, g)
  handle_ai_question f sender (some r) g =
      with_ids (assign_ids f.incr_fails (ai_conv_id sender) sender g)
        (λ id seq g'. publish_and_ack f sender id seq (ai_payload sender r id seq) g')
