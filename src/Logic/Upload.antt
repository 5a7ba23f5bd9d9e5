-- ===== src/Logic/Upload.antt =====
-- apps/logic/service/upload_consumer.go. One delivery is handled from the start to its settlement;
-- the workers' interleaving is a sequence of such deliveries. What the database, Redis and the
-- broker do on a call is an argument (`Faults`).
use go_im_system.Prelude.{
  ℕ, Bool, true, false, List, [], ◌∷◌, ◌++◌, Option, none, some, ℤ, pos, int_eq, eq, nat_eq,
  list_Eq, lookup, if◌then◌else◌,
}
use go_im_system.Text.{Text, codes, format_int}
use go_im_system.Snowflake.{Snowflake, generate}
use go_im_system.Wire.{
  DownPayload, UploadPayload, Json, Settle, ack, nack_drop, nack_requeue, chat_type_single,
  chat_type_group, chat_type_ai,
}
use go_im_system.Logic.Messages.{Messages, new_messages, row_id, insert_message}

pub record Faults : Type 0 where
  pub insert_fails : Bool
  pub assigned : ℤ  -- the id of a row without one
  pub redis_fails : Bool
  pub publish_fails : Bool

pub record DeliveryFaults : Type 0 where
  pub members_fails : Bool
  pub direct : Faults
  pub for_member : ℤ → Faults

pub record LogicState (B : Type 0) : Type 0 where
  pub messages : List Messages
  pub members : List (ℤ × ℤ)  -- group_id, user_id
  pub routes : List (Text × Text)  -- route:user:<id>, gateway
  pub published : List (Text × B)  -- gateway, body; oldest first
  pub snowflake : Snowflake
  pub clock : List ℕ
  pub now : ℕ

pub data Outcome : Type 0 where
  done failed : Outcome

abbrev pub route_key : ℤ → Text
route_key uid = codes "route:user:" ++ format_int uid

-- `GetGroupMembers`: the sender is among them.
abbrev pub user_ids : ℤ → List (ℤ × ℤ) → List ℤ
user_ids group [] = []
user_ids group ((g, u) ∷ rows) =
    if int_eq g group then u ∷ user_ids group rows else user_ids group rows

unfoldable pub get_group_members : Bool → ℤ → List (ℤ × ℤ) → Option (List ℤ)
get_group_members fault group rows = if fault then none else some (user_ids group rows)

module _ {B : Type 0} where
  -- `utils.GetSnowflake().Generate()`; `none` while the clock gives no later time.
  unfoldable pub draw : LogicState B → Option (ℕ × LogicState B)
  draw s = elim (generate s.snowflake s.clock) [
    | none ↦ none
    | some (id, flake, rest) ↦ some (id, record s { snowflake = flake; clock = rest })
  ]

  unfoldable pub publish_down : Bool → Text → B → LogicState B → LogicState B
  publish_down fault gateway body s =
      if fault then s else record s { published = s.published ++ (gateway, body) ∷ [] }

abbrev pub down_of : UploadPayload → DownPayload
down_of p = record {
  msg_id = p.msg_id;
  seq_id = p.seq_id;
  group_id = pos 0;
  sender_id = p.sender_id;
  receiver_id = p.receiver_id;
  content = p.content;
  chat_type = p.chat_type;
}

abbrev pub member_down : UploadPayload → ℤ → ℤ → DownPayload
member_down p member id = record {
  msg_id = id;
  seq_id = p.seq_id;
  group_id = p.group_id;
  sender_id = p.sender_id;
  receiver_id = member;
  content = p.content;
  chat_type = p.chat_type;
}

-- The row of a single chat or of a question to the AI: the gateway's id replaces the fresh one.
abbrev pub upload_row : Bool → UploadPayload → ℕ → Messages
upload_row is_read p fresh =
    record (new_messages fresh p.sender_id p.receiver_id p.group_id p.content is_read) {
      msg_id = p.msg_id;
      seq_id = p.seq_id;
    }

abbrev pub member_row : UploadPayload → ℤ → ℕ → ℕ → Messages
member_row p member fresh id =
    record (new_messages fresh p.sender_id member p.group_id p.content false) {
      msg_id = pos id;
      seq_id = p.seq_id;
    }

module _ (j : Json) where
  open j use {Body, encode_down, decode_upload}

  -- From the look-up of the route to the end of `handleSingleChat`.
  unfoldable pub route_single : Faults → UploadPayload → LogicState Body → Outcome × LogicState Body
  route_single f p s =
      if f.redis_fails then (failed, s) else elim (lookup (route_key p.receiver_id) s.routes) [
        | none ↦ (done, s)
        | some gateway ↦ (done, publish_down f.publish_fails gateway (encode_down (down_of p)) s)
      ]

  unfoldable pub store_single :
      Faults → UploadPayload → ℕ → LogicState Body → Outcome × LogicState Body
  store_single f p fresh s =
      elim (insert_message f.insert_fails f.assigned s.now (upload_row false p fresh) s.messages) [
        | none ↦ (failed, s)
        | some t ↦ route_single f p (record s { messages = t })
      ]

  unfoldable pub handle_single_chat :
      Faults → UploadPayload → LogicState Body → Option (Outcome × LogicState Body)
  handle_single_chat f p s = elim (draw s) [
    | none ↦ none
    | some (fresh, s') ↦ some (store_single f p fresh s')
  ]

  unfoldable pub handle_ai_chat :
      Faults → UploadPayload → LogicState Body → Option (Outcome × LogicState Body)
  handle_ai_chat f p s = elim (draw s) [
    | none ↦ none
    | some (fresh, s') ↦
        elim (insert_message f.insert_fails f.assigned s'.now (upload_row true p fresh)
          s'.messages) [
            | none ↦ some (failed, s')
            | some t ↦ some (done, record s' { messages = t })
          ]
  ]

  -- One round of the loop over the members, after the two ids are drawn.
  unfoldable pub deliver_member :
      Faults → UploadPayload → ℤ → ℕ → ℕ → LogicState Body → LogicState Body
  deliver_member f p member fresh id s =
      elim (insert_message f.insert_fails f.assigned s.now (member_row p member fresh id)
        s.messages) [
          | none ↦ s
          | some t ↦
              if f.redis_fails
              then record s { messages = t }
              else elim (lookup (route_key member) s.routes) [
                | none ↦ record s { messages = t }
                | some gateway ↦
                    publish_down f.publish_fails gateway
                      (encode_down (member_down p member (row_id f.assigned (pos id))))
                      (record s { messages = t })
              ]
        ]

  -- `NewMessages` draws an id, and the loop draws the one that is used.
  unfoldable pub member_round :
      Faults → UploadPayload → ℤ → LogicState Body → Option (LogicState Body)
  member_round f p member s = elim (draw s) [
    | none ↦ none
    | some (fresh, s') ↦ elim (draw s') [
      | none ↦ none
      | some (id, s'') ↦ some (deliver_member f p member fresh id s'')
    ]
  ]

  -- A step with its continuation for the rest of the members.
  abbrev pub and_then :
      Option (LogicState Body)
      → (LogicState Body → Option (LogicState Body))
      → Option (LogicState Body)
  and_then none k = none
  and_then (some s) k = k s

  unfoldable pub member_loop :
      (ℤ → Faults) → UploadPayload → List ℤ → LogicState Body → Option (LogicState Body)
  member_loop f p [] s = some s
  member_loop f p (m ∷ ms) s =
      and_then (if int_eq m p.sender_id then some s else member_round (f m) p m s)
        (member_loop f p ms)

  unfoldable pub handle_group_chat :
      DeliveryFaults → UploadPayload → LogicState Body → Option (Outcome × LogicState Body)
  handle_group_chat f p s = elim (get_group_members f.members_fails p.group_id s.members) [
    | none ↦ some (failed, s)
    | some ms ↦ elim (member_loop f.for_member p ms s) [ none ↦ none | some s' ↦ some (done, s') ]
  ]

  -- An error of a handler puts the delivery back; an unknown chat type is acknowledged.
  abbrev pub settle : Option (Outcome × LogicState Body) → Option (Settle × LogicState Body)
  settle none = none
  settle (some (done, s)) = some (ack, s)
  settle (some (failed, s)) = some (nack_requeue, s)

  unfoldable pub dispatch_upload :
      DeliveryFaults → UploadPayload → LogicState Body → Option (Settle × LogicState Body)
  dispatch_upload f p s =
      if eq p.chat_type chat_type_single
      then settle (handle_single_chat f.direct p s)
      else if eq p.chat_type chat_type_group
      then settle (handle_group_chat f p s)
      else if eq p.chat_type chat_type_ai
      then settle (handle_ai_chat f.direct p s)
      else some (ack, s)

  unfoldable pub handle_upload_delivery :
      DeliveryFaults → Body → LogicState Body → Option (Settle × LogicState Body)
  handle_upload_delivery f body s = elim (decode_upload body) [
    | none ↦ some (nack_drop, s)
    | some p ↦ dispatch_upload f p s
  ]
