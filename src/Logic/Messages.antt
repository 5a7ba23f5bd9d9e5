-- ===== src/Logic/Messages.antt =====
-- apps/logic/models/messages.go and apps/logic/dao/messages.go. A fault of the database is an argument
-- of the call; the time that gorm fills in is the argument `now`.
use go_im_system.Prelude.{
  ℕ, Bool, true, ◌&&◌, not, List, Option, none, some, ℤ, pos, int_eq, int_Eq, ◌==◌, if◌then◌else◌,
}
use go_im_system.Text.{Text}
use go_im_system.Sql.{select_where, update_where, insert_row}

abbrev pub unsent : ℕ
unsent = 0

abbrev pub sent_unconfirmed : ℕ
sent_unconfirmed = 1

abbrev pub sent_confirmed : ℕ
sent_confirmed = 2

pub record Messages : Type 0 where
  pub msg_id : ℤ
  pub seq_id : ℤ
  pub sender_id : ℤ
  pub receiver_id : ℤ
  pub group_id : ℤ
  pub is_read : Bool
  pub content : Text
  pub send_status : ℕ  -- int8
  pub create_time : ℕ

-- `NewMessages`, given the id that the Snowflake made.
abbrev pub new_messages : ℕ → ℤ → ℤ → ℤ → Text → Bool → Messages
new_messages id sender receiver group content is_read = record {
  msg_id = pos id;
  seq_id = pos 0;
  sender_id = sender;
  receiver_id = receiver;
  group_id = group;
  is_read = is_read;
  content = content;
  send_status = unsent;
  create_time = 0;
}

abbrev pub message_key : Messages → ℤ
message_key m = m.msg_id

-- gorm leaves a zero id out, and the database then gives the row an id of its own, `assigned`.
abbrev pub row_id : ℤ → ℤ → ℤ
row_id assigned id = if int_eq id (pos 0) then assigned else id

-- The row as the table gets it, with `create_time` filled in; the caller's message has its id, too.
abbrev pub message_row : ℤ → ℕ → Messages → Messages
message_row assigned now m = record m { msg_id = row_id assigned m.msg_id; create_time = now }

-- `Create`: the primary key is `msg_id`.
unfoldable pub insert_message : Bool → ℤ → ℕ → Messages → List Messages → Option (List Messages)
insert_message fault assigned now m = insert_row message_key fault (message_row assigned now m)

abbrev pub is_unread_of : ℤ → Messages → Bool
is_unread_of receiver m = int_eq m.receiver_id receiver && not m.is_read

abbrev pub read_row : Messages → Messages
read_row m = record m { is_read = true; send_status = sent_confirmed }

abbrev pub is_unread_id : ℤ → Messages → Bool
is_unread_id id m = int_eq m.msg_id id && not m.is_read

abbrev pub is_unsent_id : ℤ → Messages → Bool
is_unsent_id id m = int_eq m.msg_id id && m.send_status == unsent

abbrev pub deliver_row : Messages → Messages
deliver_row m = record m { send_status = sent_unconfirmed }

unfoldable pub get_unread_messages : Bool → ℤ → List Messages → Option (List Messages)
get_unread_messages fault receiver t =
    if fault then none else some (select_where (is_unread_of receiver) t)

unfoldable pub mark_messages_as_read : Bool → ℤ → List Messages → Option (List Messages)
mark_messages_as_read fault receiver t =
    if fault then none else some (update_where (is_unread_of receiver) read_row t)

unfoldable pub mark_message_as_read : Bool → ℤ → List Messages → Option (List Messages)
mark_message_as_read fault id t =
    if fault then none else some (update_where (is_unread_id id) read_row t)

-- Only 0 → 1.
unfoldable pub mark_send_transport_delivered : Bool → ℤ → List Messages → Option (List Messages)
mark_send_transport_delivered fault id t =
    if fault then none else some (update_where (is_unsent_id id) deliver_row t)
