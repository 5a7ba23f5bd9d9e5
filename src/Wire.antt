-- ===== src/Wire.antt =====
-- apps/pkg/mq/rabbitmq.go, the payloads of the two exchanges, and the JSON that carries them.
-- `encoding/json` is an interface: a type of bodies, the four conversions, and the round trips that
-- its documentation gives for these structs.
use go_im_system.Prelude.{ℤ, ◌≡◌, refl, ◌⊎◌, inl, inr, Option, none, some}
use go_im_system.Text.{Text, codes}

abbrev pub chat_type_single : Text
chat_type_single = codes "single_chat"

abbrev pub chat_type_group : Text
chat_type_group = codes "group_chat"

abbrev pub chat_type_ai : Text
chat_type_ai = codes "ai_chat"

-- Logic to gateway.
pub record DownPayload : Type 0 where
  pub msg_id : ℤ
  pub seq_id : ℤ
  pub group_id : ℤ
  pub sender_id : ℤ
  pub receiver_id : ℤ
  pub content : Text
  pub chat_type : Text

-- Gateway to Logic.
pub record UploadPayload : Type 0 where
  pub msg_id : ℤ
  pub seq_id : ℤ
  pub chat_type : Text
  pub group_id : ℤ
  pub conv_id : Text
  pub sender_id : ℤ
  pub receiver_id : ℤ
  pub content : Text

pub record Json : Type 1 where
  pub Body : Type 0
  pub encode_upload : UploadPayload → Body
  pub decode_upload : Body → Option UploadPayload
  pub encode_down : DownPayload → Body
  pub decode_down : Body → Option DownPayload
  pub decode_upload-encode : (p : UploadPayload) → decode_upload (encode_upload p) ≡ some p
  pub decode_down-encode : (p : DownPayload) → decode_down (encode_down p) ≡ some p

abbrev read_upload : UploadPayload ⊎ DownPayload → Option UploadPayload
read_upload (inl p) = some p
read_upload (inr p) = none

abbrev read_down : UploadPayload ⊎ DownPayload → Option DownPayload
read_down (inl p) = none
read_down (inr p) = some p

-- Bodies as the payloads themselves: the interface can be met.
abbrev pub plain_json : Json
plain_json = record {
  Body = UploadPayload ⊎ DownPayload;
  encode_upload = λ p. inl p;
  decode_upload = read_upload;
  encode_down = λ p. inr p;
  decode_down = read_down;
  decode_upload-encode = λ p. refl;
  decode_down-encode = λ p. refl;
}

-- What a consumer tells the broker: done, to the dead letters, or back into the queue.
pub data Settle : Type 0 where
  ack nack_drop nack_requeue : Settle
