-- ===== src/Rpc/Codec.antt =====
-- apps/pkg/geeRPC/codec/codec.go and protobuf.go: requests and replies as frames of four length bytes and data.
-- What `proto.Marshal` and `proto.Unmarshal` do is an interface. A read waits for bytes until the
-- stream ends, so that the bytes of a stream are all it ever holds. The buffer's own flush when it is
-- full only sends bytes earlier and is left out; the connection takes all bytes.
use go_im_system.Prelude.{
  ℕ, ◌+◌, ◌*◌, ◌/◌, ◌%◌, ◌^◌, ◌≡◌, ◌<◌, Bool, true, false, ltb, List, [], ◌∷◌, ◌++◌, Option, none,
  some, take, drop, length, if◌then◌else◌,
}
use go_im_system.Text.{Text}
pub mod Frames
pub mod Values

abbrev pub Bytes : Type 0
Bytes = List ℕ

pub record Header : Type 0 where
  pub service_method : Text
  pub seq : ℕ
  pub error : Text

-- The two kinds of messages; reading gives back what was written.
pub record Proto : Type 1 where
  pub Body : Type 0
  pub marshal_header : Header → Option Bytes
  pub unmarshal_header : Bytes → Option Header
  pub marshal_body : Body → Option Bytes
  pub unmarshal_body : Bytes → Option Body
  pub header-law :
      (h : Header) (d : Bytes) → marshal_header h ≡ some d → unmarshal_header d ≡ some h
  pub body-law : (b : Body) (d : Bytes) → marshal_body b ≡ some d → unmarshal_body d ≡ some b

-- `binary.Write` of the length, cut to 32 bits, in big-endian order.
abbrev pub be32 : ℕ → Bytes
be32 n = (n / 2 ^ 24 % 256) ∷ ((n / 2 ^ 16 % 256) ∷ ((n / 2 ^ 8 % 256) ∷ ((n % 256) ∷ [])))

abbrev pub frame : Bytes → Bytes
frame d = be32 (length d % 2 ^ 32) ++ d

-- What is read: no length, or too little data, or a frame; and the rest of the stream.
pub data Read : Type 0 where
  no_length cut_off : Read
  complete : Bytes → Read

abbrev take_data : ℕ → Bytes → Read × Bytes
take_data n s = if ltb (length s) n then (cut_off, []) else (complete (take n s), drop n s)

unfoldable pub read_frame : Bytes → Read × Bytes
read_frame (a ∷ (b ∷ (c ∷ (d ∷ s)))) = take_data (a * 2 ^ 24 + b * 2 ^ 16 + c * 2 ^ 8 + d) s
read_frame _ = (no_length, [])

-- Output: what the buffer holds, and what is sent.
pub record Out : Type 0 where
  pub buf : Bytes
  pub sent : Bytes

abbrev pub flush : Out → Out
flush o = record { buf = []; sent = o.sent ++ o.buf }

abbrev pub put : Bytes → Out → Out
put d o = record o { buf = o.buf ++ frame d }

abbrev pub empty_header : Header
empty_header = record { service_method = []; seq = 0; error = [] }

-- Where a body is read into: nowhere (`nil`), a value that is no message, or a message.
pub data Target : Type 0 where
  discard other into : Target

-- What is passed as a body: `nil` or an empty struct, a value that is no message, or a message.
pub data Reply (B : Type 0) : Type 0 where
  no_body no_message : Reply B
  message : B → Reply B

-- The interface of codec/codec.go, over what is still to be read and what was written. A read gives
-- what it fills in, whether there is an error, and the rest; a write, whether there is an error.
pub record Codec : Type 1 where
  pub Body : Type 0
  pub Input : Type 0
  pub Output : Type 0
  pub read_header : Input → Option Header × Bool × Input
  pub read_body : Target → Input → Option Body × Bool × Input
  pub write : Header → Reply Body → Output → Bool × Output

module _ (p : Proto) where
  open p use {Body, marshal_header, unmarshal_header, marshal_body, unmarshal_body}

  abbrev write_body : Reply Body → Out → Bool × Out
  write_body no_body o = (false, flush (put [] o))
  write_body no_message o = (true, o)
  write_body (message b) o = elim (marshal_body b) [
    | none ↦ (true, o)
    | some d ↦ (false, flush (put d o))
  ]

  -- The first result is whether there is an error.
  unfoldable pub write : Header → Reply Body → Out → Bool × Out
  write h body o = elim (marshal_header h) [ none ↦ (true, o) | some d ↦ write_body body (put d o) ]

  -- The header if it is filled in, whether there is an error, and the rest. An error of the length or
  -- of the data is dropped; cut off data fill in an empty header.
  abbrev header_of : Read × Bytes → Option Header × Bool × Bytes
  header_of (no_length, s) = (none, false, s)
  header_of (cut_off, s) = (some empty_header, false, s)
  header_of (complete d, s) = (unmarshal_header d, false, s)

  unfoldable pub read_header : Bytes → Option Header × Bool × Bytes
  read_header s = header_of (read_frame s)

  unfoldable pub is_error : Option Body → Bool
  is_error none = true
  is_error (some b) = false

  abbrev body_of : Bool → Read × Bytes → Option Body × Bool × Bytes
  body_of wanted (no_length, s) = (none, true, s)
  body_of wanted (cut_off, s) = (none, false, s)
  body_of false (complete d, s) = (none, false, s)
  body_of true (complete d, s) = (unmarshal_body d, is_error (unmarshal_body d), s)

  unfoldable pub read_body : Target → Bytes → Option Body × Bool × Bytes
  unfolding is_error
  read_body discard s = body_of false (read_frame s)
  read_body other s = (none, true, s)
  read_body into s = body_of true (read_frame s)

  abbrev pub protobuf_codec : Codec
  protobuf_codec = record {
    Body = Body;
    Input = Bytes;
    Output = Out;
    read_header = read_header;
    read_body = read_body;
    write = write;
  }
