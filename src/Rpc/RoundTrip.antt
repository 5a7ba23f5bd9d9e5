-- ===== src/Rpc/RoundTrip.antt =====
-- apps/pkg/geeRPC: one round of `receive` of client.go over any codec, the header that `send` writes, and the response of `handleRequest` in server.go.
use go_im_system.Prelude.{ℕ, ◌≡◌, Bool, true, false, List, [], ◌∷◌, ◌++◌, Option, none, some}
use go_im_system.Text.{Text}
use go_im_system.Rpc.Codec.{
  Header, Codec, Target, into, discard, Reply, no_body, message, empty_header,
}
use go_im_system.Rpc.Server.{send_response}
use go_im_system.Rpc.Handling.{Response}
use go_im_system.Rpc.Client.{
  Client, Receiver, at_header, discarding, answering, stopped, finished, on_header, on_body,
}
pub mod Answered
pub mod Outcome
pub mod Refused

-- The header of a request.
abbrev pub call_header : Text → ℕ → Header
call_header method n = record { service_method = method; seq = n; error = [] }

-- A body is read into the reply of a call whose header has no error, and dropped otherwise.
abbrev pub wanted : Receiver → Target
wanted (answering h []) = into
wanted _ = discard

module _ (codec : Codec) where
  open codec use {Body, Input, Output, read_header, read_body}

  -- What a round leaves: the client, the reply if one is read, and the rest of the stream.
  abbrev pub Received : Type 0
  Received = Client × Option Body × Input

  abbrev body_error : Text → Bool → Option Text
  body_error reason true = some reason
  body_error reason false = none

  abbrev read_reply : Text → Client → Option Body × Bool × Input → Received
  read_reply reason c (b, failed, s) = (on_body c.receiver (body_error reason failed) c, b, s)

  abbrev for_call : Text → Input → Client → Received
  for_call reason s c = read_reply reason c (read_body (wanted c.receiver) s)

  abbrev header_in : Option Header → Header
  header_in none = empty_header
  header_in (some h) = h

  abbrev with_header : Text → Client → Option Header × Bool × Input → Received
  with_header reason c (h, true, s) = (record c { receiver = stopped reason }, none, s)
  with_header reason c (h, false, s) =
      for_call reason s (on_header (header_in h).seq (header_in h).error c)

  -- `reason` is the text of the codec's error, if it has one.
  unfoldable pub receive_round : Text → Client → Input → Received
  receive_round reason c s = with_header reason c (read_header s)

  -- The reply, or the empty struct `invalidRequest`.
  abbrev pub response_body : Bool → Body → Reply Body
  response_body true b = message b
  response_body false b = no_body

  unfoldable pub send_answer : Header → Body → Response → Output → Bool × Output
  unfolding send_response
  send_answer h reply r o = send_response codec h r.error (response_body r.replies reply) o
