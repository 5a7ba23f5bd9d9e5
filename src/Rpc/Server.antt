-- ===== src/Rpc/Server.antt =====
-- apps/pkg/geeRPC/server.go: the loop that reads a connection's requests, over any codec, and
-- the opening of a connection; the decoder of the options is taken to read no byte beyond them. How a request is answered is in Rpc/Handling.
use go_im_system.Prelude.{
  ℕ, zero, suc, ◌≡◌, refl, Bool, true, false, List, [], ◌∷◌, ◌++◌, Option, none, some, eq, Eq,
  nat_eq, list_Eq, nat_eq, ◌==◌, not, if◌then◌else◌,
}
use go_im_system.Text.{Text, codes}
use go_im_system.Rpc.Codec.{Header, Codec, Target, into, other, Reply, empty_header}
use go_im_system.Rpc.Dial.{RpcOption, magic, known_codec, connected}
use go_im_system.Rpc.Service.{GoType, MethodType, ServiceMap, Found, missing, found, find_service}
pub mod Loop

-- What `ServeConn` does with the options, if they can be decoded.
pub data Opening : Type 0 where
  options_error invalid_magic invalid_codec : Opening
  served : Text → Opening

unfoldable pub serve_conn : Option RpcOption → Opening
serve_conn none = options_error
serve_conn (some o) =
    if o.magic_number == magic
    then (if known_codec o.codec_type then served o.codec_type else invalid_codec)
    else invalid_magic

-- A request over HTTP is refused, or fails to be hijacked, or its connection is served after a line.
pub data HttpOpening : Type 0 where
  not_allowed : Text → HttpOpening
  hijack_error : HttpOpening
  tunnel : Text → Opening → HttpOpening

unfoldable pub serve_http : Text → Bool → Option RpcOption → HttpOpening
unfolding serve_conn
serve_http method hijack_fails opt =
    if eq method (codes "CONNECT")
    then (if hijack_fails
        then hijack_error
        else tunnel (codes "HTTP/1.0 " ++ (connected ++ codes "\n\n")) (serve_conn opt))
    else not_allowed (codes "405 must CONNECT\n")

-- What `readRequest` gives: an error with no request, an error for a request, or a request, with an
-- argument that was read or, after an error that is only logged, one that was not.
pub data Reading (B : Type 0) : Type 0 where
  no_request : Reading B
  rejected : Header → Text → Reading B
  request : Header → MethodType → Option B → Reading B

module _ (c : Codec) where
  open c use {Body, Input, Output, read_header, read_body, write}

  abbrev pub filled : Option Header → Header
  filled none = empty_header
  filled (some h) = h

  abbrev pub target : Bool → Target
  target true = into
  target false = other

  abbrev pub with_body : Header → MethodType → Option Body × Bool × Input → Reading Body × Input
  with_body h t (b, failed, s) = (request h t b, s)

  -- After an error of `findService` the body is not read.
  abbrev pub for_method : (GoType → Bool) → Header → Input → Found MethodType → Reading Body × Input
  for_method is_message h s (missing e) = (rejected h e, s)
  for_method is_message h s (found t) = with_body h t (read_body (target (is_message t.arg_type)) s)

  abbrev pub for_header :
      (GoType → Bool) → ServiceMap → Option Header × Bool × Input → Reading Body × Input
  for_header is_message m (h, true, s) = (no_request, s)
  for_header is_message m (h, false, s) =
      for_method is_message (filled h) s (find_service (filled h).service_method m)

  -- `is_message`: whether the codec reads an argument of the type; for protobuf, whether it, or its
  -- address, is a `proto.Message`.
  unfoldable pub read_request : (GoType → Bool) → ServiceMap → Input → Reading Body × Input
  read_request is_message m s = for_header is_message m (read_header s)

  -- The requests that `serveCodec` reads until it ends, or until the fuel is used up, and whether it has
  -- ended.
  abbrev pub after_reading : Reading Body → List (Reading Body) × Bool → List (Reading Body) × Bool
  after_reading no_request rest = ([], true)
  after_reading (rejected h e) (rs, ended) = (rejected h e ∷ rs, ended)
  after_reading (request h t b) (rs, ended) = (request h t b ∷ rs, ended)

  unfoldable pub serve_codec : (GoType → Bool) → ServiceMap → ℕ → Input → List (Reading Body) × Bool
  serve_codec is_message m zero s = ([], false)
  serve_codec is_message m (suc n) s =
      let (r, s') = read_request is_message m s in
      let rest = serve_codec is_message m n s' in after_reading r rest

  -- `sendResponse`: the header of the request with the error, and the body.
  unfoldable pub send_response : Header → Text → Reply Body → Output → Bool × Output
  send_response h e body o = write (record h { error = e }) body o
