-- ===== src/Rpc/Server/Loop.antt =====
-- The requests of a client come in order, and the loop goes on after them.
use mathlib.Core.List.{append_assoc, append-nil}
use go_im_system.Prelude.{
  ℕ, zero, suc, ◌+◌, ◌≡◌, refl, ap, sym, ◌∙◌, Bool, true, false, List, [], ◌∷◌, ◌++◌, some, length,
  All, arith, ◌<◌, ◌^◌,
}
use go_im_system.Text.{Text, codes}
use go_im_system.Text.Split.{cut_last}
use go_im_system.Rpc.Codec.{
  protobuf_codec, Bytes, Header, Proto, Out, frame, empty_header, message, write, read_header,
  read_frame,
}
use go_im_system.Rpc.Codec.Frames.{write-read}
use go_im_system.Rpc.Service.{GoType, MethodType, ServiceMap, found, find_service}
use go_im_system.Rpc.Server.{Reading, rejected, request, read_request, serve_codec}

abbrev pub ill_formed : Text
ill_formed = codes "rpc server: service/method request ill-formed: "

abbrev pub start : Out
start = record { buf = []; sent = [] }

module _ (p : Proto) (is_message : GoType → Bool) (m : ServiceMap) where
  open p use {Body, marshal_header, marshal_body}

  -- A request, with its bytes and the type of its method.
  pub record Asked : Type 0 where
    pub header : Header
    pub body : Body
    pub header_bytes : Bytes
    pub body_bytes : Bytes
    pub type : MethodType

  -- The codec can carry it, and a service answers it.
  pub record Carried (a : Asked) : Type 0 where
    pub header_made : marshal_header a.header ≡ some a.header_bytes
    pub body_made : marshal_body a.body ≡ some a.body_bytes
    pub header_small : length a.header_bytes < 2 ^ 32
    pub body_small : length a.body_bytes < 2 ^ 32
    pub offered : find_service a.header.service_method m ≡ found a.type
    pub taken_in : is_message a.type.arg_type ≡ true

  -- The client writes them one after the other.
  abbrev pub write_all : List Asked → Out → Out
  write_all [] o = o
  write_all (a ∷ qs) o = write_all qs (write p a.header (message a.body) o).1

  abbrev pub taken : List Asked → List (Reading Body)
  taken [] = []
  taken (a ∷ qs) = request a.header a.type (some a.body) ∷ taken qs

  abbrev pub replicate : ℕ → Reading Body → List (Reading Body)
  replicate zero r = []
  replicate (suc n) r = r ∷ replicate n r

  abbrev frames : List Asked → Bytes
  frames [] = []
  frames (a ∷ qs) = (frame a.header_bytes ++ frame a.body_bytes) ++ frames qs

  pub sent_by :
      (qs : List Asked) (o : Out)
      → All Carried qs
      → o.buf ≡ []
      → (write_all qs o).sent ≡ o.sent ++ frames qs
  sent_by [] o ok empty = sym (append-nil o.sent)
  sent_by (a ∷ qs) o (ok, oks) empty =
      let (fails, emptied, sent, head, body) =
        write-read p a.header a.body a.header_bytes a.body_bytes o [] ok.header_made ok.body_made
          ok.header_small ok.body_small empty in
      sent_by qs (write p a.header (message a.body) o).1 oks emptied
      ∙ ap (λ s. s ++ frames qs) sent
      ∙ append_assoc o.sent (frame a.header_bytes ++ frame a.body_bytes) (frames qs)

  pub read_asked :
      (a : Asked) (s : Bytes)
      → Carried a
      → read_request
          (protobuf_codec p)
          is_message
          m
          ((frame a.header_bytes ++ frame a.body_bytes) ++ s)
        ≡ (request a.header a.type (some a.body), s)
  unfolding read_request
  read_asked a s ok =
      let (fails, emptied, sent, head, body) =
        write-read p a.header a.body a.header_bytes a.body_bytes start s ok.header_made ok.body_made
          ok.header_small ok.body_small refl in
      rw (head, ok.offered, ok.taken_in, body) refl

  read_at_end :
      read_request (protobuf_codec p) is_message m [] ≡ (rejected empty_header ill_formed, [])
  unfolding read_request read_header read_frame find_service cut_last
  read_at_end = refl

  serve_at_end :
      (n : ℕ)
      → serve_codec (protobuf_codec p) is_message m n []
        ≡ (replicate n (rejected empty_header ill_formed), false)
  unfolding serve_codec
  serve_at_end zero = refl
  serve_at_end (suc n) = rw (read_at_end, serve_at_end n) refl

  serve_asked :
      (a : Asked) (n : ℕ) (s : Bytes)
      → Carried a
      → let rest = serve_codec (protobuf_codec p) is_message m n s in
        serve_codec
          (protobuf_codec p)
          is_message
          m
          (suc n)
          ((frame a.header_bytes ++ frame a.body_bytes) ++ s)
        ≡ (request a.header a.type (some a.body) ∷ rest.0, rest.1)
  unfolding serve_codec
  serve_asked a n s ok = rw (read_asked a s ok) refl

  serve_frames :
      (qs : List Asked) (n k : ℕ)
      → k ≡ length qs + n
      → All Carried qs
      → serve_codec (protobuf_codec p) is_message m k (frames qs)
        ≡ (taken qs ++ replicate n (rejected empty_header ill_formed), false)
  serve_frames [] n k fuel ok =
      ap (λ i. serve_codec (protobuf_codec p) is_message m i []) (omega (arith, fuel))
      ∙ serve_at_end n
  serve_frames (a ∷ qs) n zero fuel ok = absurd (omega (arith, fuel))
  serve_frames (a ∷ qs) n (suc k) fuel (ok, oks) =
      serve_asked a k (frames qs) ok
      ∙ ap (λ rest. (request a.header a.type (some a.body) ∷ rest.0, rest.1))
          (serve_frames qs n k (omega (arith, fuel)) oks)

  -- A client writes any list of requests over the protobuf codec, each with a header and a
  -- body that can be marshalled, in less than 2 ^ 32 bytes each, for a method that the server
  -- has and whose argument is a message: the server's loop reads just these, in their order,
  -- each with its header, its method's type and its body; and when the stream has ended after
  -- them, the loop does not end but, however many rounds it goes on, rejects in each an
  -- ill-formed request with an empty header.
  pub serve-written :
      (qs : List Asked) (n : ℕ)
      → All Carried qs
      → serve_codec (protobuf_codec p) is_message m (length qs + n) (write_all qs start).sent
        ≡ (taken qs ++ replicate n (rejected empty_header ill_formed), false)
  serve-written qs n ok = rw (sent_by qs start ok refl) (serve_frames qs n (length qs + n) refl ok)
