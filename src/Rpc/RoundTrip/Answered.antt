-- ===== src/Rpc/RoundTrip/Answered.antt =====
-- A call is answered over the wire.
use mathlib.Core.List.{append_assoc}
use go_im_system.Prelude.{
  ℕ, ◌≡◌, ◌<◌, ◌^◌, refl, ap, ◌∙◌, true, false, [], ◌∷◌, ◌++◌, Option, none, some, length, arith,
  lookup, nat_eq,
}
use go_im_system.Text.{Text}
use go_im_system.Rpc.Codec.{
  protobuf_codec, no_body, Bytes, Header, Proto, Out, frame, read_header, write, read_body,
}
use go_im_system.Rpc.Codec.Frames.{write-read, read-frame, read-header}
use go_im_system.Rpc.Server.{send_response}
use go_im_system.Rpc.Handling.{Response}
use go_im_system.Rpc.Client.{Client, at_header, on_header, on_body, remove_call, finish}
use go_im_system.Rpc.Client.Sound.{removed}
use go_im_system.Rpc.RoundTrip.{receive_round, send_answer}

module _ (p : Proto) where
  open p use {Body, marshal_header, marshal_body}

  -- The codec can carry a header, or a body.
  pub record Fits (h : Header) : Type 0 where
    pub bytes : Bytes
    pub made : marshal_header h ≡ some bytes
    pub small : length bytes < 2 ^ 32

  pub record FitsBody (b : Body) : Type 0 where
    pub bytes : Bytes
    pub made : marshal_body b ≡ some bytes
    pub small : length bytes < 2 ^ 32

  -- The loop takes the call out of the table and finishes it.
  abbrev pub answered : ℕ → ℕ → Option Text → Client → Client
  answered n h e c = finish h e (record (removed n c) { receiver = at_header })

  -- What one exchange comes to.
  abbrev pub Exchanged :
      Text → Header → Body → Response → Out → Bytes → Client → Client → Option Body → Type 0
  Exchanged reason h reply r o s c c' b =
      let (fails, o') = send_answer (protobuf_codec p) h reply r o in
      (fails ≡ false)
      × (o'.buf ≡ [])
      × ((bytes : Bytes) × (o'.sent ≡ o.sent ++ bytes)
          × (receive_round (protobuf_codec p) reason c (bytes ++ s) ≡ (c', b, s)))

  pub reply_received :
      (reason : Text) (h : Header) (k : ℕ) (reply : Body) (o : Out) (s : Bytes) (c : Client)
      → Fits (record h { error = [] })
      → FitsBody reply
      → o.buf ≡ []
      → lookup h.seq c.pending ≡ some k
      → Exchanged reason h reply
          (record { error = []; replies = true })
          o
          s
          c
          (answered h.seq k none c)
          (some reply)
  unfolding receive_round send_answer send_response on_header on_body remove_call
  reply_received reason h k reply o s c head body empty found =
      let (fails, emptied, sent, header, back) =
        write-read p (record h { error = [] }) reply head.bytes body.bytes o s head.made body.made
          head.small body.small empty in
      (fails, emptied, (frame head.bytes ++ frame body.bytes, sent, rw (header, found, back) refl))

  write_empty :
      (h : Header) (d : Bytes) (o : Out)
      → marshal_header h ≡ some d
      → o.buf ≡ []
      → let (fails, o') = write p h no_body o in
        (fails ≡ false) × (o'.buf ≡ []) × (o'.sent ≡ o.sent ++ (frame d ++ frame []))
  unfolding write
  write_empty h d o made empty = ground (arith, made, empty)

  pub refusal_received :
      (reason : Text) (h : Header) (a : ℕ) (e : Text) (k : ℕ) (reply : Body) (o : Out) (s : Bytes)
      (c : Client)
      → Fits (record h { error = a ∷ e })
      → o.buf ≡ []
      → lookup h.seq c.pending ≡ some k
      → Exchanged reason h reply
          (record { error = a ∷ e; replies = false })
          o
          s
          c
          (answered h.seq k (some (a ∷ e)) c)
          none
  unfolding receive_round send_answer send_response on_header on_body remove_call read_body
  refusal_received reason h a e k reply o s c head empty found =
      let d = head.bytes in
      let header : read_header p ((frame d ++ frame []) ++ s)
          ≡ (some (record h { error = a ∷ e }), false, frame [] ++ s) =
        ap (read_header p) (append_assoc (frame d) (frame []) s)
        ∙ read-header p (record h { error = a ∷ e }) d (frame [] ++ s) head.made head.small in
      let (fails, emptied, sent) = write_empty (record h { error = a ∷ e }) d o head.made empty in
      (
        fails,
        emptied,
        (frame d ++ frame [], sent, rw (header, found, read-frame [] s (omega arith)) refl),
      )
