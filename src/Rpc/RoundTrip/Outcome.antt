-- ===== src/Rpc/RoundTrip/Outcome.antt =====
-- What a caller learns of its call.
use go_im_system.Prelude.{
  ℕ, ◌≡◌, ◌≢◌, refl, ap, ◌∙◌, Bool, true, false, List, [], ◌∷◌, ◌++◌, Option, none, some, arith,
  inl, inr, ◌⊎◌, lookup, nat_eq,
}
use go_im_system.Text.{Text, codes}
use go_im_system.Rpc.Codec.{protobuf_codec, Bytes, Header, Proto, Out, message, write}
use go_im_system.Rpc.Service.{GoType, MethodType, ServiceMap, found, find_service}
use go_im_system.Rpc.Server.{read_request, request}
use go_im_system.Rpc.Server.Loop.{start, Asked, Carried, sent_by, read_asked}
use go_im_system.Rpc.Handling
use go_im_system.Rpc.Handling.{Response, Handling, handling_of, ended, left, timeout_error}
use go_im_system.Rpc.Handling.Answer.{finishing, answered_once, response_of, too_late}
use go_im_system.Rpc.Client.{Client, at_header, new_client_codec}
use go_im_system.Rpc.Client
use go_im_system.Rpc.Client.Table.{lookup-waits}
use go_im_system.Rpc.Client.Sound.{Sound-new_client_codec}
use go_im_system.Rpc.Client.Once.{run-Sound}
use go_im_system.Rpc.RoundTrip.{call_header}
use go_im_system.Rpc.RoundTrip.Answered.{
  Fits, FitsBody, Exchanged, answered, reply_received, refusal_received,
}

-- A request's two goroutines, from the start until the handler has ended and both have taken their turns.
abbrev pub handled_by : ℕ → Text → List Handling.Turn → Option Text → Handling
handled_by timeout printed ts e = Handling.run timeout printed (ts ++ finishing e) (handling_of [])

module _ (p : Proto) where
  open p use {Body}

  -- The reply is read where the handler gives no error.
  abbrev pub reply_of : Option Text → Body → Option Body
  reply_of none b = some b
  reply_of (some e) b = none

  -- The response `r` is the one that is sent, and it finishes the call `k`, once, with the error `x`.
  abbrev pub Learns :
      Text
      → Handling
      → Header
      → Body
      → Response
      → Out
      → Bytes
      → Client
      → ℕ
      → Option Text
      → Option Body
      → Type 0
  Learns reason hs h reply r o s c k x b =
      let c' = answered p h.seq k x c in
      (hs.responses ≡ r ∷ []) × Exchanged p reason h reply r o s c c' b × ((c'.calls k).done ≡ 1)

  requested :
      (is_message : GoType → Bool) (m : ServiceMap) (h : Header) (args : Body) (t : MethodType)
      → Fits p h
      → FitsBody p args
      → find_service h.service_method m ≡ found t
      → is_message t.arg_type ≡ true
      → read_request (protobuf_codec p) is_message m (write p h (message args) start).1.sent
        ≡ (request h t (some args), [])
  requested is_message m h args t head body offered message_type =
      let a : Asked p is_message m = record {
        header = h;
        body = args;
        header_bytes = head.bytes;
        body_bytes = body.bytes;
        type = t;
      } in
      let ok : Carried p is_message m a = record {
        header_made = head.made;
        body_made = body.made;
        header_small = head.small;
        body_small = body.small;
        offered = offered;
        taken_in = message_type;
      } in
      ap (read_request (protobuf_codec p) is_message m)
        (sent_by p is_message m (a ∷ []) start (ok, tt) refl)
      ∙ read_asked p is_message m a [] ok

  unanswered :
      (us : List Client.Turn) (n k : ℕ)
      → let c = Client.run us new_client_codec in
        c.receiver ≡ at_header → lookup n c.pending ≡ some k → (c.calls k).done ≡ 0
  unanswered us n k ready waiting =
      let c = Client.run us new_client_codec in
      let sound = run-Sound us new_client_codec Sound-new_client_codec in
      sound.quiet (rw ready refl) k (lookup-waits n k c.pending waiting)

  abbrev late : Text
  late = codes "pc server: request handle timeout: expect within "

  -- A response with an error finishes the call with it.
  refused :
      (us : List Client.Turn) (n k : ℕ) (method : Text) (reply : Body) (reason : Text)
      (hs : Handling) (o : Out) (s : Bytes) (a : ℕ) (x : Text)
      → let c = Client.run us new_client_codec in
        let h = call_header method n in
        let r : Response = record { error = a ∷ x; replies = false } in
        c.receiver ≡ at_header
        → lookup n c.pending ≡ some k
        → o.buf ≡ []
        → hs.responses ≡ r ∷ []
        → Fits p (record h { error = a ∷ x })
        → Learns reason hs h reply r o s c k (some (a ∷ x)) none
  refused us n k method reply reason hs o s a x ready waiting empty rs fit =
      let c = Client.run us new_client_codec in
      (
        rs,
        refusal_received p reason (call_header method n) a x k reply o s c fit empty waiting,
        ground (arith, unanswered us n k ready waiting),
      )

  -- After any turns of a connection, its receiving loop is before a header and the call k
  -- waits under the number n. Its request, with no error and for a method that the server has
  -- and whose argument is a message, is read by the server just as it was written, with
  -- nothing left over. Whatever turns the request's goroutines and its timer take until the
  -- handler has ended and both have taken the turns they can, one response is sent, whole and
  -- without an error, behind what was sent before; and one round of the client's loop reads
  -- just its bytes, takes the call out of the table and finishes it, once: with the handler's
  -- error and no reply, or with the handler's reply and no error; or, if the timer was first,
  -- with the error of the timeout. The conditions are that headers and bodies can be
  -- marshalled in less than 2 ^ 32 bytes, that the server's buffer is empty, and that an
  -- error of the handler has a text.
  pub round_trip :
      (is_message : GoType → Bool) (m : ServiceMap) (us : List Client.Turn) (n k : ℕ)
      (method : Text) (t : MethodType) (args reply : Body) (timeout : ℕ) (printed reason : Text)
      (ts : List Handling.Turn) (e : Option Text) (o : Out) (s : Bytes)
      → let c = Client.run us new_client_codec in
        let h = call_header method n in
        let hs = handled_by timeout printed ts e in
        c.receiver ≡ at_header
        → lookup n c.pending ≡ some k
        → Fits p h
        → FitsBody p args
        → FitsBody p reply
        → find_service method m ≡ found t
        → is_message t.arg_type ≡ true
        → o.buf ≡ []
        → ((r : Response) → hs.responses ≡ r ∷ [] → Fits p (record h { error = r.error }))
        → ((x : Option Text) → hs.worker ≡ ended x → x ≢ some [])
        → (read_request (protobuf_codec p) is_message m (write p h (message args) start).1.sent
            ≡ (request h t (some args), []))
          × (((x : Option Text) × (hs.worker ≡ ended x)
                × Learns reason hs h reply (response_of [] x) o s c k x (reply_of x reply))
              ⊎ ((hs.waiter ≡ left)
                  × Learns reason hs h reply
                      (too_late printed)
                      o
                      s
                      c
                      k
                      (some (timeout_error printed))
                      none))
  round_trip is_message m us n k method t args reply timeout printed reason ts e o s ready waiting
        head body back offered message_type empty fit spoken =
      let c = Client.run us new_client_codec in
      let h = call_header method n in
      let hs = handled_by timeout printed ts e in
      let undone = unanswered us n k ready waiting in
      (
        requested is_message m h args t head body offered message_type,
        elim (answered_once timeout printed [] ts e).1 [
          | inl (none, w, i, rs) ↦ inl (
            none,
            w,
            (
              rs,
              reply_received p reason h k reply o s c head back empty waiting,
              ground (arith, undone),
            ),
          )
          | inl (some [], w, i, rs) ↦ absurd (spoken (some []) w refl)
          | inl (some (a ∷ x), w, i, rs) ↦ inl (
            some (a ∷ x),
            w,
            refused us n k method reply reason hs o s a x ready waiting empty rs
                (fit (response_of [] (some (a ∷ x))) rs),
          )
          | inr (x, w, i, rs) ↦ inr (
            i,
            refused us n k method reply reason hs o s b'r' (late ++ printed) ready waiting empty rs
                (fit (too_late printed) rs),
          )
        ],
      )
