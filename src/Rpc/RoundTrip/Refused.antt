-- ===== src/Rpc/RoundTrip/Refused.antt =====
-- An error of a handler over gob or JSON, and what becomes of the client's connection.
use go_im_system.Prelude.{
  ℕ, ◌≡◌, ◌≢◌, ◌<◌, ◌^◌, ◌+◌, refl, true, false, List, [], ◌∷◌, ◌++◌, none, some, lookup, nat_eq,
  arith, inl, inr, Bool-cases, write_at, ◌==◌,
}
use go_im_system.Text.{Text}
use go_im_system.Rpc.Codec.{Header, no_body}
use go_im_system.Rpc.Codec.Values.{Coder, write, values_codec, read_header, read_body}
use go_im_system.Rpc.Codec.Values.Ends.{sending}
use go_im_system.Rpc.Handling.{Response}
use go_im_system.Rpc.Server.{send_response}
use go_im_system.Rpc.Client
use go_im_system.Rpc.Client.{
  Call, Client, at_header, stopped, new_client_codec, finish, finish_call, fail_all, terminate,
  terminate_calls, on_header, on_body, remove_call,
}
use go_im_system.Rpc.Client.Table.{waits, Apart, waits-kept, delete-Apart}
use go_im_system.Rpc.Client.Sound.{removed, Sound-new_client_codec}
use go_im_system.Rpc.Client.Tracked.{Tracked-new_client_codec}
use go_im_system.Rpc.Client.Once.{run-Sound, fail_all-done}
use go_im_system.Rpc.Client.Answered.{run-Tracked}
use go_im_system.Rpc.RoundTrip.{receive_round, send_answer}

-- The other calls keep theirs, and each waiting call gets the error.
fail_all-error_kept :
    (e : Text) (p : List (ℕ × ℕ)) (calls : ℕ → Call) (h : ℕ)
    → waits h p ≡ false
    → (fail_all e p calls h).error ≡ (calls h).error
fail_all-error_kept e [] calls h missing = refl
fail_all-error_kept e ((n, k) ∷ p) calls h missing =
    ground (arith, fail_all-error_kept e p (write_at k (finish_call (some e) (calls k)) calls) h)

fail_all-error :
    (e : Text) (p : List (ℕ × ℕ)) (calls : ℕ → Call) (h : ℕ)
    → Apart p
    → waits h p ≡ true
    → (fail_all e p calls h).error ≡ some e
fail_all-error e [] calls h a w = absurd (ground (arith, w))
fail_all-error e ((n, k) ∷ p) calls h (fresh, a) w =
    let rest = write_at k (finish_call (some e) (calls k)) calls in
    elim (Bool-cases (k == h)) [
      | inl same ↦ ground (arith, fail_all-error_kept e p rest h)
      | inr other ↦ ground (arith, fail_all-error e p rest h a)
    ]

-- The call is finished with its error, and the loop has stopped.
abbrev pub refused : ℕ → ℕ → Text → Text → Client → Client
refused n k e reason c = finish k (some e) (record (removed n c) { receiver = stopped reason })

-- The calls that still wait are finished with the error that the loop stopped with.
others_fail :
    (us : List Client.Turn) (n k : ℕ) (e reason : Text) (j : ℕ)
    → let c = Client.run us new_client_codec in
      c.next + 1 < 2 ^ 64
      → c.receiver ≡ at_header
      → lookup n c.pending ≡ some k
      → k ≢ j
      → waits j c.pending ≡ true
      → let d = (terminate_calls reason (refused n k e reason c)).calls j in
        (d.done ≡ 1) × (d.error ≡ some reason)
unfolding terminate_calls
others_fail us n k e reason j small ready found other there =
    let c = Client.run us new_client_codec in
    let sound = run-Sound us new_client_codec Sound-new_client_codec in
    let tracked =
      run-Tracked us new_client_codec small Sound-new_client_codec Tracked-new_client_codec in
    let still = waits-kept n k j c.pending tracked.numbers.numbered found other there in
    let apart = delete-Apart n c.pending sound.apart in
    let d = refused n k e reason c in
    let zero_done = sound.quiet (rw ready refl) j there in
    (
      ground (arith, fail_all-done reason d.pending d.calls j apart still, zero_done),
      fail_all-error reason d.pending d.calls j apart still,
    )

shut_down : (reason : Text) (c : Client) → (terminate_calls reason c).shutdown ≡ true
unfolding terminate_calls
shut_down reason c = refl

stops :
    (n k : ℕ) (e reason : Text) (c : Client)
    → c.sending ≡ none
    → Client.step terminate (refused n k e reason c)
      ≡ terminate_calls reason (refused n k e reason c)
unfolding Client.step
stops n k e reason c free = rw free refl

module _ (v : Coder) where
  open v use {Body, Chunk, encode_header, encode_body, header-law}

  received :
      (reason : Text) (h : Header) (a : ℕ) (e : Text) (k : ℕ) (d b : Chunk) (s : List Chunk)
      (c : Client)
      → v.nil_fails ≡ true
      → encode_header (record h { error = a ∷ e }) ≡ some d
      → lookup h.seq c.pending ≡ some k
      → receive_round (values_codec v) reason c (d ∷ (b ∷ s))
        ≡ (refused h.seq k (a ∷ e) reason c, none, s)
  unfolding receive_round on_header on_body remove_call read_header read_body
  received reason h a e k d b s c fails made found =
      rw (header-law (record h { error = a ∷ e }) d made, found, fails) refl

  sent_whole :
      (h : Header) (x : Text) (reply : Body) (d b : Chunk) (t : List Chunk)
      → encode_header (record h { error = x }) ≡ some d
      → encode_body no_body ≡ some b
      → let r : Response = record { error = x; replies = false } in
        send_answer (values_codec v) h reply r (sending t) ≡ (false, sending (t ++ d ∷ (b ∷ [])))
  unfolding send_answer send_response write
  sent_whole h x reply d b t made body = rw (made, body) refl

  -- Over a codec like JSON's, for which reading into nil is an error, and after any turns of
  -- a connection with fewer than 2 ^ 64 - 1 calls, its receiving loop is before a header, no
  -- call is being written, and the call k waits. The server answers it with an error that has
  -- a text, over an open connection with an empty buffer; the header and the empty struct can
  -- be encoded. Then the answer is sent whole and without an error; the client's loop reads
  -- it, takes the call out of the table and finishes it with its error, and stops with the
  -- error of the reading; and the next turn shuts the connection down and finishes every
  -- other call that waits, once, with the error of the reading.
  pub refusal_ends :
      (us : List Client.Turn) (k : ℕ) (h : Header) (reason : Text) (a : ℕ) (e : Text) (reply : Body)
      (d b : Chunk) (s t : List Chunk)
      → let c = Client.run us new_client_codec in
        let c' = refused h.seq k (a ∷ e) reason c in
        let answer : Response = record { error = a ∷ e; replies = false } in
        v.nil_fails ≡ true
        → c.next + 1 < 2 ^ 64
        → c.receiver ≡ at_header
        → c.sending ≡ none
        → lookup h.seq c.pending ≡ some k
        → encode_header (record h { error = a ∷ e }) ≡ some d
        → encode_body no_body ≡ some b
        → (send_answer (values_codec v) h reply answer (sending t)
            ≡ (false, sending (t ++ d ∷ (b ∷ []))))
          × (receive_round (values_codec v) reason c (d ∷ (b ∷ s)) ≡ (c', none, s))
          × ((Client.step terminate c').shutdown ≡ true)
          × ((j : ℕ)
              → k ≢ j
              → waits j c.pending ≡ true
              → let x = (Client.step terminate c').calls j in
                (x.done ≡ 1) × (x.error ≡ some reason))
  refusal_ends us k h reason a e reply d b s t fails small ready free found made body =
      let c = Client.run us new_client_codec in
      let stopped_now = stops h.seq k (a ∷ e) reason c free in
      (
        sent_whole h (a ∷ e) reply d b t made body,
        received reason h a e k d b s c fails made found,
        rw stopped_now (shut_down reason (refused h.seq k (a ∷ e) reason c)),
        λ j other there.
            rw stopped_now (others_fail us h.seq k (a ∷ e) reason j small ready found other there),
      )
