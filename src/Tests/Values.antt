-- ===== src/Tests/Values.antt =====
-- A server and a client that speak JSON.
use go_im_system.Prelude.{
  ℕ, ◌≡◌, ◌≢◌, ◌+◌, suc, refl, true, false, List, [], ◌∷◌, Option, none, some, arith, length,
  nat_eq,
}
use mathlib.Core.Option.{some_inj}
use go_im_system.Text.{Text, codes}
use go_im_system.Rpc.Codec.{Header, Reply, no_body, no_message, message}
use go_im_system.Rpc.Codec.Values.{Coder, values_codec}
use go_im_system.Rpc.Codec.Values.Ends.{Asked, Carried, write_all, taken, sending, serve-ends}
use go_im_system.Rpc.Handling.{Response}
use go_im_system.Rpc.Server.{serve_codec}
use go_im_system.Rpc.Client
use go_im_system.Rpc.Client.{Client, new_client_codec, at_header, terminate}
use go_im_system.Rpc.Client.Table.{waits}
use go_im_system.Rpc.RoundTrip.{call_header, receive_round, send_answer}
use go_im_system.Rpc.RoundTrip.Refused.{refused, refusal_ends}
use go_im_system.Tests.Requests.{online_type, services, find_online}

data Chunk : Type 0 where
  head : Header → Chunk
  item : ℕ → Chunk
  braces : Chunk

abbrev header_from : Chunk → Option Header
header_from (head h) = some h
header_from _ = none

abbrev body_from : Chunk → Option ℕ
body_from (item n) = some n
body_from _ = none

abbrev body_chunk : Reply ℕ → Option Chunk
body_chunk no_body = some braces
body_chunk no_message = none
body_chunk (message n) = some (item n)

json_header : (h : Header) (d : Chunk) → some (head h) ≡ some d → header_from d ≡ some h
json_header h (head k) made = ground (arith, some_inj.0 made)
json_header h (item n) made = ground (arith, some_inj.0 made)
json_header h braces made = ground (arith, some_inj.0 made)

json_body : (n : ℕ) (d : Chunk) → some (item n) ≡ some d → body_from d ≡ some n
json_body n (head k) made = ground (arith, some_inj.0 made)
json_body n (item m) made = ground (arith, some_inj.0 made)
json_body n braces made = ground (arith, some_inj.0 made)

abbrev json : Coder
json = record {
  Body = ℕ;
  Chunk = Chunk;
  encode_header = λ h. some (head h);
  encode_body = body_chunk;
  decode_header = header_from;
  decode_body = body_from;
  nil_fails = true;
  header-law = json_header;
  body-law = json_body;
}

abbrev online : ℕ → Header
online n = call_header (codes "Logic.Online") n

abbrev asks : ℕ → Asked json (λ t. true) services
asks n = record {
  header = online n;
  body = 7;
  header_chunk = head (online n);
  body_chunk = item 7;
  type = online_type;
}

asks-Carried : (n : ℕ) → Carried json (λ t. true) services (asks n)
asks-Carried n = record {
  header_made = refl;
  body_made = refl;
  offered = find_online;
  taken_in = refl;
}

serve-ends_example :
    serve_codec
      (values_codec json)
      (λ t. true)
      services
      (length (asks 1 ∷ (asks 2 ∷ [])) + suc 3)
      (write_all json (λ t. true) services (asks 1 ∷ (asks 2 ∷ [])) (sending [])).sent
    ≡ (taken json (λ t. true) services (asks 1 ∷ (asks 2 ∷ [])), true)
serve-ends_example =
    serve-ends json (λ t. true) services (asks 1 ∷ (asks 2 ∷ [])) 3
      (asks-Carried 1, (asks-Carried 2, tt))

-- Two calls are sent.
abbrev two_calls : List Client.Turn
two_calls =
    Client.send_call (codes "Logic.Online")
    ∷ (Client.write_ends none
        ∷ (Client.send_call (codes "Logic.Online") ∷ (Client.write_ends none ∷ [])))

abbrev waiting : Client
waiting = Client.run two_calls new_client_codec

second_waits : waits 1 waiting.pending ≡ true
unfolding Client.run Client.step Client.send Client.written Client.register_call
second_waits = refl

abbrev eof : Text
eof = codes "json: Unmarshal(nil)"

refusal_ends_example :
    let c' = refused 1 0 (codes "offline") eof waiting in
    let answer : Response = record { error = codes "offline"; replies = false } in
    let sent = record (online 1) { error = codes "offline" } in
    (send_answer (values_codec json) (online 1) 9 answer (sending [])
      ≡ (false, sending (head sent ∷ (braces ∷ []))))
    × (receive_round (values_codec json) eof waiting (head sent ∷ (braces ∷ [])) ≡ (c', none, []))
    × ((Client.step terminate c').shutdown ≡ true)
    × ((j : ℕ)
        → 0 ≢ j
        → waits j waiting.pending ≡ true
        → let x = (Client.step terminate c').calls j in (x.done ≡ 1) × (x.error ≡ some eof))
unfolding Client.run Client.step Client.send Client.written Client.register_call
refusal_ends_example =
    refusal_ends json two_calls 0 (online 1) eof b'o' (codes "ffline") 9
      (head (record (online 1) { error = codes "offline" })) braces [] [] refl (omega arith) refl
      refl refl refl refl
