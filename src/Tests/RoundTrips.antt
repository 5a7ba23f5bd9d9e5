-- ===== src/Tests/RoundTrips.antt =====
-- A call, its handler's error, and what the caller learns.
use go_im_system.Prelude.{
  ℕ, ◌≡◌, ◌≢◌, refl, ap, sym, subst, ◌∙◌, true, List, [], ◌∷◌, ◌++◌, Option, none, some, arith, ◌⊎◌,
  lookup, nat_eq, length, take, drop, take-length_append, drop-length_append,
}
use mathlib.Core.Option.{some_inj}
use go_im_system.Text.{Text, codes}
use go_im_system.Rpc.Codec.{protobuf_codec, Bytes, Header, Proto, message, write}
use go_im_system.Rpc.Server.{read_request, request}
use go_im_system.Rpc.Server.Loop.{start}
use go_im_system.Rpc.Handling
use go_im_system.Rpc.Handling.{Response, ended, left, timeout_error}
use go_im_system.Rpc.Handling.Answer.{response_of, too_late}
use go_im_system.Rpc.Client
use go_im_system.Rpc.Client.{new_client_codec, at_header}
use go_im_system.Rpc.RoundTrip.{call_header}
use go_im_system.Rpc.RoundTrip.Answered.{Fits, FitsBody}
use go_im_system.Rpc.RoundTrip.Outcome.{handled_by, reply_of, Learns, round_trip}
use go_im_system.Tests.Requests.{body_from, body-law, online_type, services, find_online}

-- Headers as a number, the length of the method's name, the name and the error.
abbrev header_bytes : Header → Bytes
header_bytes h = h.seq ∷ (length h.service_method ∷ h.service_method ++ h.error)

abbrev header_from : Bytes → Option Header
header_from (n ∷ (k ∷ d)) = some (record { service_method = take k d; seq = n; error = drop k d })
header_from _ = none

header-back : (h : Header) → header_from (header_bytes h) ≡ some h
header-back h =
    rw (take-length_append h.service_method h.error, drop-length_append h.service_method h.error)
      refl

abbrev wired : Proto
wired = record {
  Body = ℕ;
  marshal_header = λ h. some (header_bytes h);
  unmarshal_header = header_from;
  marshal_body = λ n. some (n ∷ []);
  unmarshal_body = body_from;
  header-law = λ h d made. subst (λ b. header_from b ≡ some h) (some_inj.0 made) (header-back h);
  body-law = body-law;
}

abbrev one_byte : (n : ℕ) → FitsBody wired n
one_byte n = record { bytes = n ∷ []; made = refl; small = omega arith }

abbrev offline : Text
offline = codes "offline"

abbrev sends : List Client.Turn
sends = Client.send_call (codes "Logic.Online") ∷ (Client.write_ends none ∷ [])

abbrev first_error : List Response → Text
first_error [] = []
first_error (r ∷ rs) = r.error

abbrev carries :
    (e : Text)
    → length e ≡ 7
    → Fits wired (record (call_header (codes "Logic.Online") 1) { error = e })
carries e seven = record {
  bytes = header_bytes (record (call_header (codes "Logic.Online") 1) { error = e });
  made = refl;
  small = omega (arith, seven);
}

abbrev carries_request : Fits wired (call_header (codes "Logic.Online") 1)
carries_request = record {
  bytes = header_bytes (call_header (codes "Logic.Online") 1);
  made = refl;
  small = omega arith;
}

abbrev answer : Handling.Handling
answer = handled_by 10 (codes "10s") [] (some offline)

answer_sent : answer.responses ≡ response_of [] (some offline) ∷ []
unfolding Handling.run Handling.step
answer_sent = refl

answer_ended : answer.worker ≡ ended (some offline)
unfolding Handling.run Handling.step
answer_ended = refl

fits :
    (r : Response)
    → answer.responses ≡ r ∷ []
    → Fits wired (record (call_header (codes "Logic.Online") 1) { error = r.error })
fits r e =
    let same : offline ≡ r.error = ap first_error (sym answer_sent ∙ e) in
    carries r.error (ap length (sym same))

spoken : (x : Option Text) → answer.worker ≡ ended x → x ≢ some []
spoken none e empty = absurd (ground (arith, empty))
spoken (some t) e empty = absurd (ground (arith, sym answer_ended ∙ e, empty))

waits_there : lookup 1 (Client.run sends new_client_codec).pending ≡ some 0
unfolding Client.run Client.step Client.send Client.written Client.register_call
waits_there = refl

reads_on : (Client.run sends new_client_codec).receiver ≡ at_header
unfolding Client.run Client.step Client.send Client.written Client.register_call
reads_on = refl

round_trip_example :
    let c = Client.run sends new_client_codec in
    let h = call_header (codes "Logic.Online") 1 in
    (read_request
        (protobuf_codec wired)
        (λ t. true)
        services
        (write wired h (message 7) start).1.sent
      ≡ (request h online_type (some 7), []))
    × (((x : Option Text) × (answer.worker ≡ ended x)
          × Learns wired [] answer h 9 (response_of [] x) start [] c 0 x (reply_of wired x 9))
        ⊎ ((answer.waiter ≡ left)
            × Learns wired [] answer h 9
                (too_late (codes "10s"))
                start
                []
                c
                0
                (some (timeout_error (codes "10s")))
                none))
round_trip_example =
    round_trip wired (λ t. true) services sends 1 0 (codes "Logic.Online") online_type 7 9 10
      (codes "10s") [] [] (some offline) start [] reads_on waits_there carries_request (one_byte 7)
      (one_byte 9) find_online refl refl fits spoken
