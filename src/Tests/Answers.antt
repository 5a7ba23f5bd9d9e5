-- ===== src/Tests/Answers.antt =====
-- Runs of the agent's parts and of the relay of its answers.
use go_im_system.Prelude.{
  All, ◌+◌, ◌*◌, ◌^◌, ◌/◌, ◌≤◌, ◌<◌, length, keep, ◌++◌, none, ℕ, ◌≡◌, refl, true, false, List, [],
  ◌∷◌, some, arith,
}
use go_im_system.Text.{codes}
use go_im_system.Gateway.Client.{ai_chunk, ai_end}
use go_im_system.Gateway.Relay.{relay_frames, chat_sse}
use go_im_system.Gateway.Relay.Stream.{Carried, relay_stream}
use go_im_system.Agent.RateLimit.{Doubles, is_recent}
use go_im_system.Agent.RateLimit.Window.{
  Rising, within, nearly, answers, promises, answers-promises,
}
use go_im_system.Agent.Memory.{MessageJson, get_messages, append, answered, broken_at, latest}
use go_im_system.Agent.Memory.Recall.{Append, InTime, append_all, append_all-get_messages}

first_Carried : Carried (codes "Hel")
first_Carried = ground arith

second_Carried : Carried (codes "lo")
second_Carried = ground arith

relay_stream_example :
    relay_frames (chat_sse (λ i. true) (some (codes "Hel" ∷ codes "lo" ∷ []))).0
    ≡ ai_chunk (codes "Hel") ∷ ai_chunk (codes "lo") ∷ ai_end ∷ []
relay_stream_example =
    relay_stream (λ i. true) (codes "Hel" ∷ codes "lo" ∷ []) (λ i. refl)
      (first_Carried, (second_Carried, tt))

-- Doubles between 2 ^ 60 and 2 ^ 61: the multiples of 256.
steps_rise : (m n : ℕ) → m ≤ n → (m + 128) / 256 * 256 ≤ (n + 128) / 256 * 256
steps_rise m n h = omega arith

steps_near :
    (n : ℕ) → n < 2 ^ 61 → (n ≤ (n + 128) / 256 * 256 + 128) × ((n + 128) / 256 * 256 ≤ n + 128)
steps_near n h = (omega arith, omega arith)

abbrev steps : Doubles
steps = record {
  double = λ n. (n + 128) / 256 * 256;
  double-rises = steps_rise;
  double-near = steps_near;
}

abbrev morning : ℕ
morning = 1700000000000000000

abbrev calls : List ℕ
calls =
    (morning + 10)
    ∷ (morning + 20)
    ∷ (morning + 30)
    ∷ (morning + 40)
    ∷ (morning + 50)
    ∷ (morning + 60)
    ∷ (morning + 60000000500)
    ∷ []

-- The sixth call within a minute is refused, and one more call after the first ones have aged.
fifth_and_sixth : promises steps calls [] ≡ true ∷ true ∷ true ∷ true ∷ true ∷ false ∷ true ∷ []
unfolding promises
fifth_and_sixth = refl

calls_Rising : Rising steps 5 calls
calls_Rising = ground arith

calls_past : All (λ s. s ≤ morning + 60000000500) calls
calls_past = ground arith

answers-promises_example :
    let now = morning + 60000000500 in
    (answers steps calls (record { members = []; expires = 0 }) ≡ promises steps calls [])
    × (length (keep (within steps now) calls) ≤ length (keep (is_recent steps now) calls))
    × (length (keep (is_recent steps now) calls) ≤ length (keep (nearly steps now) calls))
answers-promises_example =
    answers-promises steps 5 calls (morning + 60000000500) calls calls_Rising (omega arith)
      calls_past

abbrev numbers_json : MessageJson
numbers_json = record {
  Message = ℕ;
  Data = ℕ;
  encode = λ n. n;
  decode = λ n. some n;
  decode-encode = λ n. refl;
}

-- The second pipeline breaks after its first command, the third before it.
abbrev broken_session : List (Append numbers_json)
broken_session = (answered, 20, 1) ∷ ((broken_at 1, 40, 2) ∷ ((broken_at 0, 50, 3) ∷ []))

append_all-get_messages_example :
    let s = append_all numbers_json 100 broken_session (record { items = []; expires = none }) in
    get_messages numbers_json false 130 (append answered 100 60 4 s).1
    ≡ some (latest ((1 ∷ 2 ∷ []) ++ 4 ∷ []))
unfolding InTime append
append_all-get_messages_example =
    append_all-get_messages numbers_json 100 60 130 broken_session 4 (refl, (refl, (refl, refl)))
      (omega arith)
