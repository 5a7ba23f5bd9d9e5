-- ===== src/Gateway/Relay.antt =====
-- apps/agent/handler/chat_sse.go and the end of `handlerAIChat` in apps/gateway/ws/chat.go: the
-- agent's answer as a stream of events, and its way to the client. The chunks of the answer, and
-- which writes succeed, are arguments; the stream is a text, of bytes.
use go_im_system.Prelude.{
  ℕ, zero, suc, ◌+◌, ◌≡◌, Bool, true, false, leb, ◌==◌, List, [], ◌∷◌, ◌++◌, Option, none, some, ℤ,
  length, eq, Eq, list_Eq, nat_eq, if◌then◌else◌,
}
use go_im_system.Text.{Text, codes, format_int}
use go_im_system.Wire.{Json}
use go_im_system.Gateway.Client.{Client, Frame, ai_end, ai_chunk}
use go_im_system.Gateway.Pool.{get_client, modify}
use go_im_system.Gateway.Session.{send_all}
use go_im_system.Gateway.Chat.{Gateway, ClientRequest, ChatFaults, handle_ai_question}
pub mod Stream

abbrev pub newline : ℕ
newline = 0x0A

abbrev pub event : Text → Text
event chunk = codes "data: " ++ (chunk ++ newline ∷ (newline ∷ []))

abbrev pub done_event : Text
done_event = event (codes "[DONE]")

-- The loop over the chunks, from number `i`; whether it runs to the end.
unfoldable pub stream : (ℕ → Bool) → ℕ → List Text → Text × Bool
stream ok i [] = ([], true)
stream ok i (c ∷ chunks) =
    let rest = stream ok (suc i) chunks in if ok i then (event c ++ rest.0, rest.1) else ([], false)

abbrev pub join : List Text → Text
join [] = []
join (c ∷ chunks) = c ++ join chunks

abbrev non_empty : Text → Option Text
non_empty [] = none
non_empty (c ∷ t) = some (c ∷ t)

-- What is written, and the answer that is stored, for the session and as a message to the user.
-- `none` in place of the chunks is a failed preparation.
unfoldable pub chat_sse : (ℕ → Bool) → Option (List Text) → Text × Option Text
unfolding stream
chat_sse ok none = (event (codes "AI服务初始化失败，请稍后重试") ++ done_event, none)
chat_sse ok (some chunks) =
    if (stream ok 0 chunks).1
    then ((stream ok 0 chunks).0 ++ done_event, non_empty (join chunks))
    else ((stream ok 0 chunks).0, none)

-- `bufio.ScanLines` drops one carriage return at the end of a line.
abbrev pub drop_cr : Text → Text
drop_cr [] = []
drop_cr (c ∷ t) = elim t [ [] ↦ if c == 0x0D then [] else c ∷ [] | d ∷ u ↦ c ∷ drop_cr t ]

abbrev pub max_token : ℕ
max_token = 65536

abbrev last_line : Text → List Text
last_line [] = []
last_line (c ∷ t) = drop_cr (c ∷ t) ∷ []

-- `bufio.Scanner`: the lines, the last one without a newline too unless it is empty. A line that
-- fills the buffer ends the scan. `line` is what has been read of the line.
unfoldable pub scan_from : Text → Text → List Text
scan_from line [] = if leb max_token (length line) then [] else last_line line
scan_from line (c ∷ t) =
    let rest = scan_from (if c == newline then [] else line ++ c ∷ []) t in
    if c == newline then (if leb max_token (length line) then [] else drop_cr line ∷ rest) else rest

-- `strings.HasPrefix` with `strings.TrimPrefix`: the text after the prefix.
abbrev pub after_prefix : Text → Text → Option Text
after_prefix [] t = some t
after_prefix (p ∷ ps) [] = none
after_prefix (p ∷ ps) (c ∷ t) = let rest = after_prefix ps t in if p == c then rest else none

-- The frames that the lines give, up to the end mark.
unfoldable pub relay_lines : List Text → List Frame
relay_lines [] = []
relay_lines (line ∷ lines) =
    let rest = relay_lines lines in
    if eq line (codes "data: [DONE]")
    then ai_end ∷ []
    else elim (after_prefix (codes "data: ") line) [ none ↦ rest | some c ↦ ai_chunk c ∷ rest ]

unfoldable pub relay_frames : Text → List Frame
unfolding scan_from relay_lines
relay_frames body = relay_lines (scan_from [] body)

module _ (j : Json) where
  open j use {Body}

  -- `answer` is the agent's, `none` if the connection fails.
  abbrev relay_answer : Bool → ℤ → Option Text → Bool × Gateway Body → Gateway Body
  relay_answer take_closed sender answer (false, g) = g
  relay_answer take_closed sender none (true, g) = g
  relay_answer take_closed sender (some body) (true, g) =
      elim (get_client (format_int sender) g.pool) [
        | none ↦ g
        | some h ↦ record g { pool = modify h (send_all take_closed (relay_frames body)) g.pool }
      ]

  unfoldable pub handler_ai_chat :
      ChatFaults → Option Text → ℤ → Option ClientRequest → Gateway Body → Option (Gateway Body)
  handler_ai_chat f answer sender req g = elim (handle_ai_question j f sender req g) [
    | none ↦ none
    | some r ↦ some (relay_answer f.take_closed sender answer r)
  ]
