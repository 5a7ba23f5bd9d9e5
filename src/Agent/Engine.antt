-- ===== src/Agent/Engine.antt =====
-- apps/agent/engine/engine.go, with what apps/agent/handler/chat_sse.go stores after an answer: a question
-- joins its session, and the model's events become the chunks of the answer. The run of the model is the
-- eino library's; its events are an argument.
use go_im_system.Prelude.{
  ℕ, ◌*◌, ◌^◌, ◌≡◌, refl, Bool, true, false, not, List, [], ◌∷◌, ◌++◌, Option, none, some, ℤ, pos,
  negsuc, if◌then◌else◌,
}
use go_im_system.Text.{Text, codes, format_int}
use go_im_system.Logic.Messages.{Messages, new_messages, insert_message}
use go_im_system.Agent.Memory.{MessageJson, Session, Exec, append, get_messages}
pub mod Context

-- Both the engine and the store put the prefix before the id.
abbrev pub session_key : ℤ → Text
session_key sender = codes "agent_session:" ++ (codes "agent_session:" ++ format_int sender)

abbrev pub session_ttl : ℕ
session_ttl = 24 * 3600 * 10 ^ 9

module _ (j : MessageJson) where
  open j use {Message, Data, encode}

  abbrev pub with_history :
      Session Data → Option (List Message) → Session Data × Option (List Message)
  with_history s h = (s, h)

  unfoldable pub after_append :
      Bool → ℕ → Bool × Session Data → Session Data × Option (List Message)
  unfolding get_messages
  after_append fails now (true, s) = (s, none)
  after_append fails now (false, s) = (s, get_messages j fails now s)

  -- The session and the history that the model is given, the question last, or an error. `x` is what
  -- becomes of the pipeline, `fails` is Redis' fault of the reading.
  unfoldable pub prepare_agent_context :
      (Text → Message)
      → (Text → Text)
      → Bool
      → Exec
      → Bool
      → ℕ
      → Text
      → Session Data
      → Session Data × Option (List Message)
  prepare_agent_context user_message trim runner_fails x fails now message s =
      if runner_fails
      then (s, none)
      else after_append fails now
          (append x session_ttl now (encode (user_message (trim message))) s)

  -- After an answer: the session and the table of messages; an error of the one does not stop the other.
  abbrev pub or_table : Option (List Messages) → List Messages → List Messages
  or_table none t = t
  or_table (some t') t = t'

  unfoldable pub store_answer :
      (Text → Message)
      → Exec
      → Bool
      → ℤ
      → ℕ
      → ℕ
      → ℕ
      → ℤ
      → Text
      → Session Data
      → List Messages
      → Session Data × List Messages
  store_answer assistant_message x insert_fails assigned now row_time id sender text s t = (
    (append x session_ttl now (encode (assistant_message text)) s).1,
    or_table
        (insert_message insert_fails assigned row_time
          (new_messages id (negsuc 0) sender (pos 0) text false) t)
        t,
  )

-- A frame of a stream, `none` for a nil one; a stream ends by itself or by an error, which is the same
-- to the reader.
pub data Output : Type 0 where
  streaming : List (Option Text) → Output
  whole : Option Text → Output

-- An event's error is only logged. `none` is an event without a message; the flag says whether the
-- message is the assistant's.
abbrev pub Event : Type 0
Event = Option (Bool × Output)

abbrev pub chunk_of : Option Text → List Text
chunk_of none = []
chunk_of (some []) = []
chunk_of (some (c ∷ t)) = (c ∷ t) ∷ []

abbrev pub chunks_of : List (Option Text) → List Text
chunks_of [] = []
chunks_of (f ∷ fs) = chunk_of f ++ chunks_of fs

abbrev pub output_chunks : Output → List Text
output_chunks (streaming fs) = chunks_of fs
output_chunks (whole m) = chunk_of m

abbrev pub event_chunks : Event → List Text
event_chunks none = []
event_chunks (some (false, o)) = []
event_chunks (some (true, o)) = output_chunks o

unfoldable pub get_assistant_from_events : List Event → List Text
get_assistant_from_events [] = []
get_assistant_from_events (e ∷ es) = event_chunks e ++ get_assistant_from_events es
