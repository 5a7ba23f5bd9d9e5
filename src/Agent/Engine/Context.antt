-- ===== src/Agent/Engine/Context.antt =====
-- The history that the model is given.
use go_im_system.Prelude.{ℕ, ◌≡◌, false, List, [], ◌∷◌, ◌++◌, some, map, arith}
use go_im_system.Text.{Text}
use go_im_system.Agent.Memory.{MessageJson, Session, latest, append, answered, expired_at}
use go_im_system.Agent.Memory.Recall.{append-get_messages}
use go_im_system.Agent.Engine.{session_ttl, prepare_agent_context, after_append}

module _ (j : MessageJson) where
  open j use {Message, Data, encode}

  -- In a session with the latest of some past messages, which has not expired, and without faults: the
  -- history is the latest 20 of the past messages and the trimmed question, the question last.
  pub prepare_agent_context_lem :
      (user_message : Text → Message) (trim : Text → Text) (now : ℕ) (past : List Message)
      (message : Text) (s : Session Data)
      → latest s.items ≡ map encode (latest past)
      → expired_at now s.expires ≡ false
      → (prepare_agent_context j user_message trim false answered false now message s).1
        ≡ some (latest (past ++ user_message (trim message) ∷ []))
  unfolding prepare_agent_context append after_append
  prepare_agent_context_lem user_message trim now past message s items before =
      append-get_messages j session_ttl now now past (user_message (trim message)) s items before
        (omega arith)
