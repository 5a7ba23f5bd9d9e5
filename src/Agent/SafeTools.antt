-- ===== src/Agent/SafeTools.antt =====
-- apps/agent/middleware/safe_agent.go: errors of tools become texts for the model, errors of the model
-- are marked, and interrupts are passed on. What the tool or the model answers is an argument.
use go_im_system.Prelude.{◌∷◌, ◌++◌}
use go_im_system.Text.{Text, codes}

-- An error with its text; `interrupt` is one that `IsInterruptRerunError` recognises.
pub data Failure : Type 0 where
  interrupt failure : Text → Failure

pub data Result (A : Type 0) : Type 0 where
  answered : A → Result A
  failed : Failure → Result A

-- `Generate` and `Stream` of the model alike.
unfoldable pub safe_generate : {A : Type 0} → Result A → Result A
safe_generate (answered r) = answered r
safe_generate (failed (interrupt e)) = failed (interrupt e)
safe_generate (failed (failure e)) = failed (failure (codes "[model error] " ++ e))

abbrev pub tool_error : Text → Text
tool_error e = codes "[tool error] " ++ e

unfoldable pub wrap_invokable_tool_call : Result Text → Result Text
wrap_invokable_tool_call (answered r) = answered r
wrap_invokable_tool_call (failed (interrupt e)) = failed (interrupt e)
wrap_invokable_tool_call (failed (failure e)) = answered (tool_error e)

-- What `Recv` gives, up to the end or an error.
pub data Chunks : Type 0 where
  eof : Chunks
  broken : Text → Chunks
  chunk : Text → Chunks → Chunks

abbrev pub single_chunk_reader : Text → Chunks
single_chunk_reader m = chunk m eof

unfoldable pub safe_wrap_reader : Chunks → Chunks
safe_wrap_reader eof = eof
safe_wrap_reader (broken e) = chunk (0x0A ∷ tool_error e) eof
safe_wrap_reader (chunk c rest) = chunk c (safe_wrap_reader rest)

unfoldable pub wrap_streamable_tool_call : Result Chunks → Result Chunks
unfolding safe_wrap_reader
wrap_streamable_tool_call (answered r) = answered (safe_wrap_reader r)
wrap_streamable_tool_call (failed (interrupt e)) = failed (interrupt e)
wrap_streamable_tool_call (failed (failure e)) = answered (single_chunk_reader (tool_error e))
