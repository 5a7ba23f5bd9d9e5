-- ===== src/Agent/Trace.antt =====
-- apps/agent/callback/trace_logger.go: what is logged of the model's and the tools' runs. The context
-- carries the times at which they began. What the eino library calls with is an argument; each reading of
-- the clock stands with the event after which it is made, and the clock does not go back.
use go_im_system.Prelude.{
  ℕ, ◌-◌, ◌≡◌, refl, Bool, true, false, ◌&&◌, List, [], ◌∷◌, ◌++◌, Option, none, some,
  if◌then◌else◌,
}
use go_im_system.Text.{Text}
pub mod Copy

pub data Component : Type 0 where
  chat_model tool_component other_component : Component

pub record Context : Type 0 where
  pub chat_model_start_time : Option ℕ
  pub tool_start_time : Option ℕ

pub record TokenUsage : Type 0 where
  pub prompt_tokens : ℕ
  pub completion_tokens : ℕ
  pub total_tokens : ℕ

pub data Line : Type 0 where
  first_token : ℕ → Line
  generated : ℕ → Line
  copy_error : Text → Line
  tokens : TokenUsage → Line
  tool_ended : Text → ℕ → Line
  model_ended : ℕ → Line

abbrev pub on_start : Component → ℕ → Context → Context
on_start chat_model now ctx = record ctx { chat_model_start_time = some now }
on_start tool_component now ctx = record ctx { tool_start_time = some now }
on_start other_component now ctx = ctx

-- The input's copy is closed.
abbrev pub on_start_with_stream_input : Component → ℕ → Context → Context
on_start_with_stream_input chat_model now ctx = record ctx { chat_model_start_time = some now }
on_start_with_stream_input tool_component now ctx = ctx
on_start_with_stream_input other_component now ctx = ctx

-- A chunk, `none` for nil, with the usage of tokens if it tells one.
abbrev pub Chunk : Type 0
Chunk = Option (Option TokenUsage)

-- A stream's copy: its chunks and when they came, and when it ended, with an error other than its end.
pub record StreamReader : Type 0 where
  pub chunks : List (ℕ × Chunk)
  pub ended_at : ℕ
  pub failure : Option Text

abbrev pub is_nil : Chunk → Bool
is_nil none = true
is_nil (some u) = false

abbrev pub usage_after : Chunk → Option TokenUsage → Option TokenUsage
usage_after (some (some u)) final = some u
usage_after _ final = final

abbrev pub usage_lines : Option TokenUsage → List Line
usage_lines none = []
usage_lines (some u) = tokens u ∷ []

abbrev pub end_line : ℕ → Option Text → Line
end_line spent none = generated spent
end_line spent (some e) = copy_error e

abbrev pub first_line : Bool → Chunk → ℕ → List Line → List Line
first_line true (some u) spent rest = first_token spent ∷ rest
first_line _ _ spent rest = rest

-- The loop of the goroutine, with whether the first token is still to come, and the last usage.
unfoldable pub receive :
    ℕ → Bool → Option TokenUsage → ℕ → Option Text → List (ℕ × Chunk) → List Line
receive start is_first final ended_at failure [] =
    end_line (ended_at - start) failure ∷ usage_lines final
receive start is_first final ended_at failure ((now, c) ∷ cs) =
    let rest = receive start (is_first && is_nil c) (usage_after c final) ended_at failure cs in
    first_line is_first c (now - start) rest

-- The lines, and how often the copy is closed.
abbrev pub trace_copy : Option ℕ → StreamReader → List Line × ℕ
trace_copy none output = ([], 1)
trace_copy (some start) output =
    (receive start true none output.ended_at output.failure output.chunks, 1)

unfoldable pub on_end_with_stream_output : Component → Context → StreamReader → List Line × ℕ
unfolding receive
on_end_with_stream_output chat_model ctx output = trace_copy ctx.chat_model_start_time output
on_end_with_stream_output tool_component ctx output = ([], 1)
on_end_with_stream_output other_component ctx output = ([], 1)

abbrev pub timed : (ℕ → Line) → ℕ → Option ℕ → List Line
timed line now none = []
timed line now (some start) = line (now - start) ∷ []

-- `type` is the tool's; the output may tell the usage of tokens.
unfoldable pub on_end : Component → Text → ℕ → Context → Option TokenUsage → List Line
on_end tool_component type now ctx usage = timed (tool_ended type) now ctx.tool_start_time
on_end chat_model type now ctx usage =
    timed model_ended now ctx.chat_model_start_time ++ usage_lines usage
on_end other_component type now ctx usage = []
