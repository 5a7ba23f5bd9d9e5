-- ===== src/Tests/Traces.antt =====
-- What is logged of one streamed answer.
use go_im_system.Prelude.{◌≡◌, refl, [], ◌∷◌, none, some}
use go_im_system.Text.{codes}
use go_im_system.Agent.Trace.{
  Context, StreamReader, TokenUsage, chat_model, first_token, generated, tokens, receive,
  on_end_with_stream_output, on_start, on_end, tool_component, tool_ended,
}

abbrev used : TokenUsage
used = record { prompt_tokens = 7; completion_tokens = 9; total_tokens = 16 }

abbrev began : Context
began =
    on_start tool_component 4
      (on_start chat_model 10 (record { chat_model_start_time = none; tool_start_time = none }))

abbrev answer : StreamReader
answer = record {
  chunks = (12, none) ∷ ((15, some none) ∷ ((20, some (some used)) ∷ ((21, some none) ∷ [])));
  ended_at = 25;
  failure = none;
}

traced :
    on_end_with_stream_output chat_model began answer
    ≡ (first_token 5 ∷ (generated 15 ∷ (tokens used ∷ [])), 1)
unfolding on_end_with_stream_output receive
traced = refl

tool_traced :
    on_end tool_component (codes "search_history") 9 began none
    ≡ tool_ended (codes "search_history") 5 ∷ []
unfolding on_end
tool_traced = refl
