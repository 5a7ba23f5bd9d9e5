-- ===== src/Agent/Trace/Copy.antt =====
-- What is logged of a streamed answer.
use go_im_system.Prelude.{
  ℕ, ◌-◌, ◌≡◌, refl, ap, true, false, List, [], ◌∷◌, ◌++◌, Option, none, some, arith,
}
use go_im_system.Text.{Text}
use go_im_system.Agent.Trace.{
  Component, chat_model, tool_component, other_component, Context, TokenUsage, Line, first_token,
  Chunk, StreamReader, usage_after, usage_lines, end_line, receive, on_end_with_stream_output,
}

-- When the first chunk came that is not nil.
abbrev pub first_time : List (ℕ × Chunk) → Option ℕ
first_time [] = none
first_time ((now, none) ∷ cs) = first_time cs
first_time ((now, some u) ∷ cs) = some now

-- The last usage that a chunk tells.
abbrev pub last_usage : List (ℕ × Chunk) → Option TokenUsage → Option TokenUsage
last_usage [] final = final
last_usage ((now, c) ∷ cs) final = last_usage cs (usage_after c final)

abbrev pub first_lines : ℕ → Option ℕ → List Line
first_lines start none = []
first_lines start (some now) = first_token (now - start) ∷ []

receive-later :
    (start : ℕ) (final : Option TokenUsage) (ended : ℕ) (failure : Option Text)
    (cs : List (ℕ × Chunk))
    → receive start false final ended failure cs
      ≡ end_line (ended - start) failure ∷ usage_lines (last_usage cs final)
unfolding receive
receive-later start final ended failure [] = refl
receive-later start final ended failure ((now, c) ∷ cs) =
    receive-later start (usage_after c final) ended failure cs

-- The time of the first chunk that is not nil, the end, and the last usage that was told.
receive_lem :
    (start : ℕ) (final : Option TokenUsage) (ended : ℕ) (failure : Option Text)
    (cs : List (ℕ × Chunk))
    → receive start true final ended failure cs
      ≡ first_lines start (first_time cs)
        ++ end_line (ended - start) failure ∷ usage_lines (last_usage cs final)
unfolding receive
receive_lem start final ended failure [] = refl
receive_lem start final ended failure ((now, none) ∷ cs) = receive_lem start final ended failure cs
receive_lem start final ended failure ((now, some u) ∷ cs) =
    ap (◌∷◌ (first_token (now - start)))
      (receive-later start (usage_after (some u) final) ended failure cs)

-- A model's answer whose start is in the context.
streamed :
    (ctx : Context) (start : ℕ) (output : StreamReader)
    → ctx.chat_model_start_time ≡ some start
    → (on_end_with_stream_output chat_model ctx output).0
      ≡ first_lines start (first_time output.chunks)
        ++ end_line (output.ended_at - start) output.failure
          ∷ usage_lines (last_usage output.chunks none)
unfolding on_end_with_stream_output
streamed ctx start output began =
    rw began (receive_lem start none output.ended_at output.failure output.chunks)

-- Every copy is closed, once.
closed_once :
    (k : Component) (ctx : Context) (output : StreamReader)
    → (on_end_with_stream_output k ctx output).1 ≡ 1
unfolding on_end_with_stream_output
closed_once chat_model ctx output = ground arith
closed_once tool_component ctx output = refl
closed_once other_component ctx output = refl
