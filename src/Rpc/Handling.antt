-- ===== src/Rpc/Handling.antt =====
-- apps/pkg/geeRPC/server.go, handleRequest: a request's handler runs in a goroutine of its own, which
-- meets the waiting one at two unbuffered channels, `called` and `sent`. `step` is one turn of the two;
-- a turn for which a goroutine is not ready changes nothing.
use go_im_system.Prelude.{
  ℕ, ◌≡◌, Bool, true, false, List, [], ◌∷◌, ◌++◌, Option, none, some, ◌==◌, not, if◌then◌else◌,
}
use go_im_system.Text.{Text, codes}
pub mod Answer

-- The goroutine of the handler: the method runs; it has given an error or none, which is to be taken
-- notice of; the response is being sent; it is sent, which is to be taken notice of.
pub data Worker : Type 0 where
  running : Worker
  offering : Option Text → Worker
  responding : Option Text → Worker
  reporting : Option Text → Worker
  ended : Option Text → Worker

-- The other: it waits for the handler and the timer, sends the response that it is late and has left,
-- or waits for the response and is done.
pub data Waiter : Type 0 where
  selecting timing_out left awaiting_sent handled : Waiter

-- A response: the error in its header, and whether it has the reply for a body.
pub record Response : Type 0 where
  pub error : Text
  pub replies : Bool

pub record Handling : Type 0 where
  pub worker : Worker
  pub waiter : Waiter
  pub error : Text  -- the error in the header, which both share
  pub responses : List Response

abbrev pub handling_of : Text → Handling
handling_of error = record { worker = running; waiter = selecting; error = error; responses = [] }

abbrev pub respond : Text → Bool → Handling → Handling
respond e b h = record h {
  error = e;
  responses = h.responses ++ record { error = e; replies = b } ∷ [];
}

pub data Turn : Type 0 where
  handler_ends : Option Text → Turn
  timer_fires timeout_sent called_taken response_sent sent_taken : Turn

abbrev pub handler_turn : Option Text → Worker → Handling → Handling
handler_turn e running h = record h { worker = offering e }
handler_turn e _ h = h

abbrev pub timer_turn : ℕ → Waiter → Handling → Handling
timer_turn timeout selecting h = if timeout == 0 then h else record h { waiter = timing_out }
timer_turn timeout _ h = h

-- `printed` is how the timeout is printed.
abbrev pub timeout_error : Text → Text
timeout_error printed = codes "rpc server: request handle timeout: expect within " ++ printed

abbrev pub timeout_turn : Text → Waiter → Handling → Handling
timeout_turn printed timing_out h =
    respond (timeout_error printed) false (record h { waiter = left })
timeout_turn printed _ h = h

abbrev pub called_turn : Waiter → Worker → Handling → Handling
called_turn selecting (offering e) h = record h { waiter = awaiting_sent; worker = responding e }
called_turn _ _ h = h

abbrev pub response_turn : Worker → Handling → Handling
response_turn (responding none) h = respond h.error true (record h { worker = reporting none })
response_turn (responding (some e)) h = respond e false (record h { worker = reporting (some e) })
response_turn _ h = h

abbrev pub sent_turn : Waiter → Worker → Handling → Handling
sent_turn awaiting_sent (reporting e) h = record h { waiter = handled; worker = ended e }
sent_turn _ _ h = h

module _ (timeout : ℕ) (printed : Text) where
  unfoldable pub step : Turn → Handling → Handling
  step (handler_ends e) h = handler_turn e h.worker h
  step timer_fires h = timer_turn timeout h.waiter h
  step timeout_sent h = timeout_turn printed h.waiter h
  step called_taken h = called_turn h.waiter h.worker h
  step response_sent h = response_turn h.worker h
  step sent_taken h = sent_turn h.waiter h.worker h

  unfoldable pub run : List Turn → Handling → Handling
  run [] h = h
  run (t ∷ ts) h = run ts (step t h)
