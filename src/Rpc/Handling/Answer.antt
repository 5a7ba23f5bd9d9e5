-- ===== src/Rpc/Handling/Answer.antt =====
-- One response for each request.
use go_im_system.Prelude.{
  ℕ, ◌≤◌, ◌≡◌, refl, true, false, List, [], ◌∷◌, ◌++◌, Option, none, some, length, arith, inl, inr,
  ◌⊎◌, Bool-cases, ◌==◌,
}
use go_im_system.Text.{Text}
use go_im_system.Rpc.Handling.{
  offering, responding, reporting, ended, timing_out, left, awaiting_sent, handled, Response,
  Handling, handling_of, respond, Turn, handler_ends, timer_fires, timeout_sent, called_taken,
  response_sent, sent_taken, handler_turn, timer_turn, timeout_error, timeout_turn, called_turn,
  response_turn, sent_turn, step, run,
}

-- The response to what a handler gives: its error, or its reply under the header's error.
abbrev pub response_of : Text → Option Text → Response
response_of x none = record { error = x; replies = true }
response_of x (some e) = record { error = e; replies = false }

abbrev pub too_late : Text → Response
too_late printed = record { error = timeout_error printed; replies = false }

-- Where the two can be, with the responses sent.
pub data Place (x printed : Text) : Handling → Type 0 where
  at_work : Place x printed (handling_of x)
  at_offer : (e : Option Text) → Place x printed (record (handling_of x) { worker = offering e })
  late_work : Place x printed (record (handling_of x) { waiter = timing_out })
  late_offer :
      (e : Option Text)
      → Place x printed (record (handling_of x) { worker = offering e; waiter = timing_out })
  left_work :
      Place x printed
        (respond (timeout_error printed) false (record (handling_of x) { waiter = left }))
  left_offer :
      (e : Option Text)
      → Place x printed (
          respond
            (timeout_error printed)
            false
            (record (handling_of x) { worker = offering e; waiter = left }))
  at_response :
      (e : Option Text)
      → Place x printed (record (handling_of x) { worker = responding e; waiter = awaiting_sent })
  at_report :
      (e : Option Text)
      → Place x printed (record {
        worker = reporting e;
        waiter = awaiting_sent;
        error = (response_of x e).error;
        responses = response_of x e ∷ [];
      })
  at_end :
      (e : Option Text)
      → Place x printed (record {
        worker = ended e;
        waiter = handled;
        error = (response_of x e).error;
        responses = response_of x e ∷ [];
      })

module _ {x printed : Text} where
  Place-handler_turn :
      (e : Option Text) {h : Handling}
      → Place x printed h
      → Place x printed (handler_turn e h.worker h)
  Place-handler_turn e at_work = at_offer e
  Place-handler_turn e (at_offer f) = at_offer f
  Place-handler_turn e late_work = late_offer e
  Place-handler_turn e (late_offer f) = late_offer f
  Place-handler_turn e left_work = left_offer e
  Place-handler_turn e (left_offer f) = left_offer f
  Place-handler_turn e (at_response f) = at_response f
  Place-handler_turn e (at_report f) = at_report f
  Place-handler_turn e (at_end f) = at_end f

  Place-timeout_turn :
      {h : Handling} → Place x printed h → Place x printed (timeout_turn printed h.waiter h)
  Place-timeout_turn at_work = at_work
  Place-timeout_turn (at_offer f) = at_offer f
  Place-timeout_turn late_work = left_work
  Place-timeout_turn (late_offer f) = left_offer f
  Place-timeout_turn left_work = left_work
  Place-timeout_turn (left_offer f) = left_offer f
  Place-timeout_turn (at_response f) = at_response f
  Place-timeout_turn (at_report f) = at_report f
  Place-timeout_turn (at_end f) = at_end f

  Place-called_turn :
      {h : Handling} → Place x printed h → Place x printed (called_turn h.waiter h.worker h)
  Place-called_turn at_work = at_work
  Place-called_turn (at_offer f) = at_response f
  Place-called_turn late_work = late_work
  Place-called_turn (late_offer f) = late_offer f
  Place-called_turn left_work = left_work
  Place-called_turn (left_offer f) = left_offer f
  Place-called_turn (at_response f) = at_response f
  Place-called_turn (at_report f) = at_report f
  Place-called_turn (at_end f) = at_end f

  Place-sent_turn :
      {h : Handling} → Place x printed h → Place x printed (sent_turn h.waiter h.worker h)
  Place-sent_turn at_work = at_work
  Place-sent_turn (at_offer f) = at_offer f
  Place-sent_turn late_work = late_work
  Place-sent_turn (late_offer f) = late_offer f
  Place-sent_turn left_work = left_work
  Place-sent_turn (left_offer f) = left_offer f
  Place-sent_turn (at_response f) = at_response f
  Place-sent_turn (at_report f) = at_end f
  Place-sent_turn (at_end f) = at_end f

  Place-response_turn :
      {h : Handling} → Place x printed h → Place x printed (response_turn h.worker h)
  Place-response_turn at_work = at_work
  Place-response_turn (at_offer f) = at_offer f
  Place-response_turn late_work = late_work
  Place-response_turn (late_offer f) = late_offer f
  Place-response_turn left_work = left_work
  Place-response_turn (left_offer f) = left_offer f
  Place-response_turn (at_response none) = at_report none
  Place-response_turn (at_response (some e)) = at_report (some e)
  Place-response_turn (at_report f) = at_report f
  Place-response_turn (at_end f) = at_end f

  Place-timer_turn :
      (timeout : ℕ) {h : Handling}
      → Place x printed h
      → Place x printed (timer_turn timeout h.waiter h)
  Place-timer_turn timeout at_work = elim (Bool-cases (timeout == 0)) [
    | inl z ↦ rw z at_work
    | inr s ↦ rw s late_work
  ]
  Place-timer_turn timeout (at_offer f) = elim (Bool-cases (timeout == 0)) [
    | inl z ↦ rw z (at_offer f)
    | inr s ↦ rw s (late_offer f)
  ]
  Place-timer_turn timeout late_work = late_work
  Place-timer_turn timeout (late_offer f) = late_offer f
  Place-timer_turn timeout left_work = left_work
  Place-timer_turn timeout (left_offer f) = left_offer f
  Place-timer_turn timeout (at_response f) = at_response f
  Place-timer_turn timeout (at_report f) = at_report f
  Place-timer_turn timeout (at_end f) = at_end f

  pub step-Place :
      (timeout : ℕ) (t : Turn) {h : Handling}
      → Place x printed h
      → Place x printed (step timeout printed t h)
  unfolding step
  step-Place timeout (handler_ends e) p = Place-handler_turn e p
  step-Place timeout timer_fires p = Place-timer_turn timeout p
  step-Place timeout timeout_sent p = Place-timeout_turn p
  step-Place timeout called_taken p = Place-called_turn p
  step-Place timeout response_sent p = Place-response_turn p
  step-Place timeout sent_taken p = Place-sent_turn p

  pub run-Place :
      (timeout : ℕ) (ts : List Turn) {h : Handling}
      → Place x printed h
      → Place x printed (run timeout printed ts h)
  unfolding run
  run-Place timeout [] p = p
  run-Place timeout (t ∷ ts) p = run-Place timeout ts (step-Place timeout t p)

run-append :
    (timeout : ℕ) (printed : Text) (ts us : List Turn) (h : Handling)
    → run timeout printed (ts ++ us) h ≡ run timeout printed us (run timeout printed ts h)
unfolding run
run-append timeout printed [] us h = refl
run-append timeout printed (t ∷ ts) us h =
    run-append timeout printed ts us (step timeout printed t h)

-- The handler ends, and both goroutines take the turns that they can.
abbrev pub finishing : Option Text → List Turn
finishing e = handler_ends e ∷ (timeout_sent ∷ (called_taken ∷ (response_sent ∷ (sent_taken ∷ []))))

-- How it ends: with the handler's response, or late, with a goroutine that waits for ever.
abbrev pub Over : Text → Text → Handling → Type 0
Over x printed h =
    ((e : Option Text) × (h.worker ≡ ended e)
      × (h.waiter ≡ handled)
      × (h.responses ≡ response_of x e ∷ []))
    ⊎ ((e : Option Text) × (h.worker ≡ offering e)
        × (h.waiter ≡ left)
        × (h.responses ≡ too_late printed ∷ []))

finishing-Over :
    (timeout : ℕ) (e : Option Text) {x printed : Text} {h : Handling}
    → Place x printed h
    → Over x printed (run timeout printed (finishing e) h)
unfolding run step
finishing-Over timeout none at_work = inl (none, refl, refl, refl)
finishing-Over timeout (some e) at_work = inl (some e, refl, refl, refl)
finishing-Over timeout e (at_offer none) = inl (none, refl, refl, refl)
finishing-Over timeout e (at_offer (some f)) = inl (some f, refl, refl, refl)
finishing-Over timeout e late_work = inr (e, refl, refl, refl)
finishing-Over timeout e (late_offer f) = inr (f, refl, refl, refl)
finishing-Over timeout e left_work = inr (e, refl, refl, refl)
finishing-Over timeout e (left_offer f) = inr (f, refl, refl, refl)
finishing-Over timeout e (at_response none) = inl (none, refl, refl, refl)
finishing-Over timeout e (at_response (some f)) = inl (some f, refl, refl, refl)
finishing-Over timeout e (at_report f) = inl (f, refl, refl, refl)
finishing-Over timeout e (at_end f) = inl (f, refl, refl, refl)

responses-Place : {x printed : Text} {h : Handling} → Place x printed h → length h.responses ≤ 1
responses-Place at_work = omega arith
responses-Place (at_offer e) = omega arith
responses-Place late_work = omega arith
responses-Place (late_offer e) = omega arith
responses-Place left_work = omega arith
responses-Place (left_offer e) = omega arith
responses-Place (at_response e) = omega arith
responses-Place (at_report e) = omega arith
responses-Place (at_end e) = omega arith

-- Whatever turns the two goroutines of a request and its timer take, at most one response is
-- sent; and when the handler ends and both goroutines take the turns they can, exactly one is
-- sent: the handler's error, or its reply with the error that the request's header came with,
-- and both goroutines are done; or the error of the timeout, and then the handler's goroutine
-- waits for ever.
pub answered_once :
    (timeout : ℕ) (printed x : Text) (ts : List Turn) (e : Option Text)
    → (length (run timeout printed ts (handling_of x)).responses ≤ 1)
      × Over x printed (run timeout printed (ts ++ finishing e) (handling_of x))
answered_once timeout printed x ts e =
    let place : Place x printed (run timeout printed ts (handling_of x)) =
      run-Place timeout ts at_work in
    (
      responses-Place place,
      rw (run-append timeout printed ts (finishing e) (handling_of x))
          (finishing-Over timeout e place),
    )
