-- ===== src/Rpc/Client.antt =====
-- apps/pkg/geeRPC/client.go: the calls of one connection that wait for their answers. Calls are
-- objects under handles, since the table of the waiting ones, the receiving loop and the callers share
-- them. The goroutines take turns where the code takes and gives up its locks: `step` is one such turn.
-- What the codec gives on a read or a write is part of the turn.
use go_im_system.Prelude.{
  ℕ, suc, ◌+◌, ◌%◌, ◌^◌, ◌≡◌, Bool, true, false, ◌||◌, not, ◌&&◌, List, [], ◌∷◌, ◌++◌, Option, none,
  some, lookup, insert, delete, nat_eq, write_at, if◌then◌else◌,
}
use go_im_system.Text.{Text, codes}
pub mod Table
pub mod Sound
pub mod Numbers
pub mod Tracked
pub mod Receiving
pub mod Once
pub mod Answered

pub record Call : Type 0 where
  pub seq : ℕ
  pub service_method : Text
  pub error : Option Text
  pub done : ℕ  -- how often it was sent into its channel `Done`

-- Where `receive` stands: before a header, or with a body to read, for no call or for the call under a
-- handle, whose header had the error; or out of its loop, before and after `terminateCalls`.
pub data Receiver : Type 0 where
  at_header discarding : Receiver
  answering : ℕ → Text → Receiver
  stopped : Text → Receiver
  finished : Receiver

pub record Client : Type 0 where
  pub seq : ℕ
  pub pending : List (ℕ × ℕ)  -- the handle under each number
  pub closing : Bool
  pub shutdown : Bool
  pub calls : ℕ → Call
  pub next : ℕ
  pub sending : Option ℕ  -- the number of the call that is being written, under the lock `sending`
  pub receiver : Receiver
  pub given_up : ℕ → Bool  -- the callers that have left by their context

abbrev pub new_call : Text → Call
new_call method = record { seq = 0; service_method = method; error = none; done = 0 }

abbrev pub new_client_codec : Client
new_client_codec = record {
  seq = 1;
  pending = [];
  closing = false;
  shutdown = false;
  calls = λ h. new_call [];
  next = 0;
  sending = none;
  receiver = at_header;
  given_up = λ h. false;
}

abbrev pub err_shutdown : Text
err_shutdown = codes "connection is shut down"

-- `Call.done`, after the error is set.
abbrev pub finish_call : Option Text → Call → Call
finish_call e c = record c { error = e; done = c.done + 1 }

abbrev pub finish : ℕ → Option Text → Client → Client
finish h e c = record c { calls = write_at h (finish_call e (c.calls h)) c.calls }

-- Whether it returns an error.
unfoldable pub close : Client → Bool × Client
close c = if c.closing then (true, c) else (false, record c { closing = true })

unfoldable pub is_available : Client → Bool
is_available c = not c.shutdown && not c.closing

-- The call's number, or no number where the connection is shut down.
unfoldable pub register_call : ℕ → Client → Option ℕ × Client
register_call h c = if c.closing || c.shutdown then (none, c) else (
  some c.seq,
  record c {
    calls = write_at h (record (c.calls h) { seq = c.seq }) c.calls;
    pending = insert c.seq h c.pending;
    seq = (c.seq + 1) % 2 ^ 64;
  },
)

unfoldable pub remove_call : ℕ → Client → Option ℕ × Client
remove_call n c = (lookup n c.pending, record c { pending = delete n c.pending })

abbrev pub fail_all : Text → List (ℕ × ℕ) → (ℕ → Call) → ℕ → Call
fail_all e [] calls = calls
fail_all e ((n, h) ∷ rest) calls =
    fail_all e rest (write_at h (finish_call (some e) (calls h)) calls)

-- The waiting calls stay in the table.
unfoldable pub terminate_calls : Text → Client → Client
terminate_calls e c = record c {
  shutdown = true;
  calls = fail_all e c.pending c.calls;
  receiver = finished;
}

-- `Go` and `send`, up to the writing.
abbrev sending_of : ℕ → Option ℕ × Client → Client
sending_of h (none, c) = finish h (some err_shutdown) c
sending_of h (some n, c) = record c { sending = some n }

unfoldable pub send : Text → Client → Client
unfolding register_call
send method c =
    let h = c.next in
    let made = record c { calls = write_at h (new_call method) c.calls; next = suc c.next } in
    sending_of h (register_call h made)

-- `send`, after the writing: the error, if it fails.
abbrev unsent : Text → Option ℕ × Client → Client
unsent e (none, c) = c
unsent e (some h, c) = finish h (some e) c

unfoldable pub written : ℕ → Option Text → Client → Client
unfolding remove_call
written n none c = record c { sending = none }
written n (some e) c = unsent e (remove_call n (record c { sending = none }))

-- `receive`, with a header.
abbrev receiver_of : Text → Option ℕ × Client → Client
receiver_of e (none, c) = record c { receiver = discarding }
receiver_of e (some h, c) = record c { receiver = answering h e }

unfoldable pub on_header : ℕ → Text → Client → Client
unfolding remove_call
on_header n e c = receiver_of e (remove_call n c)

abbrev after_body : Option Text → Receiver
after_body none = at_header
after_body (some e) = stopped e

-- The error of a call after its body: that of the header, or that of the reading.
abbrev answer_error : Text → Option Text → Option Text
answer_error [] none = none
answer_error [] (some e) = some (codes "reading body " ++ e)
answer_error (a ∷ t) e = some (a ∷ t)

unfoldable pub on_body : Receiver → Option Text → Client → Client
on_body discarding e c = record c { receiver = after_body e }
on_body (answering h t) e c = finish h (answer_error t e) (record c { receiver = after_body e })
on_body at_header e c = c
on_body (stopped x) e c = c
on_body finished e c = c

-- `Call`, left by its context.
unfoldable pub give_up : ℕ → Client → Client
unfolding remove_call
give_up h c = record (remove_call (c.calls h).seq c).1 { given_up = write_at h true c.given_up }

pub data Turn : Type 0 where
  send_call : Text → Turn
  write_ends : Option Text → Turn
  header_comes : ℕ → Text → Turn
  header_fails : Text → Turn
  body_ends : Option Text → Turn
  terminate : Turn
  caller_leaves : ℕ → Turn
  user_closes : Turn

abbrev turn_send : Text → Option ℕ → Client → Client
turn_send m none c = send m c
turn_send m (some n) c = c

abbrev turn_written : Option Text → Option ℕ → Client → Client
turn_written e none c = c
turn_written e (some n) c = written n e c

abbrev turn_header : ℕ → Text → Receiver → Client → Client
turn_header n e at_header c = on_header n e c
turn_header n e _ c = c

abbrev turn_stop : Text → Receiver → Client → Client
turn_stop e at_header c = record c { receiver = stopped e }
turn_stop e _ c = c

-- `terminateCalls` waits for the lock `sending`.
abbrev turn_terminate : Receiver → Option ℕ → Client → Client
turn_terminate (stopped e) none c = terminate_calls e c
turn_terminate _ _ c = c

-- A turn whose goroutine must wait changes nothing.
unfoldable pub step : Turn → Client → Client
unfolding send written on_header on_body give_up terminate_calls close
step (send_call m) c = turn_send m c.sending c
step (write_ends e) c = turn_written e c.sending c
step (header_comes n e) c = turn_header n e c.receiver c
step (header_fails e) c = turn_stop e c.receiver c
step (body_ends e) c = on_body c.receiver e c
step terminate c = turn_terminate c.receiver c.sending c
step (caller_leaves h) c = give_up h c
step user_closes c = (close c).1

unfoldable pub run : List Turn → Client → Client
run [] c = c
run (t ∷ ts) c = run ts (step t c)
