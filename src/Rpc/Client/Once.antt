-- ===== src/Rpc/Client/Once.antt =====
-- A call is sent into its channel at most once, so that a channel with a buffer of one never blocks.
use go_im_system.Prelude.{
  ℕ, ◌+◌, ◌≤◌, ◌≡◌, ◌≢◌, refl, Bool, true, false, List, [], ◌∷◌, Option, none, some, nat_eq,
  write_at, ◌==◌, if◌then◌else◌, arith, inl, inr, Bool-cases,
}
use go_im_system.Text.{Text}
use go_im_system.Rpc.Client.{
  after_body, answer_error, Call, Client, Receiver, at_header, discarding, answering, stopped,
  finished, new_client_codec, finish_call, remove_call, fail_all, on_body, give_up, terminate_calls,
  close, Turn, send_call, write_ends, header_comes, header_fails, body_ends, terminate,
  caller_leaves, user_closes, step, run, turn_send, turn_written, turn_header, turn_stop,
  turn_terminate,
}
use go_im_system.Rpc.Client.Table.{waits, Apart}
use go_im_system.Rpc.Client.Sound.{
  is_over, Sound, Sound-new_client_codec, Sound-finish, Sound-send, Sound-removed, Sound-written,
  Sound-on_header,
}

-- The loop goes on, or stops, with no call in hand.
Sound-free :
    (r : Receiver) (c : Client)
    → is_over c.receiver ≡ false
    → is_over r ≡ false
    → ((h : ℕ) (t : Text) → r ≢ answering h t)
    → Sound c
    → Sound (record c { receiver = r })
Sound-free r c was live idle s = record {
  once = s.once;
  quiet = λ _. s.quiet was;
  below = s.below;
  apart = s.apart;
  held = λ k t q. absurd (idle k t q);
  over = λ q. absurd (ground (arith, live));
}

after_body-idle : (e : Option Text) (h : ℕ) (t : Text) → after_body e ≢ answering h t
after_body-idle none h t q = ground arith
after_body-idle (some e) h t q = ground arith

pub after_body-live : (e : Option Text) → is_over (after_body e) ≡ false
after_body-live none = refl
after_body-live (some e) = refl

Sound-on_body :
    (r : Receiver) (e : Option Text) (c : Client) → c.receiver ≡ r → Sound c → Sound (on_body r e c)
unfolding on_body
Sound-on_body at_header e c at s = s
Sound-on_body (stopped x) e c at s = s
Sound-on_body finished e c at s = s
Sound-on_body discarding e c at s =
    Sound-free (after_body e) c (ground arith) (after_body-live e) (after_body-idle e) s
Sound-on_body (answering h t) e c at s =
    let (zero_done, old, missing) = s.held h t at in
    Sound-finish h (answer_error t e) (record c { receiver = after_body e }) old zero_done missing
      (after_body-idle e h)
      (Sound-free (after_body e) c (ground arith) (after_body-live e) (after_body-idle e) s)

pub fail_all-other :
    (e : Text) (p : List (ℕ × ℕ)) (calls : ℕ → Call) (h : ℕ)
    → waits h p ≡ false
    → (fail_all e p calls h).done ≡ (calls h).done
fail_all-other e [] calls h missing = refl
fail_all-other e ((n, k) ∷ p) calls h missing =
    ground (arith, fail_all-other e p (write_at k (finish_call (some e) (calls k)) calls) h)

-- Each waiting call is finished once.
pub fail_all-done :
    (e : Text) (p : List (ℕ × ℕ)) (calls : ℕ → Call) (h : ℕ)
    → Apart p
    → waits h p ≡ true
    → (fail_all e p calls h).done ≡ (calls h).done + 1
fail_all-done e [] calls h a w = ground arith
fail_all-done e ((n, k) ∷ p) calls h (fresh, a) w =
    let rest = write_at k (finish_call (some e) (calls k)) calls in
    elim (Bool-cases (k == h)) [
      | inl same ↦ ground (arith, fail_all-other e p rest h)
      | inr other ↦ ground (arith, fail_all-done e p rest h a)
    ]

Sound-terminate_calls :
    (e : Text) (c : Client)
    → is_over c.receiver ≡ false
    → c.sending ≡ none
    → Sound c
    → Sound (terminate_calls e c)
unfolding terminate_calls
Sound-terminate_calls e c live free s = record {
  once = λ h. elim (Bool-cases (waits h c.pending)) [
    | inl there ↦
        let one = fail_all-done e c.pending c.calls h s.apart there in
        omega (arith, one, s.quiet live h there)
    | inr missing ↦
        let same = fail_all-other e c.pending c.calls h missing in omega (arith, same, s.once h)
  ];
  quiet = λ q. absurd (ground arith);
  below = s.below;
  apart = s.apart;
  held = λ h t q. absurd (ground arith);
  over = λ q. (refl, free);
}

Sound-closing :
    (b : Bool) (c : Client)
    → Sound c
    → Sound (if◌then◌else◌ {A = Bool × Client} b (true, c) (false, record c { closing = true })).1
Sound-closing true c s = s
Sound-closing false c s = record {
  once = s.once;
  quiet = s.quiet;
  below = s.below;
  apart = s.apart;
  held = s.held;
  over = s.over;
}

Sound-give_up : (h : ℕ) (c : Client) → Sound c → Sound (give_up h c)
unfolding give_up remove_call
Sound-give_up h c s =
    let r = Sound-removed (c.calls h).seq c s in
    record {
      once = r.once;
      quiet = r.quiet;
      below = r.below;
      apart = r.apart;
      held = r.held;
      over = r.over;
    }

Sound-stopped :
    (e : Text) (r : Receiver) (c : Client) → c.receiver ≡ r → Sound c → Sound (turn_stop e r c)
Sound-stopped e at_header c at s =
    Sound-free (stopped e) c (ground arith) refl (λ h t q. ground arith) s
Sound-stopped e discarding c at s = s
Sound-stopped e (answering h t) c at s = s
Sound-stopped e (stopped x) c at s = s
Sound-stopped e finished c at s = s

Sound-terminated :
    (r : Receiver) (o : Option ℕ) (c : Client)
    → c.receiver ≡ r
    → c.sending ≡ o
    → Sound c
    → Sound (turn_terminate r o c)
Sound-terminated (stopped e) none c at free s = Sound-terminate_calls e c (ground arith) free s
Sound-terminated (stopped e) (some n) c at busy s = s
Sound-terminated at_header o c at free s = s
Sound-terminated discarding o c at free s = s
Sound-terminated (answering h t) o c at free s = s
Sound-terminated finished o c at free s = s

Sound-turn_send :
    (m : Text) (o : Option ℕ) (c : Client) → c.sending ≡ o → Sound c → Sound (turn_send m o c)
Sound-turn_send m none c free s = Sound-send m c free s
Sound-turn_send m (some n) c busy s = s

Sound-turn_written :
    (e : Option Text) (o : Option ℕ) (c : Client)
    → c.sending ≡ o
    → Sound c
    → Sound (turn_written e o c)
Sound-turn_written e none c free s = s
Sound-turn_written e (some n) c busy s = Sound-written n e c busy s

Sound-turn_header :
    (n : ℕ) (e : Text) (r : Receiver) (c : Client)
    → c.receiver ≡ r
    → Sound c
    → Sound (turn_header n e r c)
Sound-turn_header n e at_header c at s = Sound-on_header n e c at s
Sound-turn_header n e discarding c at s = s
Sound-turn_header n e (answering h t) c at s = s
Sound-turn_header n e (stopped x) c at s = s
Sound-turn_header n e finished c at s = s

pub step-Sound : (t : Turn) (c : Client) → Sound c → Sound (step t c)
unfolding step close
step-Sound (send_call m) c s = Sound-turn_send m c.sending c refl s
step-Sound (write_ends e) c s = Sound-turn_written e c.sending c refl s
step-Sound (header_comes n e) c s = Sound-turn_header n e c.receiver c refl s
step-Sound (header_fails e) c s = Sound-stopped e c.receiver c refl s
step-Sound (body_ends e) c s = Sound-on_body c.receiver e c refl s
step-Sound terminate c s = Sound-terminated c.receiver c.sending c refl refl s
step-Sound (caller_leaves h) c s = Sound-give_up h c s
step-Sound user_closes c s = Sound-closing c.closing c s

pub run-Sound : (ts : List Turn) (c : Client) → Sound c → Sound (run ts c)
unfolding run
run-Sound [] c s = s
run-Sound (t ∷ ts) c s = run-Sound ts (step t c) (step-Sound t c s)

-- Whatever the goroutines of a connection do from its making on, in any order of their turns,
-- no call is sent into its channel more than once, so that a channel with a buffer of one never
-- blocks the receiving loop.
pub run_once : (ts : List Turn) (h : ℕ) → ((run ts new_client_codec).calls h).done ≤ 1
run_once ts h = (run-Sound ts new_client_codec Sound-new_client_codec).once h
