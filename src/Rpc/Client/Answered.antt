-- ===== src/Rpc/Client/Answered.antt =====
-- When the connection breaks, no call is left waiting.
use go_im_system.Prelude.{
  ℕ, suc, ◌+◌, ◌^◌, ◌≤◌, ◌<◌, ◌≡◌, refl, true, List, [], ◌∷◌, ◌++◌, Option, none, some, nat_eq,
  arith, inl, inr, ◌⊎◌,
}
use go_im_system.Text.{Text}
use go_im_system.Rpc.Client.{
  Client, Receiver, at_header, discarding, answering, stopped, finished, new_client_codec,
  register_call, remove_call, send, written, on_header, on_body, give_up, terminate_calls, close,
  Turn, send_call, write_ends, header_comes, header_fails, body_ends, terminate, caller_leaves,
  user_closes, step, run, turn_send, turn_written, turn_header, turn_stop, turn_terminate,
}
use go_im_system.Rpc.Client.Sound.{is_over, Sound, Sound-new_client_codec}
use go_im_system.Rpc.Client.Once.{step-Sound, run-Sound}
use go_im_system.Rpc.Client.Tracked.{
  Tracked, Tracked-new_client_codec, Tracked-send, Tracked-written, Tracked-on_header, Tracked-free,
}
use go_im_system.Rpc.Client.Receiving.{
  Tracked-on_body, Tracked-terminate_calls, Tracked-give_up, Tracked-closing,
}

-- Only sending makes a call.
send-next : (m : Text) (c : Client) → (send m c).next ≡ suc c.next
unfolding send register_call
send-next m c = ground arith

written-next : (n : ℕ) (e : Option Text) (c : Client) → (written n e c).next ≡ c.next
unfolding written remove_call
written-next n none c = refl
written-next n (some e) c = ground arith

on_header-next : (n : ℕ) (e : Text) (c : Client) → (on_header n e c).next ≡ c.next
unfolding on_header remove_call
on_header-next n e c = ground arith

on_body-next : (r : Receiver) (e : Option Text) (c : Client) → (on_body r e c).next ≡ c.next
unfolding on_body
on_body-next at_header e c = refl
on_body-next (stopped x) e c = refl
on_body-next finished e c = refl
on_body-next discarding e c = refl
on_body-next (answering h u) e c = refl

Tracked-turn_send :
    (m : Text) (o : Option ℕ) (c : Client)
    → (turn_send m o c).next + 1 < 2 ^ 64
    → Sound c
    → Tracked c
    → Tracked (turn_send m o c)
Tracked-turn_send m none c small s t = Tracked-send m c (omega (arith, small, send-next m c)) s t
Tracked-turn_send m (some n) c small s t = t

Tracked-turn_written :
    (e : Option Text) (o : Option ℕ) (c : Client) → Tracked c → Tracked (turn_written e o c)
Tracked-turn_written e none c t = t
Tracked-turn_written e (some n) c t = Tracked-written n e c t

Tracked-turn_header :
    (n : ℕ) (e : Text) (r : Receiver) (c : Client)
    → c.receiver ≡ r
    → Tracked c
    → Tracked (turn_header n e r c)
Tracked-turn_header n e at_header c at t = Tracked-on_header n e c at t
Tracked-turn_header n e discarding c at t = t
Tracked-turn_header n e (answering h u) c at t = t
Tracked-turn_header n e (stopped x) c at t = t
Tracked-turn_header n e finished c at t = t

Tracked-turn_stop :
    (e : Text) (r : Receiver) (c : Client) → c.receiver ≡ r → Tracked c → Tracked (turn_stop e r c)
Tracked-turn_stop e at_header c at t =
    Tracked-free (stopped e) c (λ h u q. absurd (ground (arith, at))) refl t
Tracked-turn_stop e discarding c at t = t
Tracked-turn_stop e (answering h u) c at t = t
Tracked-turn_stop e (stopped x) c at t = t
Tracked-turn_stop e finished c at t = t

Tracked-turn_terminate :
    (r : Receiver) (o : Option ℕ) (c : Client)
    → c.receiver ≡ r
    → Sound c
    → Tracked c
    → Tracked (turn_terminate r o c)
Tracked-turn_terminate (stopped e) none c at s t = Tracked-terminate_calls e c at s t
Tracked-turn_terminate (stopped e) (some n) c at s t = t
Tracked-turn_terminate at_header o c at s t = t
Tracked-turn_terminate discarding o c at s t = t
Tracked-turn_terminate (answering h u) o c at s t = t
Tracked-turn_terminate finished o c at s t = t

step-Tracked :
    (u : Turn) (c : Client)
    → (step u c).next + 1 < 2 ^ 64
    → Sound c
    → Tracked c
    → Tracked (step u c)
unfolding step close
step-Tracked (send_call m) c small s t = Tracked-turn_send m c.sending c small s t
step-Tracked (write_ends e) c small s t = Tracked-turn_written e c.sending c t
step-Tracked (header_comes n e) c small s t = Tracked-turn_header n e c.receiver c refl t
step-Tracked (header_fails e) c small s t = Tracked-turn_stop e c.receiver c refl t
step-Tracked (body_ends e) c small s t = Tracked-on_body c.receiver e c refl t
step-Tracked terminate c small s t = Tracked-turn_terminate c.receiver c.sending c refl s t
step-Tracked (caller_leaves h) c small s t = Tracked-give_up h c t
step-Tracked user_closes c small s t = Tracked-closing c.closing c t

next-turn_written :
    (e : Option Text) (o : Option ℕ) (c : Client) → c.next ≤ (turn_written e o c).next
next-turn_written e none c = omega arith
next-turn_written e (some n) c = omega (arith, written-next n e c)

next-step : (u : Turn) (c : Client) → c.next ≤ (step u c).next
unfolding step terminate_calls give_up remove_call close
next-step (send_call m) c = ground (arith, send-next m c)
next-step (write_ends e) c = next-turn_written e c.sending c
next-step (header_comes n e) c = ground (arith, on_header-next n e c)
next-step (header_fails e) c = ground arith
next-step (body_ends e) c = omega (arith, on_body-next c.receiver e c)
next-step terminate c = ground arith
next-step (caller_leaves h) c = omega arith
next-step user_closes c = ground arith

next-run : (us : List Turn) (c : Client) → c.next ≤ (run us c).next
unfolding run
next-run [] c = omega arith
next-run (u ∷ us) c = omega (arith, next-step u c, next-run us (step u c))

pub run-Tracked :
    (us : List Turn) (c : Client)
    → (run us c).next + 1 < 2 ^ 64
    → Sound c
    → Tracked c
    → Tracked (run us c)
unfolding run
run-Tracked [] c small s t = t
run-Tracked (u ∷ us) c small s t =
    run-Tracked us (step u c) small (step-Sound u c s)
      (step-Tracked u c (omega (arith, small, next-run us (step u c))) s t)

-- The connection breaks: the loop is done with the body it reads and finds no header, a write that goes
-- on ends, and the calls are terminated.
abbrev pub breaks : Text → List Turn
breaks e = body_ends none ∷ header_fails e ∷ write_ends none ∷ terminate ∷ []

abbrev Ends : Receiver → Type 0
Ends r = ((x : Text) × (r ≡ stopped x)) ⊎ (r ≡ finished)

turn_stop-Ends :
    (e : Text) (r : Receiver) (c : Client)
    → c.receiver ≡ r
    → let d = on_body r none c in Ends (turn_stop e d.receiver d).receiver
unfolding on_body
turn_stop-Ends e at_header c at = inl (e, ground (arith, at))
turn_stop-Ends e (stopped x) c at = inl (x, ground (arith, at))
turn_stop-Ends e finished c at = inr (ground (arith, at))
turn_stop-Ends e discarding c at = inl (e, refl)
turn_stop-Ends e (answering h u) c at = inl (e, refl)

-- With the lock free, the last turn ends the loop.
terminate-over :
    (o : Option ℕ) (c : Client)
    → c.sending ≡ o
    → Ends c.receiver
    → is_over (step terminate (turn_written none o c)).receiver ≡ true
unfolding step terminate_calls written
terminate-over none c free (inl (x, at)) = rw (at, free) refl
terminate-over none c free (inr at) = ground (arith, at, free)
terminate-over (some n) c busy (inl (x, at)) = rw at refl
terminate-over (some n) c busy (inr at) = ground (arith, at)

breaks-over : (e : Text) (c : Client) → is_over (run (breaks e) c).receiver ≡ true
unfolding run step
breaks-over e c =
    let d = on_body c.receiver none c in
    let stop = turn_stop e d.receiver d in
    terminate-over stop.sending stop refl (turn_stop-Ends e c.receiver c refl)

run-append : (us vs : List Turn) (c : Client) → run (us ++ vs) c ≡ run vs (run us c)
unfolding run
run-append [] vs c = refl
run-append (u ∷ us) vs c = run-append us vs (step u c)

-- When a connection breaks after any turns of its goroutines, while less than 2 ^ 64 - 1 calls
-- were made in all, every call that was made is sent into its channel exactly once, or its
-- caller has left it by its context.
pub all_answered :
    (us : List Turn) (e : Text) (h : ℕ)
    → let c = run (us ++ breaks e) new_client_codec in
      c.next + 1 < 2 ^ 64 → h < c.next → ((c.calls h).done ≡ 1) ⊎ (c.given_up h ≡ true)
all_answered us e h small made =
    let c = run (us ++ breaks e) new_client_codec in
    let sound = run-Sound (us ++ breaks e) new_client_codec Sound-new_client_codec in
    let tracked =
      run-Tracked (us ++ breaks e) new_client_codec small Sound-new_client_codec
        Tracked-new_client_codec in
    let over : is_over c.receiver ≡ true =
      rw (run-append us (breaks e) new_client_codec) (breaks-over e (run us new_client_codec)) in
    elim (tracked.kept h made) [
      | inl fin ↦ inl (omega (arith, fin, sound.once h))
      | inr (inl gone) ↦ inr gone
      | inr (inr (inl (there, live))) ↦ absurd (ground (arith, over, live))
      | inr (inr (inr (u, answer))) ↦ absurd (ground (arith, over, answer))
    ]
