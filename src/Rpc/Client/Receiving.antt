-- ===== src/Rpc/Client/Receiving.antt =====
-- Every call is accounted for, while the loop receives and ends and callers leave.
use go_im_system.Prelude.{
  ℕ, ◌≤◌, ◌≡◌, refl, sym, Bool, true, false, List, [], ◌∷◌, Option, some, lookup, nat_eq, write_at,
  ◌==◌, if◌then◌else◌, arith, inl, inr, Bool-cases, Option-cases,
}
use go_im_system.Text.{Text}
use go_im_system.Rpc.Client.{
  after_body, Call, Client, Receiver, at_header, discarding, answering, stopped, finished,
  finish_call, remove_call, fail_all, on_body, give_up, terminate_calls,
}
use go_im_system.Rpc.Client.Table.{lookup-used}
use go_im_system.Rpc.Client.Sound.{Sound}
use go_im_system.Rpc.Client.Once.{fail_all-done, after_body-live}
use go_im_system.Rpc.Client.Numbers.{Numbers-ext, Numbers-delete}
use go_im_system.Rpc.Client.Tracked.{Tracked, Tracked-free, kept-removed, removed_none}

pub Tracked-on_body :
    (r : Receiver) (e : Option Text) (c : Client)
    → c.receiver ≡ r
    → Tracked c
    → Tracked (on_body r e c)
unfolding on_body
Tracked-on_body at_header e c at t = t
Tracked-on_body (stopped x) e c at t = t
Tracked-on_body finished e c at t = t
Tracked-on_body discarding e c at t =
    Tracked-free (after_body e) c (λ h u q. absurd (ground (arith, at))) (after_body-live e) t
Tracked-on_body (answering h u) e c at t = record {
  numbers = Numbers-ext (λ k. (c.calls k).seq) _ (λ k. ground arith) t.numbers;
  kept = λ k lt. elim (Bool-cases (h == k)) [
    | inl same ↦ inl (ground arith)
    | inr other ↦ elim (t.kept k lt) [
      | inl fin ↦ inl (ground arith)
      | inr (inl gone) ↦ inr (inl gone)
      | inr (inr (inl (there, was))) ↦ inr (inr (inl (there, after_body-live e)))
      | inr (inr (inr (v, answer))) ↦ absurd (ground (arith, at, answer))
    ]
  ];
}

fail_all-seq :
    (e : Text) (p : List (ℕ × ℕ)) (calls : ℕ → Call) (h : ℕ)
    → (fail_all e p calls h).seq ≡ (calls h).seq
fail_all-seq e [] calls h = refl
fail_all-seq e ((n, k) ∷ p) calls h =
    ground (arith, fail_all-seq e p (write_at k (finish_call (some e) (calls k)) calls) h)

fail_all-grows :
    (e : Text) (p : List (ℕ × ℕ)) (calls : ℕ → Call) (h : ℕ)
    → (calls h).done ≤ (fail_all e p calls h).done
fail_all-grows e [] calls h = omega arith
fail_all-grows e ((n, k) ∷ p) calls h =
    ground (arith, fail_all-grows e p (write_at k (finish_call (some e) (calls k)) calls) h)

pub Tracked-terminate_calls :
    (e : Text) (c : Client)
    → c.receiver ≡ stopped e
    → Sound c
    → Tracked c
    → Tracked (terminate_calls e c)
unfolding terminate_calls
Tracked-terminate_calls e c at s t = record {
  numbers = Numbers-ext (λ k. (c.calls k).seq) _ (fail_all-seq e c.pending c.calls) t.numbers;
  kept = λ h lt. elim (t.kept h lt) [
    | inl fin ↦ inl (omega (arith, fin, fail_all-grows e c.pending c.calls h))
    | inr (inl gone) ↦ inr (inl gone)
    | inr (inr (inl (there, was))) ↦
        inl (omega (arith, fail_all-done e c.pending c.calls h s.apart there))
    | inr (inr (inr (u, answer))) ↦ absurd (ground (arith, at, answer))
  ];
}

-- A caller that leaves takes only its own call out.
own_call : (h k : ℕ) (c : Client) → Tracked c → lookup (c.calls h).seq c.pending ≡ some k → h ≡ k
own_call h k c t found =
    let same = t.numbers.filed (c.calls h).seq k found in
    let pos = t.numbers.in_use (c.calls h).seq (lookup-used (c.calls h).seq k c.pending found) in
    t.numbers.differ h k (sym same) pos.0

pub Tracked-give_up : (h : ℕ) (c : Client) → Tracked c → Tracked (give_up h c)
unfolding give_up remove_call
Tracked-give_up h c t = record {
  numbers = Numbers-delete (c.calls h).seq t.numbers;
  kept = λ k lt. elim (Bool-cases (h == k)) [
    | inl same ↦ inr (inl (ground arith))
    | inr other ↦ elim (Option-cases (lookup (c.calls h).seq c.pending)) [
      | inl missing ↦ rw (removed_none (c.calls h).seq c missing) (ground (arith, t.kept k lt))
      | inr (l, found) ↦
          let own = own_call h l c t found in
          ground (arith, kept-removed (c.calls h).seq l k c t found (ground arith) (t.kept k lt))
    ]
  ];
}

pub Tracked-closing :
    (b : Bool) (c : Client)
    → Tracked c
    → Tracked (if◌then◌else◌ {A = Bool × Client} b (true, c) (false, record c { closing = true })).1
Tracked-closing true c t = t
Tracked-closing false c t = record { numbers = t.numbers; kept = t.kept }
