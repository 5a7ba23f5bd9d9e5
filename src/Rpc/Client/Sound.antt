-- ===== src/Rpc/Client/Sound.antt =====
-- What holds of a connection's calls between the turns, and sending and taking out of a call keep it.
use go_im_system.Prelude.{
  ℕ, suc, ◌≤◌, ◌<◌, ◌≡◌, ◌≢◌, refl, Bool, true, false, ◌||◌, List, Option, none, some, lookup,
  insert, delete, nat_eq, write_at, ◌==◌, arith, inl, inr, Bool-cases, Option-cases,
}
use go_im_system.Text.{Text}
use go_im_system.Rpc.Client.{
  err_shutdown, Client, Receiver, at_header, answering, finished, new_client_codec, new_call,
  finish, register_call, remove_call, send, written, on_header,
}
use go_im_system.Rpc.Client.Table.{
  waits, Apart, lookup-waits, waits-delete, delete-Apart, waits-removed, waits-insert, insert-Apart,
}

abbrev pub is_over : Receiver → Bool
is_over finished = true
is_over _ = false

pub record Sound (c : Client) : Type 0 where
  pub once : (h : ℕ) → (c.calls h).done ≤ 1
  pub quiet : is_over c.receiver ≡ false → (h : ℕ) → waits h c.pending ≡ true → (c.calls h).done ≡ 0
  pub below : (h : ℕ) → waits h c.pending ≡ true → h < c.next
  pub apart : Apart c.pending
  pub held :
      (h : ℕ) (t : Text)
      → c.receiver ≡ answering h t
      → ((c.calls h).done ≡ 0) × (h < c.next) × (waits h c.pending ≡ false)
  pub over : is_over c.receiver ≡ true → (c.shutdown ≡ true) × (c.sending ≡ none)

pub Sound-new_client_codec : Sound new_client_codec
Sound-new_client_codec = record {
  once = λ h. omega arith;
  quiet = λ live h w. refl;
  below = λ h w. ground arith;
  apart = tt;
  held = λ h t e. absurd (ground arith);
  over = λ e. absurd (ground arith);
}

pub waits-inserted :
    (n h k : ℕ) (p : List (ℕ × ℕ)) → k ≢ h → waits k (insert n h p) ≡ true → waits k p ≡ true
waits-inserted n h k p other w = elim (Bool-cases (waits k p)) [
  | inl there ↦ there
  | inr missing ↦ ground (arith, waits-insert n h k p other missing)
]

pub waits-deleted : (n k : ℕ) (p : List (ℕ × ℕ)) → waits k (delete n p) ≡ true → waits k p ≡ true
waits-deleted n k p w = elim (Bool-cases (waits k p)) [
  | inl there ↦ there
  | inr missing ↦ ground (arith, waits-delete n k p missing)
]

pub fresh_waits : (c : Client) → Sound c → waits c.next c.pending ≡ false
fresh_waits c s = elim (Bool-cases (waits c.next c.pending)) [
  | inl there ↦ absurd (omega (arith, s.below c.next there))
  | inr missing ↦ missing
]

-- A call that is not in the table is finished.
pub Sound-finish :
    (h : ℕ) (e : Option Text) (c : Client)
    → h < c.next
    → (c.calls h).done ≡ 0
    → waits h c.pending ≡ false
    → ((t : Text) → c.receiver ≢ answering h t)
    → Sound c
    → Sound (finish h e c)
Sound-finish h e c old zero_done missing other s = record {
  once = λ k. ground (arith, s.once k);
  quiet = λ live k w. ground (arith, s.quiet live k w);
  below = s.below;
  apart = s.apart;
  held = λ k t r. elim (Bool-cases (h == k)) [
    | inl same ↦ absurd (other t (ground (arith, r)))
    | inr apart ↦ ground (arith, s.held k t r)
  ];
  over = s.over;
}

abbrev pub grown : Text → Client → Client
grown m c = record c { calls = write_at c.next (new_call m) c.calls; next = suc c.next }

pub Sound-grown : (m : Text) (c : Client) → Sound c → Sound (grown m c)
Sound-grown m c s = record {
  once = λ k. ground (arith, s.once k);
  quiet = λ live k w. ground (arith, s.quiet live k w);
  below = λ k w. omega (arith, s.below k w);
  apart = s.apart;
  held = λ k t r. ground (arith, s.held k t r);
  over = s.over;
}

pub Sound-send : (m : Text) (c : Client) → c.sending ≡ none → Sound c → Sound (send m c)
unfolding send register_call
Sound-send m c free s = elim (Bool-cases (c.closing || c.shutdown)) [
  | inl shut ↦
      rw (send, register_call, shut)
        (Sound-finish c.next (some err_shutdown) (grown m c) (omega arith) (ground arith)
          (fresh_waits c s) (λ t e. absurd (omega (arith, (s.held c.next t e).1)))
          (Sound-grown m c s))
  | inr open_now ↦
      rw (send, register_call, open_now)
        (record {
          once = λ k. ground (arith, s.once k);
          quiet =
              λ live k w. ground (arith, s.quiet live k, waits-inserted c.seq c.next k c.pending);
          below = λ k w. ground (arith, s.below k, waits-inserted c.seq c.next k c.pending);
          apart = insert-Apart c.seq c.next c.pending (fresh_waits c s) s.apart;
          held = λ k t r. ground (arith, s.held k t r, waits-insert c.seq c.next k c.pending);
          over = λ e. absurd (ground (arith, s.over e, open_now));
        })
]

abbrev pub removed : ℕ → Client → Client
removed n c = record c { pending = delete n c.pending }

pub Sound-removed : (n : ℕ) (c : Client) → Sound c → Sound (removed n c)
Sound-removed n c s = record {
  once = s.once;
  quiet = λ live k w. s.quiet live k (waits-deleted n k c.pending w);
  below = λ k w. s.below k (waits-deleted n k c.pending w);
  apart = delete-Apart n c.pending s.apart;
  held = λ k t r. ground (arith, s.held k t r, waits-delete n k c.pending);
  over = s.over;
}

pub Sound-unlocked : (c : Client) → Sound c → Sound (record c { sending = none })
Sound-unlocked c s = record {
  once = s.once;
  quiet = s.quiet;
  below = s.below;
  apart = s.apart;
  held = s.held;
  over = λ e. ((s.over e).0, refl);
}

-- The call under a number is not finished and, once out of the table, not waiting.
pub taken_call :
    (n h : ℕ) (c : Client)
    → Sound c
    → is_over c.receiver ≡ false
    → lookup n c.pending ≡ some h
    → (h < c.next)
      × ((c.calls h).done ≡ 0)
      × (waits h (delete n c.pending) ≡ false)
      × ((t : Text) → c.receiver ≢ answering h t)
taken_call n h c s live found =
    let there = lookup-waits n h c.pending found in
    (
      s.below h there,
      s.quiet live h there,
      waits-removed n h c.pending s.apart found,
      λ t e. absurd (ground (arith, s.held h t e, there)),
    )

pub Sound-written :
    (n : ℕ) (e : Option Text) (c : Client) → c.sending ≡ some n → Sound c → Sound (written n e c)
unfolding written remove_call
Sound-written n none c busy s = Sound-unlocked c s
Sound-written n (some e) c busy s = elim (Option-cases (lookup n c.pending)) [
  | inl missing ↦
      rw (missing, written) (Sound-removed n (record c { sending = none }) (Sound-unlocked c s))
  | inr (h, found) ↦
      let live : is_over c.receiver ≡ false = ground (arith, s.over) in
      let (old, zero_done, gone, other) = taken_call n h c s live found in
      rw (found, written)
        (Sound-finish h (some e) (removed n (record c { sending = none })) old zero_done gone other
          (Sound-removed n (record c { sending = none }) (Sound-unlocked c s)))
]

-- The loop waits for a body, of no call or of one that is out of the table.
pub Sound-on_header :
    (n : ℕ) (e : Text) (c : Client) → c.receiver ≡ at_header → Sound c → Sound (on_header n e c)
unfolding on_header remove_call
Sound-on_header n e c ready s =
    let r = Sound-removed n c s in
    elim (Option-cases (lookup n c.pending)) [
      | inl missing ↦
          rw (missing, on_header)
            (record {
              once = r.once;
              quiet = λ live. r.quiet (ground arith);
              below = r.below;
              apart = r.apart;
              held = λ k t q. absurd (ground arith);
              over = λ q. absurd (ground arith);
            })
      | inr (h, found) ↦
          let (old, zero_done, gone, other) = taken_call n h c s (ground arith) found in
          rw (found, on_header)
            (record {
              once = r.once;
              quiet = λ live. r.quiet (ground arith);
              below = r.below;
              apart = r.apart;
              held = λ k t q. ground arith;
              over = λ q. absurd (ground arith);
            })
    ]
