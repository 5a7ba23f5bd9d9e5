-- ===== src/Rpc/Client/Tracked.antt =====
-- Every call is accounted for, while sending, taking out and finishing go on.
use go_im_system.Prelude.{
  ℕ, ◌+◌, ◌^◌, ◌≤◌, ◌<◌, ◌≡◌, ◌≢◌, refl, true, false, ◌||◌, Option, none, some, lookup, delete,
  nat_eq, write_at, ◌==◌, arith, inl, inr, ◌⊎◌, Bool-cases, Option-cases,
}
use go_im_system.Text.{Text}
use go_im_system.Rpc.Client.{
  Client, Receiver, at_header, answering, new_client_codec, finish, register_call, remove_call,
  send, written, on_header,
}
use go_im_system.Rpc.Client.Table.{
  waits, lookup-waits, waits-inserted_self, waits-insert_kept, lookup-unused, delete-unused,
  waits-kept,
}
use go_im_system.Rpc.Client.Sound.{is_over, Sound, removed}
use go_im_system.Rpc.Client.Numbers.{
  Numbers, Numbers-ext, Numbers-delete, Numbers-insert, Numbers-unnumbered, unused_seq,
}

-- A call is finished, or left by its caller, or waits in the table, or is being answered.
abbrev pub Kept : Client → ℕ → Type 0
Kept c h =
    (1 ≤ (c.calls h).done)
    ⊎ ((c.given_up h ≡ true)
        ⊎ (((waits h c.pending ≡ true) × (is_over c.receiver ≡ false))
            ⊎ ((t : Text) × (c.receiver ≡ answering h t))))

pub record Tracked (c : Client) : Type 0 where
  pub numbers : Numbers c.seq c.next c.pending (λ h. (c.calls h).seq)
  pub kept : (h : ℕ) → h < c.next → Kept c h

pub Tracked-new_client_codec : Tracked new_client_codec
Tracked-new_client_codec = record {
  numbers = record {
    numbered = tt;
    in_use = λ n u. absurd (ground arith);
    starts = omega arith;
    fits = omega arith;
    lower = λ h. omega arith;
    differ = λ h k e z. absurd (omega (arith, z));
    filed = λ n h e. absurd (ground arith);
  };
  kept = λ h lt. absurd (omega (arith, lt));
}

fresh_lookup :
    (c : Client) → Sound c → (k m : ℕ) → lookup m c.pending ≡ some k → (k == c.next) ≡ false
fresh_lookup c s k m e = ground (arith, s.below k (lookup-waits m k c.pending e))

-- Finishing a call keeps the numbers and loses nobody.
pub Tracked-finish : (h : ℕ) (e : Option Text) (c : Client) → Tracked c → Tracked (finish h e c)
Tracked-finish h e c t = record {
  numbers = Numbers-ext (λ k. (c.calls k).seq) _ (λ k. ground arith) t.numbers;
  kept = λ k lt. elim (t.kept k lt) [ inl fin ↦ inl (ground arith) | inr rest ↦ inr rest ];
}

still_open : (c : Client) → Sound c → (c.closing || c.shutdown) ≡ false → is_over c.receiver ≡ false
still_open c s open_now = elim (Bool-cases (is_over c.receiver)) [
  | inl over ↦ absurd (ground (arith, s.over over))
  | inr live ↦ live
]

pub Tracked-send :
    (m : Text) (c : Client) → c.next + 2 < 2 ^ 64 → Sound c → Tracked c → Tracked (send m c)
unfolding send register_call
Tracked-send m c small s t = elim (Bool-cases (c.closing || c.shutdown)) [
  | inl shut ↦
      rw (send, register_call, shut)
        (record {
          numbers =
              Numbers-ext (write_at c.next 0 (λ k. (c.calls k).seq)) _ (λ k. ground arith)
                (Numbers-unnumbered c.next (fresh_lookup c s) t.numbers);
          kept = λ h lt. elim (Bool-cases (c.next == h)) [
            | inl new_one ↦ inl (ground arith)
            | inr old ↦ elim (t.kept h (ground arith)) [
              | inl fin ↦ inl (ground arith)
              | inr rest ↦ inr rest
            ]
          ];
        })
  | inr open_now ↦
      rw (send, register_call, open_now)
        (record {
          numbers =
              Numbers-ext (write_at c.next c.seq (λ k. (c.calls k).seq)) _ (λ k. ground arith)
                (Numbers-insert c.next small (fresh_lookup c s) t.numbers);
          kept = λ h lt. elim (Bool-cases (c.next == h)) [
            | inl new_one ↦ inr (
                inr (
                  inl (
                    ground (arith, waits-inserted_self c.seq c.next c.pending),
                    still_open c s open_now,
                  )))
            | inr old ↦ elim (t.kept h (ground arith)) [
              | inl fin ↦ inl (ground arith)
              | inr (inl gone) ↦ inr (inl gone)
              | inr (inr (inl (there, live))) ↦ inr (
                  inr (
                    inl (
                      waits-insert_kept c.seq c.next h c.pending (unused_seq t.numbers) there,
                      live,
                    )))
              | inr (inr (inr answer)) ↦ inr (inr (inr answer))
            ]
          ];
        })
]

-- Taking one call out of the table loses no other.
pub kept-removed :
    (n k h : ℕ) (c : Client)
    → Tracked c
    → lookup n c.pending ≡ some k
    → k ≢ h
    → Kept c h
    → Kept (removed n c) h
kept-removed n k h c t found other (inl fin) = inl fin
kept-removed n k h c t found other (inr (inl gone)) = inr (inl gone)
kept-removed n k h c t found other (inr (inr (inl (there, live)))) =
    inr (inr (inl (waits-kept n k h c.pending t.numbers.numbered found other there, live)))
kept-removed n k h c t found other (inr (inr (inr answer))) = inr (inr (inr answer))

-- Nothing is taken out under a number that is not in the table.
pub removed_none : (n : ℕ) (c : Client) → lookup n c.pending ≡ none → delete n c.pending ≡ c.pending
removed_none n c missing = delete-unused n c.pending (lookup-unused n c.pending missing)

pub Tracked-written : (n : ℕ) (e : Option Text) (c : Client) → Tracked c → Tracked (written n e c)
unfolding written remove_call
Tracked-written n none c t = record { numbers = t.numbers; kept = t.kept }
Tracked-written n (some e) c t = elim (Option-cases (lookup n c.pending)) [
  | inl missing ↦
      rw (missing, written)
        (record {
          numbers = Numbers-delete n t.numbers;
          kept = λ h lt. rw (removed_none n c missing) (t.kept h lt);
        })
  | inr (k, found) ↦
      rw (found, written)
        (record {
          numbers =
              Numbers-ext (λ h. (c.calls h).seq) _ (λ h. ground arith) (Numbers-delete n t.numbers);
          kept = λ h lt. elim (Bool-cases (k == h)) [
            | inl same ↦ inl (ground arith)
            | inr other ↦ elim (kept-removed n k h c t found (ground arith) (t.kept h lt)) [
              | inl fin ↦ inl (ground arith)
              | inr rest ↦ inr rest
            ]
          ];
        })
]

pub Tracked-on_header :
    (n : ℕ) (e : Text) (c : Client) → c.receiver ≡ at_header → Tracked c → Tracked (on_header n e c)
unfolding on_header remove_call
Tracked-on_header n e c ready t = elim (Option-cases (lookup n c.pending)) [
  | inl missing ↦
      rw (missing, on_header)
        (record {
          numbers = Numbers-delete n t.numbers;
          kept = λ h lt. rw (removed_none n c missing) (ground (arith, t.kept h lt));
        })
  | inr (k, found) ↦
      rw (found, on_header)
        (record {
          numbers = Numbers-delete n t.numbers;
          kept = λ h lt. elim (Bool-cases (k == h)) [
            | inl same ↦ inr (inr (inr (e, ground arith)))
            | inr other ↦ elim (kept-removed n k h c t found (ground arith) (t.kept h lt)) [
              | inl fin ↦ inl fin
              | inr (inl gone) ↦ inr (inl gone)
              | inr (inr (inl (there, live))) ↦ inr (inr (inl (there, refl)))
              | inr (inr (inr (u, answer))) ↦ absurd (ground arith)
            ]
          ];
        })
]

-- The loop changes its place, with no call in hand before or after.
pub Tracked-free :
    (r : Receiver) (c : Client)
    → ((h : ℕ) (t : Text) → c.receiver ≢ answering h t)
    → is_over r ≡ false
    → Tracked c
    → Tracked (record c { receiver = r })
Tracked-free r c idle live t = record {
  numbers = t.numbers;
  kept = λ h lt. elim (t.kept h lt) [
    | inl fin ↦ inl fin
    | inr (inl gone) ↦ inr (inl gone)
    | inr (inr (inl (there, was))) ↦ inr (inr (inl (there, live)))
    | inr (inr (inr (u, answer))) ↦ absurd (idle h u answer)
  ];
}
