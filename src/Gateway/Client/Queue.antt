-- ===== src/Gateway/Client/Queue.antt =====
-- The send channel is a bounded queue between the senders and the write pump.
use mathlib.Core.List.{append-nil, append_assoc}
use go_im_system.Prelude.{
  subst, Bool-cases, ◌&&◌, ◌≡◌, refl, sym, ap, ◌∙◌, Bool, true, false, List, [], ◌∷◌, ◌++◌, inl,
  inr, ◌⊎◌, arith,
}
use go_im_system.Gateway.Client.{
  Client, Frame, Action, send, pump, shut, act, acts, send_message, pump_round, close,
}

-- The frames that the actions send, in order.
abbrev pub sent : List Action → List Frame
sent [] = []
sent (send _ m ∷ rest) = m ∷ sent rest
sent (pump _ _ ∷ rest) = sent rest
sent (shut ∷ rest) = sent rest

-- All that the client has taken on, oldest first.
abbrev pub taken : Client → List Frame
taken c = c.written ++ c.send_chan

abbrev sent_by : Action → List Frame
sent_by a = sent (a ∷ [])

-- Some elements of the second list are left out.
pub data Subseq : List Frame → List Frame → Type 0 where
  done : Subseq [] []
  both : {xs ys : List Frame} (m : Frame) → Subseq xs ys → Subseq (m ∷ xs) (m ∷ ys)
  skip : {xs ys : List Frame} (m : Frame) → Subseq xs ys → Subseq xs (m ∷ ys)

Subseq-refl : (xs : List Frame) → Subseq xs xs
Subseq-refl [] = done
Subseq-refl (m ∷ xs) = both m (Subseq-refl xs)

Subseq-trans : {xs ys zs : List Frame} → Subseq xs ys → Subseq ys zs → Subseq xs zs
Subseq-trans s done = s
Subseq-trans s (skip m t) = skip m (Subseq-trans s t)
Subseq-trans (both k s) (both m t) = both k (Subseq-trans s t)
Subseq-trans (skip k s) (both m t) = skip k (Subseq-trans s t)

Subseq-append_left :
    (xs : List Frame) {ys zs : List Frame} → Subseq ys zs → Subseq (xs ++ ys) (xs ++ zs)
Subseq-append_left [] s = s
Subseq-append_left (m ∷ xs) s = both m (Subseq-append_left xs s)

Subseq-append_right :
    {xs ys : List Frame} (zs : List Frame) → Subseq xs ys → Subseq (xs ++ zs) (ys ++ zs)
Subseq-append_right zs done = Subseq-refl zs
Subseq-append_right zs (both m s) = both m (Subseq-append_right zs s)
Subseq-append_right zs (skip m s) = skip m (Subseq-append_right zs s)

Subseq-nothing : (xs ys : List Frame) → Subseq xs (xs ++ ys)
Subseq-nothing [] [] = done
Subseq-nothing [] (y ∷ ys) = skip y (Subseq-nothing [] ys)
Subseq-nothing (x ∷ xs) ys = both x (Subseq-nothing xs ys)

pump-open :
    (k ok : Bool) (q : List Frame) (c : Client)
    → c.send_chan ≡ q
    → (pump_round k ok c).closed ≡ false
    → (c.closed ≡ false) × (taken (pump_round k ok c) ≡ taken c)
unfolding pump_round
pump-open k ok [] c e h = (ground arith, ground arith)
pump-open k ok (m ∷ rest) c e h =
    (ground arith, ground (arith, append_assoc c.written (m ∷ []) rest))

-- A client that is open after an action was open before it, and has taken on what the action sent.
act-open :
    (a : Action) (c : Client)
    → (act a c).closed ≡ false
    → (c.closed ≡ false) × (taken (act a c) ≡ taken c ++ sent_by a)
unfolding act
act-open (send k m) c h =
    (ground arith, ground (arith, append_assoc c.written c.send_chan (m ∷ [])))
act-open (pump k ok) c h =
    let (was, same) = pump-open k ok c.send_chan c refl h in
    (was, same ∙ sym (append-nil (taken c)))
act-open shut c h = (ground arith, ground arith)

pump_taken :
    (k ok : Bool) (q : List Frame) (c : Client)
    → c.send_chan ≡ q
    → (taken (pump_round k ok c) ≡ taken c)
      ⊎ ((m : Frame) × (rest : List Frame) × (c.send_chan ≡ m ∷ rest)
          × (taken (pump_round k ok c) ≡ c.written ++ rest))
unfolding pump_round
pump_taken k ok [] c e = inl (ground arith)
pump_taken k true (m ∷ rest) c e = inl (ground (arith, append_assoc c.written (m ∷ []) rest))
pump_taken k false (m ∷ rest) c e = elim (Bool-cases c.writing) [
  | inr quiet ↦ inl (ground arith)
  | inl busy ↦ elim (Bool-cases (c.closed && k)) [
    | inl stops ↦ inl (ground arith)
    | inr writes ↦ inr (m, rest, e, ground arith)
  ]
]

pump-Subseq : (k ok : Bool) (c : Client) → Subseq (taken (pump_round k ok c)) (taken c)
pump-Subseq k ok c = elim (pump_taken k ok c.send_chan c refl) [
  | inl same ↦ rw same (Subseq-refl (taken c))
  | inr (m, rest, e, lost) ↦ rw lost (
      subst (λ q. Subseq (c.written ++ rest) (c.written ++ q)) (sym e)
        (Subseq-append_left c.written (skip m (Subseq-refl rest))))
]

send_taken :
    (k : Bool) (m : Frame) (c : Client)
    → (taken (send_message k m c) ≡ taken c) ⊎ (taken (send_message k m c) ≡ taken c ++ m ∷ [])
unfolding send_message
send_taken k m c = ground (arith, append_assoc c.written c.send_chan (m ∷ []))

shut_taken : (c : Client) → taken (close c) ≡ taken c
unfolding close
shut_taken c = ground arith

act-Subseq : (a : Action) (c : Client) → Subseq (taken (act a c)) (taken c ++ sent_by a)
unfolding act
act-Subseq (send k m) c = elim (send_taken k m c) [
  | inl same ↦ rw same (Subseq-nothing (taken c) (m ∷ []))
  | inr more ↦ rw more (Subseq-refl _)
]
act-Subseq (pump k ok) c = rw (append-nil (taken c)) (pump-Subseq k ok c)
act-Subseq shut c = rw (append-nil (taken c), shut_taken c) (Subseq-refl (taken c))

sent-cons : (a : Action) (as' : List Action) → sent (a ∷ as') ≡ sent_by a ++ sent as'
sent-cons (send k m) as' = refl
sent-cons (pump k ok) as' = refl
sent-cons shut as' = refl

still_open : (as' : List Action) (c : Client) → (acts as' c).closed ≡ false → c.closed ≡ false
unfolding acts
still_open [] c h = h
still_open (a ∷ as') c h = (act-open a c (still_open as' (act a c) h)).0

-- A client that is open after a run of sends, write rounds and closings, in any order, has lost
-- nothing: what is written, then what is queued, is what was so before the run and then all
-- frames that were sent, in order.
pub acts-open :
    (as' : List Action) (c : Client)
    → (acts as' c).closed ≡ false
    → taken (acts as' c) ≡ taken c ++ sent as'
unfolding acts
acts-open [] c h = sym (append-nil (taken c))
acts-open (a ∷ as') c h =
    let later = acts-open as' (act a c) h in
    let (_, now) = act-open a c (still_open as' (act a c) h) in
    later
    ∙ ap (λ x. x ++ sent as') now
    ∙ append_assoc (taken c) (sent_by a) (sent as')
    ∙ ap (◌++◌ (taken c)) (sym (sent-cons a as'))

-- Whatever happens to a connection, what is written and queued is a subsequence of what was so
-- before and then the frames that were sent: none is doubled, and none overtakes another.
pub acts-Subseq :
    (as' : List Action) (c : Client) → Subseq (taken (acts as' c)) (taken c ++ sent as')
unfolding acts
acts-Subseq [] c = rw (append-nil (taken c)) (Subseq-refl (taken c))
acts-Subseq (a ∷ as') c =
    rw (sent-cons a as', ← append_assoc (taken c) (sent_by a) (sent as'))
      (Subseq-trans (acts-Subseq as' (act a c)) (Subseq-append_right (sent as') (act-Subseq a c)))
