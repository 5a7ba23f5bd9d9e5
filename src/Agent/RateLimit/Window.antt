-- ===== src/Agent/RateLimit/Window.antt =====
-- The limiter against a record of all admitted calls.
use go_im_system.Prelude.{
  ◌-◌, ◌^◌, leb→le, All-map, All-append, ℕ, ◌+◌, ◌≤◌, ◌<◌, ◌≡◌, refl, sym, ap, ◌∙◌, Bool, true,
  false, leb, ltb, List, [], ◌∷◌, ◌++◌, keep, length, if◌then◌else◌, arith, inl, inr, Bool-cases,
  All,
}
use go_im_system.Agent.RateLimit.{
  Doubles, SortedSet, minute, limit, zadd, is_recent, check_rate_limit,
}

module _ (d : Doubles) where
  -- The calls at the given times, one after another: their answers.
  unfoldable pub answers : List ℕ → SortedSet → List Bool
  answers [] z = []
  answers (now ∷ later) z =
      (check_rate_limit d now z).0 ∷ answers later (check_rate_limit d now z).1

  -- What is promised, from the times of the calls admitted so far: a call goes on if fewer than five
  -- were admitted in the minute before it.
  abbrev pub promised : ℕ → List ℕ → Bool
  promised now admitted = ltb (length (keep (is_recent d now) admitted)) limit

  unfoldable pub promises : List ℕ → List ℕ → List Bool
  promises [] admitted = []
  promises (now ∷ later) admitted =
      promised now admitted
      ∷ promises later (if promised now admitted then admitted ++ now ∷ [] else admitted)

  -- Times that rise from `t` on and stay below 2 ^ 61, which is in the year 2043.
  abbrev pub Rising : ℕ → List ℕ → Type 0
  Rising t [] = Unit
  Rising t (now ∷ later) = (t < now) × (now < 2 ^ 61) × Rising now later

  -- After a call at `t` the set holds the recent ones of the admitted calls, none later than `t`.
  abbrev Tracks : ℕ → List ℕ → SortedSet → Type 0
  Tracks t admitted z =
      (z.members ≡ keep (is_recent d t) admitted)
      × All (λ s. s ≤ t) admitted
      × All (λ s. s + minute ≤ z.expires) admitted

  -- What is recent later was recent before.
  still_recent : (t now s : ℕ) → t ≤ now → is_recent d now s ≡ true → is_recent d t s ≡ true
  still_recent t now s le h =
      ground (arith, d.double-rises (t - minute) (now - minute) (omega arith))

  expired_lem : (e now s : ℕ) → s + minute ≤ e → e ≤ now → is_recent d now s ≡ false
  expired_lem e now s old le = ground (arith, d.double-rises s (now - minute) (omega arith))

  -- A call is recent for itself.
  now_recent : (now : ℕ) → now < 2 ^ 61 → is_recent d now now ≡ true
  now_recent now h =
      ground (arith, d.double-near now h, d.double-near (now - minute) (omega (arith, h)))

  keep-recent :
      (t now : ℕ) (xs : List ℕ)
      → t ≤ now
      → keep (is_recent d now) (keep (is_recent d t) xs) ≡ keep (is_recent d now) xs
  keep-recent t now [] le = refl
  keep-recent t now (s ∷ xs) le = ground (arith, keep-recent t now xs le, still_recent t now s le)

  keep-expired :
      (e now : ℕ) (xs : List ℕ)
      → All (λ s. s + minute ≤ e) xs
      → e ≤ now
      → keep (is_recent d now) xs ≡ []
  keep-expired e now [] old le = refl
  keep-expired e now (s ∷ xs) (h, old) le =
      ground (arith, keep-expired e now xs old le, expired_lem e now s h le)

  keep-snoc :
      (p : ℕ → Bool) (xs : List ℕ) (s : ℕ)
      → p s ≡ true
      → keep p (xs ++ s ∷ []) ≡ keep p xs ++ s ∷ []
  keep-snoc p [] s h = ground arith
  keep-snoc p (x ∷ xs) s h = ground (arith, keep-snoc p xs s h)

  zadd-new : (s : ℕ) (xs : List ℕ) → All (λ x. x < s) xs → zadd s xs ≡ xs ++ s ∷ []
  zadd-new s [] h = refl
  zadd-new s (x ∷ xs) (h, hs) = ground (arith, zadd-new s xs hs)

  All-keep : (P : ℕ → Type 0) (p : ℕ → Bool) (xs : List ℕ) → All P xs → All P (keep p xs)
  All-keep P p [] h = tt
  All-keep P p (x ∷ xs) (h, hs) = elim (Bool-cases (p x)) [
    | inl kept ↦ rw kept (h, All-keep P p xs hs)
    | inr gone ↦ rw gone (All-keep P p xs hs)
  ]

  recent_lem :
      (t now : ℕ) (admitted : List ℕ) (z : SortedSet)
      → Tracks t admitted z
      → t < now
      → keep (is_recent d now) (if leb z.expires now then [] else z.members)
        ≡ keep (is_recent d now) admitted
  recent_lem t now admitted z (members, past, expiry) later =
      elim (Bool-cases (leb z.expires now)) [
        | inl expired ↦
            rw expired
              (sym (keep-expired z.expires now admitted expiry (leb→le z.expires now expired)))
        | inr there ↦ rw (there, members) (keep-recent t now admitted (omega arith))
      ]

  -- A call goes on as promised, and the set goes on holding the recent calls.
  call_lem :
      (t now : ℕ) (admitted : List ℕ) (z : SortedSet)
      → Tracks t admitted z
      → t < now
      → now < 2 ^ 61
      → ((check_rate_limit d now z).0 ≡ promised now admitted)
        × Tracks now
            (if promised now admitted then admitted ++ now ∷ [] else admitted)
            (check_rate_limit d now z).1
  unfolding check_rate_limit
  call_lem t now admitted z (members, past, expiry) later soon =
      let recent = keep (is_recent d now) admitted in
      let before = All-map (λ s. s ≤ t) (λ s. s < now) (λ s h. omega arith) admitted past in
      let older = All-map (λ s. s < now) (λ s. s ≤ now) (λ s h. omega arith) admitted before in
      rw (recent_lem t now admitted z (members, past, expiry) later)
        (elim (Bool-cases (leb limit (length recent))) [
          | inl over ↦
              let refused : promised now admitted ≡ false = ground arith in
              rw (over, refused) (refl, (refl, older, expiry))
          | inr under ↦
              let goes_on : promised now admitted ≡ true = ground arith in
              let added =
                zadd-new now recent (All-keep (λ s. s < now) (is_recent d now) admitted before)
                ∙ sym (keep-snoc (is_recent d now) admitted now (now_recent now soon)) in
              rw (under, goes_on)
                (
                  refl,
                  (
                    added,
                    All-append (λ s. s ≤ now) admitted (now ∷ []) older (omega arith, tt),
                    All-append (λ s. s + minute ≤ now + minute) admitted (now ∷ [])
                        (All-map (λ s. s ≤ now) (λ s. s + minute ≤ now + minute)
                          (λ s h. omega arith) admitted older)
                        (omega arith, tt),
                  ),
                )
        ])

  tracked :
      (t : ℕ) (calls admitted : List ℕ) (z : SortedSet)
      → Tracks t admitted z
      → Rising t calls
      → answers calls z ≡ promises calls admitted
  unfolding answers promises
  tracked t [] admitted z holds rising = refl
  tracked t (now ∷ later) admitted z holds (after, soon, rising) =
      let (same, next) = call_lem t now admitted z holds after soon in
      let rest = tracked now later _ (check_rate_limit d now z).1 next rising in
      ap (λ b. b ∷ answers later (check_rate_limit d now z).1) same
      ∙ ap (λ bs. promised now admitted ∷ bs) rest

  -- The window in exact nanoseconds, narrower or wider by the steps of two doubles.
  abbrev pub within : ℕ → ℕ → Bool
  within now s = ltb (now + 256) (s + minute)

  abbrev pub nearly : ℕ → ℕ → Bool
  nearly now s = ltb now (s + minute + 256)

  within-recent :
      (now s : ℕ) → now < 2 ^ 61 → s ≤ now → within now s ≡ true → is_recent d now s ≡ true
  within-recent now s soon past h = ground (
    arith,
    d.double-near s (omega (arith, soon, past)),
    d.double-near (now - minute) (omega (arith, soon)),
  )

  recent-nearly :
      (now s : ℕ) → now < 2 ^ 61 → s ≤ now → is_recent d now s ≡ true → nearly now s ≡ true
  recent-nearly now s soon past h = ground (
    arith,
    d.double-near s (omega (arith, soon, past)),
    d.double-near (now - minute) (omega (arith, soon)),
  )

  counts-near :
      (now : ℕ) (xs : List ℕ)
      → now < 2 ^ 61
      → All (λ s. s ≤ now) xs
      → (length (keep (within now) xs) ≤ length (keep (is_recent d now) xs))
        × (length (keep (is_recent d now) xs) ≤ length (keep (nearly now) xs))
  counts-near now [] soon past = (omega arith, omega arith)
  counts-near now (s ∷ xs) soon (h, past) =
      ground (
        arith,
        counts-near now xs soon past,
        within-recent now s soon h,
        recent-nearly now s soon h,
      )

  -- Redis reads times, in nanoseconds, as doubles, which keep their order and below 2 ^ 61
  -- are off by at most 128. Calls of one user at times that rise and stay below 2 ^ 61 are
  -- answered as a record of all admitted calls says, whatever has expired or been trimmed in
  -- Redis: a call goes on if fewer than five of them were admitted in the minute before it,
  -- by their doubles. For any time below 2 ^ 61 and any times up to it, those in this minute
  -- are at least as many as those in the exact minute less 256 ns, and at most as many as
  -- those in it and 256 ns more.
  pub answers-promises :
      (t : ℕ) (calls : List ℕ) (now : ℕ) (xs : List ℕ)
      → Rising t calls
      → now < 2 ^ 61
      → All (λ s. s ≤ now) xs
      → (answers calls (record { members = []; expires = 0 }) ≡ promises calls [])
        × (length (keep (within now) xs) ≤ length (keep (is_recent d now) xs))
        × (length (keep (is_recent d now) xs) ≤ length (keep (nearly now) xs))
  answers-promises t calls now xs rising soon past = (
    tracked t calls [] (record { members = []; expires = 0 }) (refl, tt, tt) rising,
    (counts-near now xs soon past).0,
    (counts-near now xs soon past).1,
  )
