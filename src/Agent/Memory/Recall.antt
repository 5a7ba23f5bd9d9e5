-- ===== src/Agent/Memory/Recall.antt =====
-- What a session recalls.
use go_im_system.Prelude.{
  ℕ, zero, suc, ◌+◌, ◌-◌, ◌≤◌, ◌<◌, ◌≡◌, refl, sym, ap, ◌∙◌, false, List, [], ◌∷◌, ◌++◌, some, map,
  drop, length, length-append, length-drop, arith,
}
use mathlib.Core.List.{append-nil, append_assoc}
use go_im_system.Agent.Memory.{
  none, leb, Exec, answered, broken_at, expired_at, ltrim, rpush, MessageJson, Session, kept,
  latest, append, live, decode_all, get_messages,
}

module _ {ℓ} {A : Type ℓ} where
  drop-snoc :
      (n : ℕ) (xs : List A) (x : A) → n ≤ length xs → drop n (xs ++ x ∷ []) ≡ drop n xs ++ x ∷ []
  drop-snoc zero xs x h = refl
  drop-snoc (suc n) [] x h = ground arith
  drop-snoc (suc n) (y ∷ xs) x h = drop-snoc n xs x (omega arith)

  drop-nothing : (n : ℕ) → drop {A = A} n [] ≡ []
  drop-nothing zero = refl
  drop-nothing (suc n) = refl

  drop-drop : (a b : ℕ) (xs : List A) → drop a (drop b xs) ≡ drop (b + a) xs
  drop-drop a zero xs = ap (λ n. drop n xs) (omega arith)
  drop-drop a (suc b) [] = drop-nothing a ∙ sym (drop-nothing (suc b + a))
  drop-drop a (suc b) (x ∷ xs) =
      let next : suc b + a ≡ suc (b + a) = omega arith in
      drop-drop a b xs ∙ ap (λ n. drop n (x ∷ xs)) (sym next)

  latest-latest : (xs : List A) (x : A) → latest (latest xs ++ x ∷ []) ≡ latest (xs ++ x ∷ [])
  latest-latest xs x =
      let n = length xs - kept in
      let front = drop-snoc n xs x (omega arith) in
      let short = length-append (drop n xs) (x ∷ []) in
      let cut = length-drop n xs in
      let whole = length-append xs (x ∷ []) in
      let same : n + (length (drop n xs ++ x ∷ []) - kept) ≡ length (xs ++ x ∷ []) - kept =
        omega (arith, short, cut, whole) in
      ap (drop (length (drop n xs ++ x ∷ []) - kept)) (sym front)
      ∙ drop-drop (length (drop n xs ++ x ∷ []) - kept) n (xs ++ x ∷ [])
      ∙ ap (λ k. drop k (xs ++ x ∷ [])) same

latest_idem : {A : Type 0} (xs : List A) → latest (latest xs) ≡ latest xs
latest_idem xs =
    let n = length xs - kept in
    let cut = length-drop n xs in
    drop-drop (length (drop n xs) - kept) n xs ∙ ap (λ k. drop k xs) (omega (arith, cut))

drop-map : {A B : Type 0} (f : A → B) (n : ℕ) (xs : List A) → drop n (map f xs) ≡ map f (drop n xs)
drop-map f zero xs = refl
drop-map f (suc n) [] = refl
drop-map f (suc n) (x ∷ xs) = drop-map f n xs

length-map : {A B : Type 0} (f : A → B) (xs : List A) → length (map f xs) ≡ length xs
length-map f [] = refl
length-map f (x ∷ xs) = ap suc (length-map f xs)

map-snoc :
    {A B : Type 0} (f : A → B) (xs : List A) (x : A) → map f xs ++ f x ∷ [] ≡ map f (xs ++ x ∷ [])
map-snoc f [] x = refl
map-snoc f (y ∷ xs) x = ap (◌∷◌ (f y)) (map-snoc f xs x)

module _ (j : MessageJson) where
  open j use {Message, Data, encode, decode-encode}

  -- A message that is appended at a time, and what becomes of the pipeline.
  abbrev pub Append : Type 0
  Append = Exec × ℕ × Message

  unfoldable pub append_all : ℕ → List Append → Session Data → Session Data
  append_all ttl [] s = s
  append_all ttl ((x, now, m) ∷ later) s = append_all ttl later (append x ttl now (encode m) s).1

  -- The session is not found expired, at any of the times and at `last`.
  unfoldable pub InTime : ℕ → List Append → ℕ → Session Data → Type 0
  InTime ttl [] last s = expired_at last s.expires ≡ false
  InTime ttl ((x, now, m) ∷ later) last s =
      (expired_at now s.expires ≡ false) × InTime ttl later last (append x ttl now (encode m) s).1

  abbrev joins : Exec → Message → List Message → List Message
  joins answered m ms = m ∷ ms
  joins (broken_at zero) m ms = ms
  joins (broken_at (suc n)) m ms = m ∷ ms

  -- The messages that reached Redis.
  abbrev pub pushed : List Append → List Message
  pushed [] = []
  pushed ((x, now, m) ∷ later) = let rest = pushed later in joins x m rest

  decode-map : (ms : List Message) → decode_all j (map encode ms) ≡ ms
  unfolding decode_all
  decode-map [] = refl
  decode-map (m ∷ ms) = rw (decode-encode m) (ap (◌∷◌ m) (decode-map ms))

  latest-map : (ms : List Message) → latest (map encode ms) ≡ map encode (latest ms)
  latest-map ms =
      ap (λ k. drop (k - kept) (map encode ms)) (length-map encode ms)
      ∙ drop-map encode (length ms - kept) ms

  live_lem : (now : ℕ) (s : Session Data) → expired_at now s.expires ≡ false → live now s ≡ s
  live_lem now s before = rw before refl

  -- The session's latest messages are those of the past.
  abbrev Holds : List Message → Session Data → Type 0
  Holds past s = latest s.items ≡ map encode (latest past)

  Holds-rpush :
      (past : List Message) (m : Message) (s : Session Data)
      → Holds past s
      → Holds (past ++ m ∷ []) (rpush (encode m) s)
  Holds-rpush past m s h =
      sym (latest-latest s.items (encode m))
      ∙ ap (λ ds. latest (ds ++ encode m ∷ [])) h
      ∙ ap latest (map-snoc encode (latest past) m)
      ∙ latest-map (latest past ++ m ∷ [])
      ∙ ap (map encode) (latest-latest past m)

  Holds-ltrim : (past : List Message) (s : Session Data) → Holds past s → Holds past (ltrim s)
  Holds-ltrim past s h = latest_idem s.items ∙ h

  Holds-append :
      (x : Exec) (ttl now : ℕ) (past : List Message) (m : Message) (s : Session Data)
      → expired_at now s.expires ≡ false
      → Holds past s
      → Holds (past ++ joins x m []) (append x ttl now (encode m) s).1
  unfolding append
  Holds-append answered ttl now past m s before h =
      rw (live_lem now s before)
        (Holds-ltrim (past ++ m ∷ []) (rpush (encode m) s) (Holds-rpush past m s h))
  Holds-append (broken_at zero) ttl now past m s before h =
      rw (live_lem now s before) (h ∙ ap (λ ms. map encode (latest ms)) (sym (append-nil past)))
  Holds-append (broken_at (suc zero)) ttl now past m s before h =
      rw (live_lem now s before) (Holds-rpush past m s h)
  Holds-append (broken_at (suc (suc zero))) ttl now past m s before h =
      rw (live_lem now s before)
        (Holds-ltrim (past ++ m ∷ []) (rpush (encode m) s) (Holds-rpush past m s h))
  Holds-append (broken_at (suc (suc (suc n)))) ttl now past m s before h =
      rw (live_lem now s before)
        (Holds-ltrim (past ++ m ∷ []) (rpush (encode m) s) (Holds-rpush past m s h))

  joined : (x : Exec) (m : Message) (ms : List Message) → joins x m [] ++ ms ≡ joins x m ms
  joined answered m ms = refl
  joined (broken_at zero) m ms = refl
  joined (broken_at (suc n)) m ms = refl

  Holds-append_all :
      (ttl last : ℕ) (past : List Message) (later : List Append) (s : Session Data)
      → InTime ttl later last s
      → Holds past s
      → let s' = append_all ttl later s in
        Holds (past ++ pushed later) s' × (expired_at last s'.expires ≡ false)
  unfolding append_all InTime
  Holds-append_all ttl last past [] s soon h =
      (h ∙ ap (λ ms. map encode (latest ms)) (sym (append-nil past)), soon)
  Holds-append_all ttl last past ((x, now, m) ∷ later) s (before, soon) h =
      let (held, open_still) =
        Holds-append_all ttl last (past ++ joins x m []) later (append x ttl now (encode m) s).1
          soon (Holds-append x ttl now past m s before h) in
      let same : (past ++ joins x m []) ++ pushed later ≡ past ++ joins x m (pushed later) =
        append_assoc past (joins x m []) (pushed later)
        ∙ ap (λ ms. past ++ ms) (joined x m (pushed later)) in
      (held ∙ ap (λ ms. map encode (latest ms)) same, open_still)

  -- One more message, whose pipeline is answered, joins the latest ones of the past.
  pub append-get_messages :
      (ttl now asked : ℕ) (past : List Message) (m : Message) (s : Session Data)
      → Holds past s
      → expired_at now s.expires ≡ false
      → asked < now + ttl
      → get_messages j false asked (append answered ttl now (encode m) s).1
        ≡ some (latest (past ++ m ∷ []))
  unfolding get_messages append
  append-get_messages ttl now asked past m s h before soon =
      let read : decode_all j (latest (s.items ++ encode m ∷ [])) ≡ latest (past ++ m ∷ []) =
        ap (decode_all j) (Holds-rpush past m s h) ∙ decode-map (latest (past ++ m ∷ [])) in
      let unexpired : leb (now + ttl) asked ≡ false = ground (arith, soon) in
      rw (live_lem now s before, unexpired, read) refl

  -- Messages are appended to an empty session one after another, where any pipeline may break
  -- before, between or after its three commands, and no message finds the session expired.
  -- Then one more is appended, whose pipeline is answered, and the session is read before it
  -- expires and without an error: what is read are the latest 20, oldest first, of the
  -- messages whose RPUSH was run, this last one at their end.
  pub append_all-get_messages :
      (ttl now asked : ℕ) (earlier : List Append) (m : Message)
      → let s = append_all ttl earlier (record { items = []; expires = none }) in
        InTime ttl earlier now (record { items = []; expires = none })
        → asked < now + ttl
        → get_messages j false asked (append answered ttl now (encode m) s).1
          ≡ some (latest (pushed earlier ++ m ∷ []))
  append_all-get_messages ttl now asked earlier m in_time soon =
      let (held, open_still) =
        Holds-append_all ttl now [] earlier (record { items = []; expires = none }) in_time refl in
      append-get_messages ttl now asked (pushed earlier) m
        (append_all ttl earlier (record { items = []; expires = none })) held open_still soon
