-- ===== src/Agent/Memory.antt =====
-- apps/agent/memory/memory.go: the messages of a session in Redis. A message and its text are what
-- `encoding/json` makes of them. Times are in nanoseconds.
use go_im_system.Prelude.{
  ℕ, zero, suc, ◌+◌, ◌-◌, ◌≡◌, Bool, true, false, leb, List, [], ◌∷◌, ◌++◌, Option, none, some,
  drop, length, if◌then◌else◌,
}
pub mod Recall

-- A message read from its text is the one that was written; other texts may not be messages.
pub record MessageJson : Type 1 where
  pub Message : Type 0
  pub Data : Type 0
  pub encode : Message → Data
  pub decode : Data → Option Message
  pub decode-encode : (m : Message) → decode (encode m) ≡ some m

-- The Redis list under a session's key, and when it expires, if it does.
pub record Session (D : Type 0) : Type 0 where
  pub items : List D
  pub expires : Option ℕ

-- What becomes of a pipeline's three commands: all are run and answered, or the connection breaks after
-- none, one, two or three of them.
pub data Exec : Type 0 where
  answered : Exec
  broken_at : ℕ → Exec

abbrev pub kept : ℕ
kept = 20

-- `LTRIM -20 -1`.
abbrev pub latest {ℓ} : {A : Type ℓ} → List A → List A
latest xs = drop (length xs - kept) xs

abbrev pub expired_at : ℕ → Option ℕ → Bool
expired_at now none = false
expired_at now (some e) = leb e now

module _ {D : Type 0} where
  -- An expired key is a missing one.
  abbrev pub live : ℕ → Session D → Session D
  live now s = if expired_at now s.expires then record { items = []; expires = none } else s

  abbrev pub rpush : D → Session D → Session D
  rpush d s = record s { items = s.items ++ d ∷ [] }

  abbrev pub ltrim : Session D → Session D
  ltrim s = record s { items = latest s.items }

  abbrev pub expire : ℕ → Session D → Session D
  expire time s = record s { expires = some time }

  -- A key that RPUSH makes does not expire before EXPIRE is run.
  abbrev run_pipe : Exec → ℕ → ℕ → D → Session D → Bool × Session D
  run_pipe answered ttl now d s = (false, expire (now + ttl) (ltrim (rpush d s)))
  run_pipe (broken_at zero) ttl now d s = (true, s)
  run_pipe (broken_at (suc zero)) ttl now d s = (true, rpush d s)
  run_pipe (broken_at (suc (suc zero))) ttl now d s = (true, ltrim (rpush d s))
  run_pipe (broken_at (suc (suc (suc n)))) ttl now d s =
      (true, expire (now + ttl) (ltrim (rpush d s)))

  unfoldable pub append : Exec → ℕ → ℕ → D → Session D → Bool × Session D
  append x ttl now d s = run_pipe x ttl now d (live now s)

module _ (j : MessageJson) where
  open j use {Message, Data, decode}

  -- Texts that are no messages are left out.
  pub decode_all : List Data → List Message
  decode_all [] = []
  decode_all (d ∷ ds) =
      let rest = decode_all ds in elim (decode d) [ none ↦ rest | some m ↦ m ∷ rest ]

  -- `none` is an error of Redis.
  unfoldable pub get_messages : Bool → ℕ → Session Data → Option (List Message)
  unfolding decode_all
  get_messages fails now s = if fails then none else some (decode_all (live now s).items)
