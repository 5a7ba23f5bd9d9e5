-- ===== src/Agent/RateLimit.antt =====
-- apps/agent/middleware/rate_limit.go: the Lua script on a user's sorted set. A member is the text of a
-- time, and its score the double that Redis reads from that text. Times are in nanoseconds, by one
-- clock. Redis runs the script as one step.
use go_im_system.Prelude.{
  ℕ, ◌-◌, ◌≤◌, ◌<◌, ◌||◌, ◌+◌, ◌*◌, ◌^◌, ◌≡◌, Bool, true, false, leb, ltb, not, ◌==◌, List, [], ◌∷◌,
  Option, none, some, keep, length, if◌then◌else◌,
}
pub mod Window

-- A key's members, with the time at which it expires.
pub record SortedSet : Type 0 where
  pub members : List ℕ
  pub expires : ℕ

-- A whole number read as a double: the order is kept, and below 2 ^ 61, where doubles are at most 2 ^ 8
-- apart, it is off by at most half of that.
pub record Doubles : Type 0 where
  pub double : ℕ → ℕ
  pub double-rises : (m n : ℕ) → m ≤ n → double m ≤ double n
  pub double-near : (n : ℕ) → n < 2 ^ 61 → (n ≤ double n + 128) × (double n ≤ n + 128)

abbrev pub minute : ℕ
minute = 60000000000

abbrev pub limit : ℕ
limit = 5

abbrev live : ℕ → SortedSet → List ℕ
live now z = if leb z.expires now then [] else z.members

-- A member that is there already is not added twice.
abbrev pub zadd : ℕ → List ℕ → List ℕ
zadd s [] = s ∷ []
zadd s (t ∷ ts) = let rest = zadd s ts in if s == t then t ∷ ts else t ∷ rest

-- `ZREMRANGEBYSCORE key 0 (now - minute)` spares it; below zero the range is empty.
module _ (d : Doubles) where
  abbrev pub is_recent : ℕ → ℕ → Bool
  is_recent now s = ltb now minute || ltb (d.double (now - minute)) (d.double s)

abbrev script : ℕ → List ℕ → ℕ → Bool × SortedSet
script now recent expires =
    if leb limit (length recent)
    then (false, record { members = recent; expires = expires })
    else (true, record { members = zadd now recent; expires = now + minute })

-- Whether the call may go on.
unfoldable pub check_rate_limit : Doubles → ℕ → SortedSet → Bool × SortedSet
check_rate_limit d now z = script now (keep (is_recent d now) (live now z)) z.expires

-- `BeforeAgent`: with an error of Redis, or over the limit, the agent does not run.
pub data Refusal : Type 0 where
  redis_error too_frequent : Refusal

abbrev verdict : Bool × SortedSet → Option Refusal × SortedSet
verdict (true, z) = (none, z)
verdict (false, z) = (some too_frequent, z)

unfoldable pub before_agent : Doubles → Bool → ℕ → SortedSet → Option Refusal × SortedSet
before_agent d redis_fails now z =
    if redis_fails then (some redis_error, z) else verdict (check_rate_limit d now z)
