-- ===== src/Snowflake/Returns.antt =====
-- `Generate` returns as soon as the clock shows a time later than the last id's.
use go_im_system.Snowflake.Order.{wait_past_outcome}
use go_im_system.Prelude.{
  ltb, Bool-cases, ℕ, ◌<◌, ◌≡◌, ◌⊎◌, ◌≢◌, inl, inr, none, some, List, [], ◌∷◌, In, arith,
}
use go_im_system.Snowflake.{Snowflake, wait_past, settle, advance, generate}

wait_past_now :
    (last current : ℕ) (cs : List ℕ)
    → last < current
    → wait_past last current cs ≡ some (current, cs)
unfolding wait_past
wait_past_now last current [] h = ground arith
wait_past_now last current (c ∷ cs) h = ground arith

wait_past_returns :
    (last current t : ℕ) (cs : List ℕ) → In t cs → last < t → wait_past last current cs ≢ none
unfolding wait_past
wait_past_returns last current t [] i h = elim i [ ]
wait_past_returns last current t (c ∷ cs) (inl e) h = ground (arith, wait_past_now last c cs)
wait_past_returns last current t (c ∷ cs) (inr i) h =
    ground (arith, wait_past_returns last c t cs i h)

later_In : (c t : ℕ) (cs : List ℕ) → In t (c ∷ cs) → c < t → In t cs
later_In c t cs (inl e) h = absurd (omega arith)
later_In c t cs (inr i) h = i

advance_returns :
    (s : Snowflake) (current t : ℕ) (cs : List ℕ)
    → (s.last_timestamp < current) ⊎ In t cs
    → s.last_timestamp < t
    → advance s current cs ≢ none
unfolding advance
advance_returns s current t cs i h = ground (arith, wait_past_returns s.last_timestamp current t cs)

settle_returns :
    (last current t : ℕ) (cs : List ℕ)
    → In t (current ∷ cs)
    → last < t
    → (c : ℕ) × (rest : List ℕ) × (settle last current cs ≡ some (c, rest))
      × ((last < c) ⊎ In t rest)
unfolding settle
settle_returns last current t cs i h = elim (Bool-cases (ltb current last)) [
  | inl back ↦ elim (wait_past_outcome last current cs) [
    | inl stuck ↦
        absurd
          (wait_past_returns last current t cs (later_In current t cs i (ground arith)) h stuck)
    | inr (c, rest, e, lt) ↦ (c, rest, rw back e, inl lt)
  ]
  | inr fwd ↦ (current, cs, rw fwd, reached i)
]
  where
    reached : In t (current ∷ cs) → (last < current) ⊎ In t cs
    reached (inl e) = inl (rw (← e) h)
    reached (inr j) = inr j

-- A call returns if some clock reading from its start on is later than the last id's time: the
-- waits end, in every state of the generator.
pub generate_returns :
    (s : Snowflake) (t : ℕ) (cs : List ℕ) → In t cs → s.last_timestamp < t → generate s cs ≢ none
unfolding generate
generate_returns s t [] i h = elim i [ ]
generate_returns s t (c ∷ cs) i h =
    let (current, rest, settled, reached) = settle_returns s.last_timestamp c t cs i h in
    rw (settled, generate) (advance_returns s current t rest reached h)
