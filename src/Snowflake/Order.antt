-- ===== src/Snowflake/Order.antt =====
-- The ids of one generator rise from call to call, and two generators with different node numbers
-- never make the same id.
use Prim.Native.Nat.{bit_and}
use go_im_system.Prelude.{
  ℕ, zero, suc, ◌+◌, ◌*◌, ◌%◌, ◌≤◌, ◌<◌, ◌≡◌, refl, sym, ap, subst, ◌∙◌, ◌≢◌, ◌⊎◌, inl, inr, none,
  some, List, [], ◌∷◌, length, All, In, Option-cases, arith,
}
use go_im_system.Bits.{pow2, bit_and_mask}
use go_im_system.Snowflake.{
  Snowflake, SnowflakeInfo, compose, wait_past, settle, advance, generate, generate_many,
  parse_snowflake_id,
}
use go_im_system.Snowflake.Fields.{IsValid, compose_sum, parse-compose}

-- What a finished call has done to the state.
pub record Advances (s : Snowflake) (id : ℕ) (s' : Snowflake) : Type 0 where
  pub valid : IsValid s'
  pub same_node : s'.node_id ≡ s.node_id
  pub composed : id ≡ compose s'.last_timestamp s'.node_id s'.sequence
  pub later :
      (s.last_timestamp < s'.last_timestamp)
      ⊎ ((s.last_timestamp ≡ s'.last_timestamp) × (s.sequence < s'.sequence))

wait_past-lt :
    (last current c : ℕ) (cs rest : List ℕ) → wait_past last current cs ≡ some (c, rest) → last < c
unfolding wait_past
wait_past-lt last current c [] rest e = ground arith
wait_past-lt last current c (d ∷ cs) rest e = ground (arith, wait_past-lt last d c cs rest)

pub wait_past_outcome :
    (last current : ℕ) (cs : List ℕ)
    → (wait_past last current cs ≡ none)
      ⊎ ((c : ℕ) × (rest : List ℕ) × (wait_past last current cs ≡ some (c, rest)) × (last < c))
wait_past_outcome last current cs = elim (Option-cases (wait_past last current cs)) [
  | inl e ↦ inl e
  | inr ((c, rest), e) ↦ inr (c, rest, e, wait_past-lt last current c cs rest e)
]

settle-le :
    (last current c : ℕ) (cs rest : List ℕ) → settle last current cs ≡ some (c, rest) → last ≤ c
unfolding settle
settle-le last current c cs rest e = ground (arith, wait_past-lt last current c cs rest)

next_sequence : (n : ℕ) → bit_and (n + 1) 0xFFF ≡ (n + 1) % 4096
next_sequence n = bit_and_mask 12 (n + 1)

advance-Advances :
    (s : Snowflake) (current : ℕ) (cs : List ℕ) {id : ℕ} {s' : Snowflake} {rest : List ℕ}
    → IsValid s
    → s.last_timestamp ≤ current
    → advance s current cs ≡ some (id, s', rest)
    → Advances s id s'
unfolding advance
advance-Advances s current cs v h e =
    ground (arith, next_sequence s.sequence, wait_past_outcome s.last_timestamp current cs)

pub generate-Advances :
    (s : Snowflake) (cs : List ℕ) {id : ℕ} {s' : Snowflake} {rest : List ℕ}
    → IsValid s
    → generate s cs ≡ some (id, s', rest)
    → Advances s id s'
unfolding generate
generate-Advances s [] v e = cc
generate-Advances s (c ∷ cs) v e = elim (Option-cases (settle s.last_timestamp c cs)) [
  | inl stuck ↦ ground (arith, stuck)
  | inr ((current, left), settled) ↦
      advance-Advances s current left v (settle-le _ c current cs left settled)
        (rw (settled, generate) at e)
]

-- The number that orders the states of a generator: its last id, while the time fits 41 bits.
abbrev pub stamp : Snowflake → ℕ
stamp s = s.last_timestamp * 4194304 + s.node_id * 4096 + s.sequence

-- Each element is above the one before it, and the first above `b`.
abbrev pub Ascending : ℕ → List ℕ → Type 0
Ascending b [] = Unit {0}
Ascending b (x ∷ xs) = (b < x) × Ascending x xs

Advances-stamp :
    (s : Snowflake) (id : ℕ) (s' : Snowflake)
    → IsValid s
    → Advances s id s'
    → s'.last_timestamp < pow2 41
    → (id ≡ stamp s') × (stamp s < stamp s')
Advances-stamp s id s' v a h =
    let sum =
      compose_sum s'.last_timestamp s'.node_id s'.sequence h a.valid.node_fits
        a.valid.sequence_fits in
    (a.composed ∙ sum, ground (arith, a.later, a.same_node))

-- A run of `n + 1` calls is one call and a run of `n`.
generate_many-suc :
    (n : ℕ) (s : Snowflake) (cs : List ℕ) (ids : List ℕ) (t : Snowflake) (rest : List ℕ)
    → generate_many (suc n) s cs ≡ some (ids, t, rest)
    → (id : ℕ) × (s' : Snowflake) × (left : List ℕ) × (ids' : List ℕ) × (generate s cs
        ≡ some (id, s', left))
      × (generate_many n s' left ≡ some (ids', t, rest))
      × (ids ≡ id ∷ ids')
unfolding generate_many
generate_many-suc n s cs ids t rest e = elim (Option-cases (generate s cs)) [
  | inl none_left ↦ ground (arith, none_left)
  | inr ((id, s', left), first) ↦ elim (Option-cases (generate_many n s' left)) [
    | inl stuck ↦ ground (arith, first, stuck)
    | inr ((ids', t', rest'), more) ↦
        (id, s', left, ids', first, ground (arith, first, more), ground (arith, first, more))
  ]
]

generate_many-last :
    (n : ℕ) (s : Snowflake) (cs ids : List ℕ) (t : Snowflake) (rest : List ℕ)
    → IsValid s
    → generate_many n s cs ≡ some (ids, t, rest)
    → s.last_timestamp ≤ t.last_timestamp
generate_many-last zero s cs ids t rest v e = unfold generate_many in (ground arith)
generate_many-last (suc n) s cs ids t rest v e =
    let (id, s', left, ids', first, more, _) = generate_many-suc n s cs ids t rest e in
    let a = generate-Advances s cs v first in
    ground (arith, generate_many-last n s' left ids' t rest a.valid more, a.later)

node_of-compose :
    (id : ℕ) (s : Snowflake)
    → IsValid s
    → id ≡ compose s.last_timestamp s.node_id s.sequence
    → s.last_timestamp < pow2 41
    → (parse_snowflake_id id).node_id ≡ s.node_id
node_of-compose id s v e h = rw e (
    ap (λ (i : SnowflakeInfo). i.node_id)
      (parse-compose s.last_timestamp s.node_id s.sequence h v.node_fits v.sequence_fits))

-- A run of n calls of one generator whose node number and sequence fit their fields, with any
-- clock readings, whose last time is below 2 ^ 41 ms, makes n ids that rise strictly from call
-- to call, the first above the generator's last id, and each carries the generator's node
-- number.
pub generate_many-Ascending :
    (n : ℕ) (s : Snowflake) (cs ids : List ℕ) (t : Snowflake) (rest : List ℕ)
    → IsValid s
    → generate_many n s cs ≡ some (ids, t, rest)
    → t.last_timestamp < pow2 41
    → (length ids ≡ n)
      × Ascending (stamp s) ids
      × All (λ id. (parse_snowflake_id id).node_id ≡ s.node_id) ids
generate_many-Ascending zero s cs ids t rest v e h =
    let none_made : [] ≡ ids = unfold generate_many in (ground arith) in
    subst
      (λ xs.
        (length xs ≡ 0)
        × Ascending (stamp s) xs
        × All (λ id. (parse_snowflake_id id).node_id ≡ s.node_id) xs)
      none_made (refl, tt, tt)
generate_many-Ascending (suc n) s cs ids t rest v e h =
    let (id, s', left, ids', first, more, split) = generate_many-suc n s cs ids t rest e in
    let a = generate-Advances s cs v first in
    let in_time : s'.last_timestamp < pow2 41 =
      omega (arith, generate_many-last n s' left ids' t rest a.valid more) in
    let (count, rising, nodes) = generate_many-Ascending n s' left ids' t rest a.valid more h in
    let (here, above) = Advances-stamp s id s' v a in_time in
    rw split (
      ap suc count,
      (rw here above, rw here rising),
      (
        node_of-compose id s' a.valid a.composed in_time ∙ a.same_node,
        subst (λ k. All (λ x. (parse_snowflake_id x).node_id ≡ k) ids') a.same_node nodes,
      ),
    )

Ascending-above : (b x : ℕ) (xs : List ℕ) → Ascending b xs → In x xs → b < x
Ascending-above b x [] a i = elim i [ ]
Ascending-above b x (y ∷ ys) a (inl e) = omega arith
Ascending-above b x (y ∷ ys) a (inr i) = omega (arith, Ascending-above y x ys a.1 i)

node_of_In :
    (k id : ℕ) (ids : List ℕ)
    → All (λ x. (parse_snowflake_id x).node_id ≡ k) ids
    → In id ids
    → (parse_snowflake_id id).node_id ≡ k
node_of_In k id [] h i = elim i [ ]
node_of_In k id (x ∷ ids) h (inl e) = rw e h.0
node_of_In k id (x ∷ ids) h (inr i) = node_of_In k id ids h.1 i

-- Two runs on generators with different node numbers, with any clocks, share no id, as long as
-- node numbers and sequences fit their fields and the times are below 2 ^ 41 ms.
pub generate_many-disjoint :
    (m n : ℕ) (s t s' t' : Snowflake) (cs ds ids jds rest rest' : List ℕ)
    → IsValid s
    → IsValid t
    → s.node_id ≢ t.node_id
    → generate_many m s cs ≡ some (ids, s', rest)
    → generate_many n t ds ≡ some (jds, t', rest')
    → s'.last_timestamp < pow2 41
    → t'.last_timestamp < pow2 41
    → (id : ℕ) → In id ids
    → ¬ In id jds
generate_many-disjoint m n s t s' t' cs ds ids jds rest rest' v w ne e f h k id i j =
    let (_, _, mine) = generate_many-Ascending m s cs ids s' rest v e h in
    let (_, _, yours) = generate_many-Ascending n t ds jds t' rest' w f k in
    ne (sym (node_of_In s.node_id id ids mine i) ∙ node_of_In t.node_id id jds yours j)
