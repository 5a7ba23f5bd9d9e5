-- ===== src/Snowflake.antt =====
-- apps/pkg/utils/snowflake.go. `time.Now().UnixMilli()` is a list of readings, each read once; a call
-- that runs out of readings has not returned (`none`). The mutex makes calls follow one another.
use Prim.Native.Nat.{bit_and, bit_or}
use go_im_system.Prelude.{
  ℕ, zero, suc, ◌+◌, ◌≡◌, refl, Bool, true, false, ◌||◌, List, [], ◌∷◌, Option, none, some, ltb,
  leb, ◌==◌, if◌then◌else◌, ℤ, pos, negsuc,
}
use go_im_system.Bits.{pow2, wrap64, shl, shr}
pub mod Fields
pub mod Order
pub mod Returns

pub record Snowflake : Type 0 where
  pub last_timestamp : ℕ
  pub sequence : ℕ
  pub node_id : ℕ

-- The package's state: the `sync.Once` and the singleton.
pub record Package : Type 0 where
  pub once_done : Bool
  pub instance_of : Option Snowflake

abbrev pub new_instance : ℕ → Snowflake
new_instance n = record { last_timestamp = 0; sequence = 0; node_id = n }

-- The node number is accepted from 0 to 1023; `true` in the result stands for an error.
unfoldable pub init_node : ℤ → Package → Package × Bool
init_node (negsuc n) p = (record p { once_done = true }, true)
init_node (pos n) p =
    if ltb 1023 n
    then (record p { once_done = true }, true)
    else (record { once_done = true; instance_of = some (new_instance n) }, false)

-- `once.Do` runs its body on the first call only.
unfoldable pub init_snowflake : ℤ → Package → Package × Bool
unfolding init_node
init_snowflake n p = if p.once_done then (p, false) else init_node n p

-- `for current <= last { time.Sleep(…); current = time.Now().UnixMilli() }`
unfoldable pub wait_past : ℕ → ℕ → List ℕ → Option (ℕ × List ℕ)
wait_past last current [] = if leb current last then none else some (current, [])
wait_past last current (c ∷ cs) =
    let rest = wait_past last c cs in if leb current last then rest else some (current, c ∷ cs)

-- The wait after the clock has moved backwards.
unfoldable pub settle : ℕ → ℕ → List ℕ → Option (ℕ × List ℕ)
settle last current cs = if ltb current last then wait_past last current cs else some (current, cs)

unfoldable pub compose : ℕ → ℕ → ℕ → ℕ
compose current node sequence = bit_or (bit_or (shl current 22) (shl node 12)) sequence

abbrev emit : Snowflake → ℕ → ℕ → List ℕ → ℕ × Snowflake × List ℕ
emit s current seq cs =
    (compose current s.node_id seq, record s { last_timestamp = current; sequence = seq }, cs)

-- The part of `Generate` under the first wait: the sequence within one millisecond.
unfoldable pub advance : Snowflake → ℕ → List ℕ → Option (ℕ × Snowflake × List ℕ)
advance s current cs =
    if current == s.last_timestamp
    then (if bit_and (s.sequence + 1) 0xFFF == 0
        then elim (wait_past s.last_timestamp current cs) [
          | none ↦ none
          | some (later, rest) ↦ some (emit s later 0 rest)
        ]
        else some (emit s current (bit_and (s.sequence + 1) 0xFFF) cs))
    else some (emit s current 0 cs)

unfoldable pub generate : Snowflake → List ℕ → Option (ℕ × Snowflake × List ℕ)
unfolding settle advance wait_past compose
generate s [] = none
generate s (c ∷ cs) = elim (settle s.last_timestamp c cs) [
  | none ↦ none
  | some (current, rest) ↦ advance s current rest
]

pub record SnowflakeInfo : Type 0 where
  pub timestamp : ℕ
  pub node_id : ℕ
  pub sequence : ℕ

unfoldable pub parse_snowflake_id : ℕ → SnowflakeInfo
parse_snowflake_id id = record {
  timestamp = shr id 22 + 1288834974657;
  node_id = bit_and (shr id 12) 0x3FF;
  sequence = bit_and id 0xFFF;
}

-- `n` calls in a row: the ids in the order of the calls.
unfoldable pub generate_many : ℕ → Snowflake → List ℕ → Option (List ℕ × Snowflake × List ℕ)
generate_many zero s cs = some ([], s, cs)
generate_many (suc n) s cs = elim (generate s cs) [
  | none ↦ none
  | some (id, s', rest) ↦ elim (generate_many n s' rest) [
    | none ↦ none
    | some (ids, s'', rest') ↦ some (id ∷ ids, s'', rest')
  ]
]
