-- ===== src/Snowflake/Fields.antt =====
-- The three fields of an id.
use go_im_system.Prelude.{ℕ, ◌+◌, ◌*◌, ◌<◌, ◌≡◌, arith}
use go_im_system.Bits.{pow2, shl, shr, bit_or_low, bit_and_mask}
use go_im_system.Snowflake.{Snowflake, compose, parse_snowflake_id}

-- The fields are side by side, and no bit is lost while the time is below 2 ^ 41.
pub compose_sum :
    (t node seq : ℕ)
    → t < pow2 41
    → node < 1024
    → seq < 4096
    → compose t node seq ≡ t * 4194304 + node * 4096 + seq
unfolding compose
compose_sum t node seq ht hn hs =
    let time : shl t 22 ≡ t * pow2 22 = omega arith in
    let upper = bit_or_low 22 t (shl node 12) (omega arith) in
    let regroup : t * pow2 22 + shl node 12 ≡ (t * 1024 + node) * pow2 12 = omega arith in
    let lower = bit_or_low 12 (t * 1024 + node) seq (omega arith) in
    rw (time, upper, regroup, lower) (omega arith)

pub record IsValid (s : Snowflake) : Type 0 where
  pub node_fits : s.node_id < 1024
  pub sequence_fits : s.sequence < 4096

-- Parsing an id composed of a time below 2 ^ 41 ms, a node number below 1024 and a sequence
-- below 4096 gives the node number and the sequence back, and the time plus 1288834974657.
pub parse-compose :
    (t node seq : ℕ)
    → t < pow2 41
    → node < 1024
    → seq < 4096
    → parse_snowflake_id (compose t node seq)
      ≡ record { timestamp = t + 1288834974657; node_id = node; sequence = seq }
unfolding parse_snowflake_id
parse-compose t node seq ht hn hs =
    let sum = compose_sum t node seq ht hn hs in
    rw (bit_and_mask 10 (shr (compose t node seq) 12), bit_and_mask 12 (compose t node seq), sum)
      (ground arith)
