-- ===== src/Tests/Ids.antt =====
-- Runs of the Snowflake generator.
use go_im_system.Prelude.{
  ℕ, ◌≡◌, refl, ◌≢◌, inl, inr, List, [], ◌∷◌, none, some, length, All, arith, pos, true, false,
}
use go_im_system.Snowflake.{
  Snowflake, new_instance, init_snowflake, compose, generate, generate_many, parse_snowflake_id,
}
use go_im_system.Snowflake.Fields.{parse-compose}
use go_im_system.Snowflake.Order.{Ascending, stamp, generate_many-Ascending}
use go_im_system.Snowflake.Returns.{generate_returns}

abbrev gateway_flake : Snowflake
gateway_flake = new_instance 1

abbrev logic_flake : Snowflake
logic_flake = record { last_timestamp = 900; sequence = 4095; node_id = 2 }

abbrev moved : Snowflake → ℕ → ℕ → Snowflake
moved s t q = record s { last_timestamp = t; sequence = q }

-- Two ids in one millisecond, then one after the clock went back.
abbrev readings : List ℕ
readings = 500 ∷ 500 ∷ 400 ∷ 450 ∷ 501 ∷ 502 ∷ []

abbrev gateway_ids : List ℕ
gateway_ids = compose 500 1 0 ∷ compose 500 1 1 ∷ compose 501 1 0 ∷ []

three_ids :
    generate_many 3 gateway_flake readings ≡ some (gateway_ids, moved gateway_flake 501 0, 502 ∷ [])
unfolding generate_many generate
three_ids = refl

-- The sequence of 900 ms is used up: the call waits.
generate_many-Ascending_example :
    (length gateway_ids ≡ 3)
    × Ascending (stamp gateway_flake) gateway_ids
    × All (λ id. (parse_snowflake_id id).node_id ≡ 1) gateway_ids
generate_many-Ascending_example =
    generate_many-Ascending 3 gateway_flake readings gateway_ids (moved gateway_flake 501 0)
      (502 ∷ []) (omega arith) three_ids (omega arith)

parse-compose_example :
    parse_snowflake_id (compose 500 1 7)
    ≡ record { timestamp = 1288834975157; node_id = 1; sequence = 7 }
parse-compose_example = parse-compose 500 1 7 (omega arith) (omega arith) (omega arith)

generate_returns_example : generate logic_flake (900 ∷ 10 ∷ 901 ∷ []) ≢ none
generate_returns_example =
    generate_returns logic_flake 901 (900 ∷ 10 ∷ 901 ∷ []) (inr (inr (inl refl))) (omega arith)

-- A first call with a bad node number uses up the `once`: the second reports no error, and there is
-- no generator.
bad_node_first :
    init_snowflake
      (pos 3)
      (init_snowflake (pos 4096) (record { once_done = false; instance_of = none })).0
    ≡ (record { once_done = true; instance_of = none }, false)
unfolding init_snowflake
bad_node_first = refl
