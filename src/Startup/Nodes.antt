-- ===== src/Startup/Nodes.antt =====
-- The generators that the services start with.
use go_im_system.Prelude.{
  ℕ, ◌<◌, ◌≡◌, ◌≢◌, refl, ap, sym, ◌∙◌, subst, List, In, some, ℤ, pos, negsuc, ltb, arith, inl, inr,
  Bool-cases,
}
use mathlib.Core.Option.{some_inj}
use go_im_system.Bits.{pow2}
use go_im_system.Snowflake.{Snowflake, new_instance, init_snowflake, init_node, generate_many}
use go_im_system.Snowflake.Fields.{IsValid}
use go_im_system.Snowflake.Order.{generate_many-disjoint}
use go_im_system.Config.{Config}
use go_im_system.Startup
use go_im_system.Startup.{
  Process, Faults, no_process, opened, boot, gateway_main, logic_main, agent_main,
}

-- A new generator with the node number, which fits.
abbrev pub Made : ℤ → Snowflake → Type 0
Made node s = (n : ℕ) × (node ≡ pos n) × (n < 1024) × (s ≡ new_instance n)

init_snowflake-Made :
    (node : ℤ) (s : Snowflake)
    → (init_snowflake node no_process.snowflake).0.instance_of ≡ some s
    → Made node s
unfolding init_snowflake init_node
init_snowflake-Made (negsuc n) s e = absurd (ground (arith, e))
init_snowflake-Made (pos n) s e = elim (Bool-cases (ltb 1023 n)) [
  | inl high ↦ absurd (ground (arith, rw high at e))
  | inr low ↦ (n, refl, ground (arith, low), sym (some_inj.0 (rw low at e)))
]

init_node-Made :
    (node : ℤ) (p : Process) (s : Snowflake)
    → p.snowflake ≡ no_process.snowflake
    → (Startup.init_node node p).snowflake.instance_of ≡ some s
    → Made node s
init_node-Made node p s new e = elim (Bool-cases p.exited) [
  | inl exited ↦ absurd (ground (arith, rw (exited, new) at e))
  | inr runs ↦ init_snowflake-Made node s (rw (runs, new) at e)
]

boot-Made :
    (f : Faults) (node : ℤ) (c : Config) (s : Snowflake)
    → (boot f node c).snowflake.instance_of ≡ some s
    → Made node s
unfolding boot
boot-Made f node c s e = init_node-Made node (opened f c) s refl e

gateway_main-Made :
    (f : Faults) (c : Config) (s : Snowflake)
    → (gateway_main f c).snowflake.instance_of ≡ some s
    → Made c.server.gateway_snowflake_node s
unfolding gateway_main
gateway_main-Made f c s e = boot-Made f c.server.gateway_snowflake_node c s e

logic_main-Made :
    (f : Faults) (c : Config) (s : Snowflake)
    → (logic_main f c).snowflake.instance_of ≡ some s
    → Made c.server.logic_snowflake_node s
unfolding logic_main
logic_main-Made f c s e = boot-Made f c.server.logic_snowflake_node c s e

Made-IsValid : (node : ℤ) (s : Snowflake) → Made node s → (IsValid s) × (pos s.node_id ≡ node)
Made-IsValid node s (n, at, small, same) =
    subst (λ u. (IsValid u) × (pos u.node_id ≡ node)) (sym same)
      (record { node_fits = small; sequence_fits = omega arith }, sym at)

-- A gateway and a Logic service have started, with any faults of what they connect to, so far
-- that each has a Snowflake generator, and the gateway's node number in the one's configuration
-- is not the Logic node number in the other's. Then any numbers of ids that they generate from
-- there, with any clocks whose times are below 2 ^ 41 ms, have no id in common.
pub started-disjoint :
    (f g : Faults) (c d : Config) (s t s' t' : Snowflake) (m n : ℕ)
    (cs ds ids jds rest rest' : List ℕ)
    → (gateway_main f c).snowflake.instance_of ≡ some s
    → (logic_main g d).snowflake.instance_of ≡ some t
    → c.server.gateway_snowflake_node ≢ d.server.logic_snowflake_node
    → generate_many m s cs ≡ some (ids, s', rest)
    → generate_many n t ds ≡ some (jds, t', rest')
    → s'.last_timestamp < pow2 41
    → t'.last_timestamp < pow2 41
    → (id : ℕ) → In id ids
    → ¬ In id jds
started-disjoint f g c d s t s' t' m n cs ds ids jds rest rest' gateway logic apart e h k l id i =
    let (valid_s, node_s) =
      Made-IsValid c.server.gateway_snowflake_node s (gateway_main-Made f c s gateway) in
    let (valid_t, node_t) =
      Made-IsValid d.server.logic_snowflake_node t (logic_main-Made g d t logic) in
    generate_many-disjoint m n s t s' t' cs ds ids jds rest rest' valid_s valid_t
      (λ same. apart (sym node_s ∙ ap (λ k. pos k) same ∙ node_t)) e h k l id i
