-- ===== src/Tests/Starts.antt =====
-- A gateway and a Logic service that start from one configuration.
use go_im_system.Prelude.{ℕ, ◌≡◌, refl, false, true, In, [], ◌∷◌, some, pos, arith, inl}
use go_im_system.Text.{codes}
use go_im_system.Snowflake.{
  Snowflake, new_instance, init_snowflake, init_node, compose, generate, generate_many,
}
use go_im_system.Config.{Config, no_file}
use go_im_system.Startup.{Faults, no_process, boot, gateway_main, logic_main, agent_main, main_of}
use go_im_system.Startup.Nodes.{started-disjoint}

abbrev config : Config
config = record {
  server = record {
    gateway_port = pos 8080;
    logic_port = pos 8001;
    agent_port = pos 8002;
    gateway_snowflake_node = pos 1;
    logic_snowflake_node = pos 2;
    agent_snowflake_node = pos 3;
    agent_addr = codes "agent:8002";
    gateway_addr = codes "gw:8080";
  };
  mysql = record { dsn = codes "im@db"; max_idle_conns = pos 10; max_open_conns = pos 100 };
  redis = record { addr = codes "redis:6379"; password = []; db = pos 0 };
  agent = record { default = codes "deepseek"; providers = [] };
  log = record {
    level = codes "info";
    filename = codes "im.log";
    max_size = pos 100;
    max_backups = pos 3;
    max_age = pos 7;
    compress = false;
  };
  rabbit_mq = record { url = codes "amqp://mq"; exchange = codes "gateway.exchange" };
}

abbrev no_faults : Faults
no_faults = record {
  mysql_fails = λ c. false;
  redis_fails = λ c. false;
  broker_fails = λ c. false;
  cron_fails = false;
  listen_fails = λ p. false;
}

abbrev after : Snowflake → ℕ → Snowflake
after s time = record s { last_timestamp = time }

gateway_starts : (gateway_main no_faults config).snowflake.instance_of ≡ some (new_instance 1)
unfolding gateway_main boot init_snowflake init_node
gateway_starts = refl

logic_starts : (logic_main no_faults config).snowflake.instance_of ≡ some (new_instance 2)
unfolding logic_main boot init_snowflake init_node
logic_starts = refl

gateway_id :
    generate_many 1 (new_instance 1) (500 ∷ [])
    ≡ some (compose 500 1 0 ∷ [], after (new_instance 1) 500, [])
unfolding generate_many generate
gateway_id = refl

logic_id :
    generate_many 1 (new_instance 2) (500 ∷ [])
    ≡ some (compose 500 2 0 ∷ [], after (new_instance 2) 500, [])
unfolding generate_many generate
logic_id = refl

started-disjoint_example : ¬ In (compose 500 1 0) (compose 500 2 0 ∷ [])
started-disjoint_example =
    started-disjoint no_faults no_faults config config (new_instance 1) (new_instance 2)
      (after (new_instance 1) 500) (after (new_instance 2) 500) 1 1 (500 ∷ []) (500 ∷ [])
      (compose 500 1 0 ∷ []) (compose 500 2 0 ∷ []) [] [] gateway_starts logic_starts (ground arith)
      gateway_id logic_id (omega arith) (omega arith) (compose 500 1 0) (inl refl)

-- Without a database the agent exits before it has a generator.
no_database : (agent_main (record no_faults { mysql_fails = λ c. true }) config).exited ≡ true
unfolding agent_main boot init_snowflake init_node
no_database = refl

no_configuration : main_of (agent_main no_faults) no_file ≡ record no_process { exited = true }
no_configuration = refl
