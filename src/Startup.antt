-- ===== src/Startup.antt =====
-- apps/gateway/main.go, apps/logic/main.go and apps/agent/main.go, with InitMySQL of apps/pkg/db/mysql_client.go,
-- InitRedis of apps/pkg/cache/redis_client.go and InitRPCClient of apps/gateway/rpcclient/client.go: what
-- each service does, in order, until it serves or exits. Which calls of libraries fail is an argument.
use go_im_system.Prelude.{
  Bool, true, false, ◌||◌, List, [], ◌∷◌, ◌++◌, Option, none, ℤ, ℕ, if◌then◌else◌, map, not,
}
use go_im_system.Text.{Text, codes}
use go_im_system.Snowflake.{Package, init_snowflake}
use go_im_system.Broker.{Command, issue, init_rabbit_mq, start_mq_consumer, start_upload_consumer}
use go_im_system.Config.{Config, MysqlConfig, RedisConfig, LogConfig, Loaded, loaded}
pub mod Nodes

-- The gateway's client of Logic: its servers, the codec and the seconds that connecting may take.
pub data Event : Type 0 where
  logger_made : LogConfig → Event
  mysql_opened : MysqlConfig → Event
  redis_opened : RedisConfig → Event
  rpc_client_made : List Text → Text → ℕ → Event
  asked_broker : Command → Event
  workers_started : ℕ → Event
  reliability_made : Event
  callback_set : Event
  interceptors_used : List Text → Event
  service_registered : Text → Event
  cron_started : Text → Event
  serves : ℤ → Event

pub record Faults : Type 0 where
  pub mysql_fails : MysqlConfig → Bool
  pub redis_fails : RedisConfig → Bool
  pub broker_fails : Command → Bool
  pub cron_fails : Bool
  pub listen_fails : ℤ → Bool

pub record Process : Type 0 where
  pub events : List Event
  pub snowflake : Package
  pub exited : Bool

abbrev pub no_process : Process
no_process = record {
  events = [];
  snowflake = record { once_done = false; instance_of = none };
  exited = false;
}

-- A call that exits where it fails.
abbrev pub act : Event → Bool → Process → Process
act e fails p = record p {
  events = if p.exited || fails then p.events else p.events ++ e ∷ [];
  exited = p.exited || fails;
}

-- Commands to the broker, up to the first that fails.
abbrev pub ask : (Command → Bool) → List Command → Process → Process
ask fails cs p =
    let (issued, done) = issue fails cs in
    record p {
      events = if p.exited then p.events else p.events ++ map asked_broker issued;
      exited = p.exited || not done;
    }

-- `utils.InitSnowflake`, in a process that has not exited.
abbrev pub init_node : ℤ → Process → Process
init_node node p =
    let (made, fails) = init_snowflake node p.snowflake in
    record p { snowflake = if p.exited then p.snowflake else made; exited = p.exited || fails }

module _ (f : Faults) where
  -- The first steps, which the three services share.
  abbrev pub opened : Config → Process
  opened c = act (redis_opened c.redis) (f.redis_fails c.redis) (
      act (mysql_opened c.mysql) (f.mysql_fails c.mysql) (act (logger_made c.log) false no_process))

  unfoldable pub boot : ℤ → Config → Process
  boot node c = init_node node (opened c)

  abbrev pub init_rpc_client : Process → Process
  init_rpc_client p =
      act (rpc_client_made (codes "tcp@localhost:8001" ∷ []) (codes "application/protobuf") 10)
        false p

  abbrev pub consume : List Command × ℕ → Process → Process
  consume (cs, workers) p = act (workers_started workers) false (ask f.broker_fails cs p)

  unfoldable pub gateway_main : Config → Process
  unfolding boot
  gateway_main c =
      let booted = init_rpc_client (boot c.server.gateway_snowflake_node c) in
      let consuming =
        consume (start_mq_consumer c.server.gateway_addr)
          (ask f.broker_fails (init_rabbit_mq c.rabbit_mq.url) booted) in
      act (serves c.server.gateway_port) (f.listen_fails c.server.gateway_port)
        (act callback_set false (act reliability_made false consuming))

  unfoldable pub logic_main : Config → Process
  unfolding boot
  logic_main c =
      let booted = boot c.server.logic_snowflake_node c in
      let consuming =
        consume start_upload_consumer
          (ask f.broker_fails (init_rabbit_mq c.rabbit_mq.url) booted) in
      act (serves c.server.logic_port) (f.listen_fails c.server.logic_port) (
        act (service_registered (codes "LogicService")) false (
          act (interceptors_used (codes "LoggerInterceptor" ∷ (codes "RecoveryInterceptor" ∷ [])))
            false consuming))

  unfoldable pub agent_main : Config → Process
  unfolding boot
  agent_main c =
      act (serves c.server.agent_port) (f.listen_fails c.server.agent_port) (
        act (cron_started (codes "0 * * * * *")) f.cron_fails
          (boot c.server.agent_snowflake_node c))

-- A service that finds no configuration exits at once.
abbrev pub main_of : (Config → Process) → Loaded → Process
main_of main (loaded c) = main c
main_of main _ = record no_process { exited = true }
