-- ===== src/Config.antt =====
-- apps/pkg/config/config.go and the choice of the key in apps/agent/engine/graph.go: where the
-- configuration is looked for, and which assistant's it is. The files, the environment and the standard
-- library's functions on texts are arguments.
use go_im_system.Prelude.{
  ◌≡◌, refl, Bool, ◌||◌, List, [], ◌∷◌, ◌++◌, Option, none, some, lookup, ℤ, eq, nat_eq, list_Eq,
  if◌then◌else◌,
}
use go_im_system.Text.{Text, codes}

abbrev pub fixed_candidates : List Text
fixed_candidates =
    codes "./apps/config.yaml"
    ∷ (codes "./config.yaml"
        ∷ (codes "../apps/config.yaml"
            ∷ (codes "../config.yaml"
                ∷ (codes "../../apps/config.yaml" ∷ (codes "../../config.yaml" ∷ [])))))

abbrev pub if_any : Text → List Text → List Text
if_any [] rest = rest
if_any (c ∷ t) rest = (c ∷ t) ∷ rest

pub record ProviderConfig : Type 0 where
  pub api_key : Text
  pub base_url : Text
  pub model_name : Text

pub record AgentConfig : Type 0 where
  pub default : Text
  pub providers : List (Text × ProviderConfig)

pub record ServerConfig : Type 0 where
  pub gateway_port : ℤ
  pub logic_port : ℤ
  pub agent_port : ℤ
  pub gateway_snowflake_node : ℤ
  pub logic_snowflake_node : ℤ
  pub agent_snowflake_node : ℤ
  pub agent_addr : Text
  pub gateway_addr : Text

pub record MysqlConfig : Type 0 where
  pub dsn : Text
  pub max_idle_conns : ℤ
  pub max_open_conns : ℤ

pub record RedisConfig : Type 0 where
  pub addr : Text
  pub password : Text
  pub db : ℤ

pub record RabbitMqConfig : Type 0 where
  pub url : Text
  pub exchange : Text

pub record LogConfig : Type 0 where
  pub level : Text
  pub filename : Text
  pub max_size : ℤ
  pub max_backups : ℤ
  pub max_age : ℤ
  pub compress : Bool

pub record Config : Type 0 where
  pub server : ServerConfig
  pub mysql : MysqlConfig
  pub redis : RedisConfig
  pub agent : AgentConfig
  pub log : LogConfig
  pub rabbit_mq : RabbitMqConfig

-- The configuration, or why there is none.
pub data Loaded : Type 0 where
  no_file unreadable undecodable : Loaded
  loaded : Config → Loaded

-- `none` ends the program.
unfoldable pub get_default_agent : AgentConfig → Option ProviderConfig
get_default_agent c = lookup c.default c.providers

abbrev pub or_else : Text → Text → Text
or_else [] rest = rest
or_else (c ∷ t) rest = c ∷ t

-- `env` is `os.Getenv`, which gives an empty text for a name that is not set.
module _ (env trim : Text → Text) where
  abbrev pub candidates : Text → List Text
  candidates path = if_any path (if_any (trim (env (codes "APP_CONFIG"))) fixed_candidates)

  module _ (abs : Text → Option Text) (is_file : Text → Bool) where
    unfoldable pub first_file : List Text → Option Text
    first_file [] = none
    first_file (c ∷ cs) =
        let rest = first_file cs in
        elim (abs c) [ none ↦ rest | some path ↦ if is_file path then some path else rest ]

    unfoldable pub resolve_config_path : Text → Option Text
    unfolding first_file
    resolve_config_path path = first_file (candidates path)

    -- Reading the file as YAML, and decoding it together with the environment.
    module _ {Settings : Type 0} (read_in_config : Text → Option Settings)
        (unmarshal : Settings → Option Config) where
      abbrev decoded : Option Config → Loaded
      decoded none = undecodable
      decoded (some c) = loaded c

      abbrev read_from : Option Settings → Loaded
      read_from none = unreadable
      read_from (some y) = decoded (unmarshal y)

      abbrev found_at : Option Text → Loaded
      found_at none = no_file
      found_at (some path) = read_from (read_in_config path)

      unfoldable pub init_config : Text → Loaded
      unfolding resolve_config_path
      init_config path = found_at (resolve_config_path path)

  abbrev pub named_key : Text → Text
  named_key [] = []
  named_key (c ∷ t) = trim (env (codes "AGENT_PROVIDERS_" ++ ((c ∷ t) ++ codes "_API_KEY")))

  -- The key of the configuration, of the environment under the provider's name, or of the environment.
  unfoldable pub resolve_agent_api_key : (Text → Text) → AgentConfig → ProviderConfig → Text
  resolve_agent_api_key upper c p =
      or_else (trim p.api_key)
        (or_else (named_key (upper (trim c.default))) (trim (env (codes "DEEPSEEK_API_KEY"))))

-- Which errors of the model are tried again; `contains` is `strings.Contains`.
unfoldable pub is_retry_able : (Text → Text → Bool) → Text → Bool
is_retry_able contains e =
    contains e (codes "429")
    || (contains e (codes "Too Many Requests") || contains e (codes "qpm limit"))

-- A path in the environment comes before the fixed ones; a directory is passed over.
resolved :
    resolve_config_path
      (λ n. codes "/etc/im.yaml")
      (λ t. t)
      (λ p. some p)
      (λ p. eq p (codes "/etc/im.yaml"))
      (codes "./missing.yaml")
    ≡ some (codes "/etc/im.yaml")
unfolding resolve_config_path first_file
resolved = refl
