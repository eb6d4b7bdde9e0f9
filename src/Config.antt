-- ===== src/Config.antt =====
-- config/config.go, config/amqp.go and config/mongodb.go. The rules of the `validate` tags are
-- checked by a library, whose verdict on a configuration is a parameter here, as is the library that
-- reads the environment into a configuration.
pub mod Reading
use paota.Common.{
  ℕ, String, Bool, true, false, Option, none, some, List, str_eq, if◌then◌else◌, ◌&&◌,
}
use paota.Common.Int.{ℤ, pos, eqb_ℤ}
use paota.Schema.{Value, Error}

-- `map[string]interface{}`, as the entries of the map.
abbrev pub Table : Type 0
Table = List (String × Value)

pub record AmqpConfig : Type 0 where
  pub url : String
  pub exchange : String
  pub exchange_type : String
  pub queue_declare_args : Table
  pub queue_binding_args : Table
  pub binding_key : String
  pub prefetch_count : ℤ
  pub auto_delete : Bool
  pub delayed_queue : String
  pub failed_queue : String
  pub timeout_queue : String
  pub connection_pool_size : ℤ
  pub heart_beat_interval : ℤ
  pub connection_timeout : ℤ

-- The client that the struct also holds is set by nobody.
pub record MongoDbConfig : Type 0 where
  pub uri : String
  pub max_pool_size : ℕ
  pub db_name : String

-- The two pointers may be nil.
pub record Config : Type 0 where
  pub broker : String
  pub store : String
  pub max_task_execution_duration : ℤ
  pub task_queue_name : String
  pub store_queue_name : String
  pub amqp : Option AmqpConfig
  pub mongo_db : Option MongoDbConfig

pub record ConfigProvider : Type 0 where
  pub application_config : Config

-- `Config{}`
abbrev pub empty_config : Config
empty_config = record {
  broker = "";
  store = "";
  max_task_execution_duration = pos 0;
  task_queue_name = "";
  store_queue_name = "";
  amqp = none;
  mongo_db = none;
}

unfoldable pub new_config_provider : ConfigProvider
new_config_provider = record { application_config = empty_config }

abbrev is_nil {ℓ} : {A : Type ℓ} → Option A → Bool
is_nil none = true
is_nil (some _) = false

-- `cp.applicationConfig == emptyStruct`: the pointers are equal when both are nil.
unfoldable pub is_empty : Config → Bool
is_empty c =
    str_eq c.broker ""
    && str_eq c.store ""
    && eqb_ℤ c.max_task_execution_duration (pos 0)
    && str_eq c.task_queue_name ""
    && str_eq c.store_queue_name ""
    && is_nil c.amqp
    && is_nil c.mongo_db

unfoldable pub get_config : ConfigProvider → Option Config
unfolding is_empty
get_config cp = if is_empty cp.application_config then none else some cp.application_config

-- `validate.Struct`: the error that the validator reports.
module _ (validate_struct : Config → Option Error) where
  unfoldable pub validate_config : Config → Option Error
  validate_config cfg = validate_struct cfg

  abbrev pub default_duration : Config → Config
  default_duration c =
      if eqb_ℤ c.max_task_execution_duration (pos 0)
      then record c { max_task_execution_duration = pos 10 }
      else c

  unfoldable pub set_application_config : ConfigProvider → Config → ConfigProvider × Option Error
  unfolding validate_config
  set_application_config cp config = elim (validate_config config) [
    | some e ↦ (cp, some e)
    | none ↦ (record cp { application_config = default_duration config }, none)
  ]

  -- `env.ParseWithOptions` writes into the configuration that it is given, on an error too.
  abbrev pub parsed : Option Error × Config → ConfigProvider × Option Error
  parsed (some e, c) = (record { application_config = c }, some e)
  parsed (none, c) = (record { application_config = c }, validate_config c)

  unfoldable pub read_from_env :
      (Config → Option Error × Config) → ConfigProvider → ConfigProvider × Option Error
  unfolding validate_config
  read_from_env parse cp = parsed (parse cp.application_config)

-- The global provider, which may be nil.
unfoldable pub set_config_provider : ConfigProvider → Option ConfigProvider → Option ConfigProvider
set_config_provider provider global = some provider

unfoldable pub get_config_provider : Option ConfigProvider → ConfigProvider × Option ConfigProvider
get_config_provider none = (new_config_provider, some new_config_provider)
get_config_provider (some provider) = (provider, some provider)
