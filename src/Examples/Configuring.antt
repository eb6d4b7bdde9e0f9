-- ===== src/Examples/Configuring.antt =====
-- The configuration provider at concrete inputs.
use paota.Common.{refl, ◌≡◌, ◌≢◌, ◌⊎◌, Option, none, some, if◌then◌else◌, str_eq, eq_iff}
use paota.Schema.{Error, external}
use paota.Config.{
  read_from_env, Config, set_application_config, default_duration, get_config, new_config_provider,
}
use paota.Config.Reading.{get_config-read_from_env, get_config-set_application_config}
use paota.Samples.{sample_config}

-- A validator of one rule: the broker is required.
abbrev broker_required : Config → Option Error
broker_required c = if str_eq c.broker "" then some (external "Broker is required") else none

named_passes : (c : Config) → broker_required c ≡ none → c.broker ≢ ""
named_passes c h e = cc (rw ((eq_iff c.broker "").1 e) at h)

get_config-set_application_config_example :
    ((e : Error) × (broker_required sample_config ≡ some e)
      × (set_application_config broker_required new_config_provider sample_config
          ≡ (new_config_provider, some e)))
    ⊎ (((set_application_config broker_required new_config_provider sample_config).1 ≡ none)
        × (get_config (set_application_config broker_required new_config_provider sample_config).0
            ≡ some (default_duration broker_required sample_config)))
get_config-set_application_config_example =
    get_config-set_application_config broker_required named_passes new_config_provider sample_config

-- A validator that wants a task queue, and an environment without one.
abbrev queue_required : Config → Option Error
queue_required c =
    if str_eq c.task_queue_name "" then some (external "TaskQueueName is required") else none

abbrev no_queue : Config
no_queue = record sample_config { task_queue_name = "" }

get_config-read_from_env_example :
    ((read_from_env queue_required (λ c. (none, no_queue)) new_config_provider).1
      ≡ some (external "TaskQueueName is required"))
    × (get_config (read_from_env queue_required (λ c. (none, no_queue)) new_config_provider).0
        ≡ some no_queue)
get_config-read_from_env_example =
    get_config-read_from_env queue_required (λ c. (none, no_queue)) new_config_provider no_queue
      (external "TaskQueueName is required") refl (λ e. cc) refl
