-- ===== src/WorkerPool.antt =====
-- workerpool/workerpool.go and internal/factory/factory.go.
pub mod Protocol
pub mod Progress
pub mod Running
pub mod Fits
pub mod Events
pub mod Refinement
pub mod Creation
pub mod Lifecycle
pub mod Starting
use paota.Common.{
  ℕ, String, Bool, true, false, Option, none, some, List, str_eq, ◌==◌, if◌then◌else◌,
}
use paota.Schema.{
  Signature, State, Error, unsupported_broker, unsupported_store, context_not_struct,
  publish_message, new_pending_task_state,
}
use paota.Config.{
  Config, ConfigProvider, new_config_provider, set_application_config, get_config,
  get_config_provider,
}
use paota.World.{
  Env, World, Outcome, ok, err, panic, Exec, pure, raise, lift, die, ◌>>=◌, ◌>>◌, on_error, gets,
  next_call,
}
use paota.Interface.{Broker}
use paota.Broker.{AmqpBroker, new_amqp_broker}
use paota.Registrar.{
  Registrar, Task, new_default_task_registrar, register_tasks, is_task_registered,
  get_registered_task_count, send_task_with_context,
}
use paota.WorkerGroup.{WorkerGroup, Call, done, blocked, panics, new_worker_group, start, stop}

-- The context of a pool, by its type.
pub data Context : Type 0 where
  nil_context : Context
  struct_context other_context : ℕ → Context

-- `reflect.TypeOf(nil).Kind()` panics.
unfoldable pub validate_context_type : Context → Outcome (Unit {0})
validate_context_type nil_context = panic
validate_context_type (struct_context _) = ok tt
validate_context_type (other_context _) = err context_not_struct

-- `GetConfig` may give nil, whose fields are then read.
module _ (env : Env) where
  unfoldable pub create_broker : Option Config → Exec AmqpBroker
  create_broker none = die
  create_broker (some c) =
      if str_eq c.broker "amqp" then new_amqp_broker env c else raise unsupported_broker

unfoldable pub create_store : Option Config → Outcome (Unit {0})
create_store none = panic
create_store (some c) = if str_eq c.store "" then ok tt else err unsupported_store

-- What the struct also keeps (the factory, the type of the context, the configuration and its
-- provider) is not read after the creation. A backend is known by a number.
pub record WorkerPool : Type 0 where
  pub backend : Option ℕ
  pub broker : AmqpBroker
  pub task_registrar : Registrar
  pub started : Bool
  pub worker_pool_id : String
  pub concurrency : ℕ
  pub name_space : String
  pub worker_group : WorkerGroup

abbrev pub assemble : ℕ → String → String → AmqpBroker → WorkerPool
assemble concurrency name_space id b = record {
  backend = none;
  broker = b;
  task_registrar = new_default_task_registrar b.config b.amqp;
  started = false;
  worker_pool_id = id;
  concurrency = concurrency;
  name_space = name_space;
  worker_group = new_worker_group concurrency name_space;
}

module _ (env : Env) where
  unfoldable pub create_worker_pool : Context → ℕ → String → ConfigProvider → Exec WorkerPool
  create_worker_pool ctx concurrency name_space provider = do
    lift (validate_context_type ctx)
    i ← next_call
    b ← create_broker env (get_config provider)
    lift (create_store (get_config provider))
    pure (assemble concurrency name_space (env.new_uuid i) b)

  -- The global provider is made at its first use, so that it is not nil here.
  unfoldable pub new_worker_pool : Option ConfigProvider → Context → ℕ → String → Exec WorkerPool
  unfolding get_config_provider
  new_worker_pool global ctx concurrency name_space =
      create_worker_pool ctx concurrency name_space (get_config_provider global).0

  abbrev configured : ConfigProvider × Option Error → Context → ℕ → String → Exec WorkerPool
  configured (provider, some e) ctx concurrency name_space = raise e
  configured (provider, none) ctx concurrency name_space =
      create_worker_pool ctx concurrency name_space provider

  unfoldable pub new_worker_pool_with_config :
      (Config → Option Error) → Context → ℕ → String → Config → Exec WorkerPool
  new_worker_pool_with_config validate_struct ctx concurrency name_space conf =
      configured (set_application_config validate_struct new_config_provider conf) ctx concurrency
        name_space

abbrev pub get_broker : WorkerPool → AmqpBroker
get_broker wp = wp.broker

unfoldable pub set_broker : WorkerPool → AmqpBroker → WorkerPool
set_broker wp b = record wp { broker = b }

abbrev pub get_backend : WorkerPool → Option ℕ
get_backend wp = wp.backend

unfoldable pub set_backend : WorkerPool → Option ℕ → WorkerPool
set_backend wp backend = record wp { backend = backend }

-- `Start` up to its wait for a signal; a second call does nothing.
abbrev with_group : WorkerPool → Call WorkerGroup → Call WorkerPool
with_group wp (done wg) = done (record wp { worker_group = wg })
with_group wp blocked = blocked
with_group wp panics = panics

unfoldable pub start_pool : WorkerPool → Call WorkerPool
start_pool wp =
    if wp.started
    then done wp
    else with_group (record wp { started = true }) (start wp.worker_group)

-- `Stop` up to the call of `StopConsumer`.
unfoldable pub stop_pool : WorkerPool → Call WorkerPool
stop_pool wp =
    if wp.started
    then if get_registered_task_count wp.task_registrar == 0
      then done wp
      else with_group (record wp { started = false }) (stop wp.worker_group)
    else done wp

unfoldable pub pool_register_tasks :
    WorkerPool → List (String × Task) → Outcome (Unit {0}) × WorkerPool
pool_register_tasks wp tasks =
    let (r, registrar) = register_tasks wp.task_registrar tasks in
    (r, record wp { task_registrar = registrar })

unfoldable pub pool_is_task_registered : WorkerPool → String → Bool
pool_is_task_registered wp name = is_task_registered wp.task_registrar name

-- The broker is that of the registrar.
module _ (env : Env) (broker : Broker) where
  unfoldable pub pool_send_task_with_context : Exec State
  pool_send_task_with_context = do
    on_error (send_task_with_context env broker) (λ e. raise (publish_message e))
    s ← gets (λ w. w.signature)
    pure (new_pending_task_state s)
