-- ===== src/Programs/Consumer.antt =====
-- example/consumer/main.go: a worker pool with one task, which sleeps for twenty seconds.
use paota.Common.{Option, none, some, List, [], ◌∷◌, true, String}
use paota.Common.Int.{pos}
use paota.Schema.{Error, string}
use paota.Config.{
  AmqpConfig, Config, ConfigProvider, empty_config, set_application_config, get_config_provider,
}
use paota.World.{Env, Outcome, ok, err, panic, Exec, pure, raise, die, ◌>>=◌}
use paota.Schema.{Signature}
use paota.Registrar.{Task, TaskFunc, returned, takes, func}
use paota.WorkerGroup.{Call}
use paota.WorkerPool.{Context, WorkerPool, new_worker_pool, pool_register_tasks, start_pool}
use paota.Programs.Values.{empty_amqp, empty_signature, print_type}

abbrev pub consumer_amqp : AmqpConfig
consumer_amqp = record empty_amqp {
  url = "amqp://localhost:5672/";
  exchange = "paota_task_exchange";
  exchange_type = "direct";
  binding_key = "paota_task_binding_key";
  prefetch_count = pos 100;
  connection_pool_size = pos 10;
  timeout_queue = "timeout_queue";
  delayed_queue = "delay_test";
}

abbrev pub consumer_config : Config
consumer_config = record empty_config {
  broker = "amqp";
  task_queue_name = "paota_task_queue";
  amqp = some consumer_amqp;
}

unfoldable pub print : TaskFunc
print s = (takes (pos 20) (returned none), s)

abbrev pub tasks : List (String × Task)
tasks = ("Print", func print_type print) ∷ []

-- The job of `Publish`, which is not called; the text is the JSON of the user.
abbrev pub publish_job : String → Signature
publish_job user_json = record empty_signature {
  name = "Print";
  args = record { name = ""; type = "string"; value = string user_json } ∷ [];
  retry_count = pos 10;
  routing_key = "consumer_publisher";
  ignore_when_task_not_registered = true;
}

abbrev pub registered : Outcome (Unit {0}) × WorkerPool → Exec (Call WorkerPool)
registered (ok _, wp) = pure (start_pool wp)
registered (err e, wp) = raise e
registered (panic, wp) = die

module _ (env : Env) (validate_struct : Config → Option Error) (background : Context) where
  abbrev pub with_provider : ConfigProvider × Option Error → Exec (Call WorkerPool)
  with_provider (provider, some e) = raise e
  with_provider (provider, none) = do
    wp ← new_worker_pool env (some provider) background 10 "testWorker"
    registered (pool_register_tasks wp tasks)

  -- From the global provider; an early return is an error here. The result is that of `Start`, up to
  -- its wait for a signal.
  unfoldable pub consumer_main : Option ConfigProvider → Exec (Call WorkerPool)
  consumer_main global =
      with_provider
        (set_application_config validate_struct (get_config_provider global).0 consumer_config)
