-- ===== src/Programs/SelfFeeding.antt =====
-- example/consumer_publisher/main.go: a task that sends a hundred more of its kind.
use paota.Common.{ℕ, zero, suc, String, Option, some, [], ◌∷◌, true}
use paota.Common.Int.{pos}
use paota.Schema.{Signature, Error, string}
use paota.Config.{AmqpConfig, Config, empty_config}
use paota.World.{Env, Exec, pure, modify_signature, ◌>>=◌, ◌>>◌}
use paota.Interface.{Broker}
use paota.WorkerPool.{
  Context, WorkerPool, new_worker_pool_with_config, pool_send_task_with_context,
  pool_register_tasks,
}
use paota.Programs.Values.{empty_amqp, empty_signature, print_type, discard}
use paota.Programs.Consumer.{registered}
use paota.Registrar.{TaskFunc, func}
use paota.WorkerGroup.{Call}

abbrev pub self_feeding_amqp : AmqpConfig
self_feeding_amqp = record empty_amqp {
  url = "amqp://localhost:5672/";
  exchange = "paota_task_exchange";
  exchange_type = "direct";
  binding_key = "consumer_publisher";
  prefetch_count = pos 100;
  connection_pool_size = pos 10;
  delayed_queue = "delay_consumer_publisher";
}

abbrev pub self_feeding_config : Config
self_feeding_config = record empty_config {
  broker = "amqp";
  task_queue_name = "paota_task_queue";
  amqp = some self_feeding_amqp;
}

abbrev pub create_self_feeding : Env → (Config → Option Error) → Context → Exec WorkerPool
create_self_feeding env validate_struct background =
    new_worker_pool_with_config env validate_struct background 10 "testWorker" self_feeding_config

abbrev pub feeding_job : String → Signature
feeding_job user_json = record empty_signature {
  name = "Print";
  args = record { name = ""; type = "string"; value = string user_json } ∷ [];
  retry_count = pos 10;
  routing_key = "consumer_publisher_";
  ignore_when_task_not_registered = true;
}

-- The program, `print` being its task; an early return and an exit are errors here. The result is that
-- of `Start`, up to its wait for a signal.
unfoldable pub self_feeding_main :
    Env → (Config → Option Error) → Context → TaskFunc → Exec (Call WorkerPool)
self_feeding_main env validate_struct background print = do
  wp ← create_self_feeding env validate_struct background
  registered (pool_register_tasks wp (("Print", func print_type print) ∷ []))

module _ (env : Env) (broker : Broker) where
  -- The loop of `Publish`, with so many rounds left.
  unfoldable pub feed : ℕ → Exec (Unit {0})
  unfolding discard
  feed zero = pure tt
  feed (suc n) = do discard (pool_send_task_with_context env broker); feed n

  -- `Publish`, on a task of its own.
  unfoldable pub feed_publish : String → Exec (Unit {0})
  feed_publish user_json = do modify_signature (λ s. feeding_job user_json); feed 100
