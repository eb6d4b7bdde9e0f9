-- ===== src/Programs/Publisher.antt =====
-- example/publisher/main.go: sixty goroutines send one task again and again.
use paota.Common.{ℕ, suc, Option, some, List, [], ◌∷◌, true}
use paota.Common.Int.{pos}
use paota.Schema.{Bytes, Signature, Error}
use paota.Config.{Config, empty_config}
use paota.World.{Env, Exec, pure, modify_signature, ◌>>◌}
use paota.Interface.{Broker}
use paota.WorkerPool.{Context, WorkerPool, new_worker_pool_with_config, pool_send_task_with_context}
use paota.Programs.Values.{empty_amqp, empty_signature, discard}

abbrev pub publisher_config : Config
publisher_config = record empty_config {
  broker = "amqp";
  task_queue_name = "paota_task_queue";
  amqp = some (record empty_amqp {
    url = "amqp://localhost:5672/";
    exchange = "paota_task_exchange";
    exchange_type = "direct";
    binding_key = "paota_task_binding_key";
    prefetch_count = pos 100;
    connection_pool_size = pos 10;
    delayed_queue = "delay_test";
  });
}

-- With the JSON of the user.
abbrev pub print_job : Bytes → Signature
print_job user_json = record empty_signature {
  name = "Print";
  raw_args = user_json;
  task_time_out = pos 100;
  retry_count = pos 10;
  ignore_when_task_not_registered = true;
}

-- `context.Background()` is a parameter: its kind depends on the version of Go.
abbrev pub create_publisher : Env → (Config → Option Error) → Context → Exec WorkerPool
create_publisher env validate_struct background =
    new_worker_pool_with_config env validate_struct background 10 "testWorker" publisher_config

-- What the goroutines and `main` do to the task that they share: a send, with its results dropped, and
-- the write between the two batches, which does not wait for the first.
pub data Act : Type 0 where
  send raise_time_out : Act

abbrev pub sends : List Act → ℕ
sends [] = 0
sends (send ∷ acts) = suc (sends acts)
sends (raise_time_out ∷ acts) = sends acts

module _ (env : Env) (broker : Broker) where
  unfoldable pub act : Act → Exec (Unit {0})
  unfolding discard
  act send = discard (pool_send_task_with_context env broker)
  act raise_time_out = modify_signature (λ s. record s { task_time_out = pos 120 })

  -- In some order, each send being one step.
  unfoldable pub publish_all : List Act → Exec (Unit {0})
  unfolding act
  publish_all [] = pure tt
  publish_all (a ∷ acts) = do act a; publish_all acts
