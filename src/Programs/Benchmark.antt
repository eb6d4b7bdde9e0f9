-- ===== src/Programs/Benchmark.antt =====
-- bench/amqpnostorage/setup.go: the worker pool of the benchmarks.
use paota.Common.{Option, none, some}
use paota.Common.Int.{pos}
use paota.Schema.{Error}
use paota.Config.{Config, ConfigProvider, empty_config, set_application_config, get_config_provider}
use paota.World.{Env, Exec, pure, ◌>>=◌}
use paota.WorkerPool.{Context, WorkerPool, new_worker_pool}
use paota.Programs.Values.{empty_amqp}

abbrev pub benchmark_config : Config
benchmark_config = record empty_config {
  broker = "amqp";
  task_queue_name = "paota_task_queue";
  amqp = some (record empty_amqp {
    url = "amqp://localhost:55005/";
    exchange = "paota_task_exchange";
    exchange_type = "direct";
    binding_key = "paota_task_binding_key";
    prefetch_count = pos 100;
    connection_pool_size = pos 10;
  });
}

module _ (env : Env) (validate_struct : Config → Option Error) (background : Context) where
  -- A nil pool where the configuration is refused; a pool that is not created ends the process, which
  -- is an error here.
  abbrev pub with_benchmark : ConfigProvider × Option Error → Exec (Option WorkerPool)
  with_benchmark (provider, some e) = pure none
  with_benchmark (provider, none) =
      new_worker_pool env (some provider) background 10 "testWorker" >>= λ wp. pure (some wp)

  unfoldable pub setup_worker_pool : Option ConfigProvider → Exec (Option WorkerPool)
  setup_worker_pool global =
      with_benchmark
        (set_application_config validate_struct (get_config_provider global).0 benchmark_config)
