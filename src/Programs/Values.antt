-- ===== src/Programs/Values.antt =====
-- Zero values of the structs that the programs fill in, and what they do in common.
use paota.Common.{false, none, []}
use paota.Common.Int.{pos}
use paota.Schema.{Signature}
use paota.Config.{AmqpConfig}
use paota.World.{Exec, pure, on_error, ◌>>=◌}
use paota.Registrar.{FuncType, signature_pointer, error_interface}
use paota.Common.{◌∷◌}

-- `config.AMQPConfig{}`
abbrev pub empty_amqp : AmqpConfig
empty_amqp = record {
  url = "";
  exchange = "";
  exchange_type = "";
  queue_declare_args = [];
  queue_binding_args = [];
  binding_key = "";
  prefetch_count = pos 0;
  auto_delete = false;
  delayed_queue = "";
  failed_queue = "";
  timeout_queue = "";
  connection_pool_size = pos 0;
  heart_beat_interval = pos 0;
  connection_timeout = pos 0;
}

-- `schema.Signature{}`
abbrev pub empty_signature : Signature
empty_signature = record {
  uuid = "";
  name = "";
  args = [];
  raw_args = [];
  routing_key = "";
  priority = 0;
  retry_count = pos 0;
  retry_timeout = pos 0;
  wait_time = pos 0;
  retries_done = pos 0;
  task_time_out = pos 0;
  ignore_when_task_not_registered = false;
  created_at = none;
  eta = none;
}

-- `func(*schema.Signature) error`
abbrev pub print_type : FuncType
print_type = record {
  ins = signature_pointer ∷ [];
  outs = error_interface ∷ [];
  variadic = false;
  named = false;
}

-- A call whose results are not looked at.
unfoldable pub discard : {A : Type 0} → Exec A → Exec (Unit {0})
unfolding on_error
discard m = on_error (m >>= λ _. pure tt) (λ _. pure tt)
