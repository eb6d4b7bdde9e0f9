-- ===== src/Samples.antt =====
-- Concrete data for the tests: an outside in which every call succeeds, a configuration, a task and
-- a world.
use paota.Common.{◌+◌, ◌*◌, ◌/◌, ◌^◌, true, false, none, some, [], ◌∷◌, arith, leb}
use paota.Common.Int.{pos, pos_part, ◌≤ℤ◌}
use paota.Schema.{Signature, external}
use paota.Config.{AmqpConfig, Config}
use paota.Utils.{Floats}
use paota.World.{Env, World, confirmed}
use paota.Broker.{AmqpBroker}
use paota.Broker.Contract.{amqp_broker}
use paota.Interface.{Broker}
use paota.Registrar.{
  Registrar, FuncType, TaskFunc, returned, func, signature_pointer, error_interface,
}

-- Numbers of nanoseconds stand for the floats.
abbrev pub sample_floats : Floats
sample_floats = record {
  to_int = λ f. pos (f / 10 ^ 9);
  to_uint8 = λ f. f / 10 ^ 9;
  from_int = λ i. pos_part i * 10 ^ 9;
  seconds = λ d. pos_part d;
  le = leb;
}

-- The clock goes on by a second with each call.
abbrev pub sample_env : Env
sample_env = record {
  now = λ i. pos ((1000 + i) * 10 ^ 9);
  new_uuid = λ i. "42";
  marshal = λ s. some (b'{' ∷ b'}' ∷ []);
  unmarshal = λ body. none;
  dial = λ i d. none;
  is_closed = λ i c. false;
  open_channel = λ i c. none;
  confirm_select = λ i. none;
  declare = λ i d. none;
  consume = λ i q t. none;
  publish = λ i s. confirmed;
  publish_unconfirmed = λ i s. none;
  settle = λ i s. none;
  floats = sample_floats;
}

abbrev pub sample_amqp : AmqpConfig
sample_amqp = record {
  url = "amqp://localhost:5672/";
  exchange = "paota_task_exchange";
  exchange_type = "direct";
  queue_declare_args = [];
  queue_binding_args = [];
  binding_key = "paota_task_binding_key";
  prefetch_count = pos 100;
  auto_delete = false;
  delayed_queue = "delay_test";
  failed_queue = "failed_test";
  timeout_queue = "";
  connection_pool_size = pos 2;
  heart_beat_interval = pos 10;
  connection_timeout = pos 5;
}

abbrev pub sample_config : Config
sample_config = record {
  broker = "amqp";
  store = "";
  max_task_execution_duration = pos 10;
  task_queue_name = "paota_task_queue";
  store_queue_name = "";
  amqp = some sample_amqp;
  mongo_db = none;
}

abbrev pub sample_amqp_broker : AmqpBroker
sample_amqp_broker = record { config = sample_config; amqp = sample_amqp }

pub sample_size : pos 1 ≤ℤ sample_amqp.connection_pool_size
sample_size = omega arith

abbrev pub sample_broker : Broker
sample_broker = amqp_broker sample_env sample_amqp_broker sample_size

-- A task that fails each time.
abbrev pub failing : TaskFunc
failing s = (returned (some (external "no luck")), s)

abbrev pub task_type : FuncType
task_type = record {
  ins = signature_pointer ∷ [];
  outs = error_interface ∷ [];
  variadic = false;
  named = false;
}

abbrev pub sample_registrar : Registrar
sample_registrar = record {
  registered_tasks = ("Print", func task_type failing) ∷ [];
  registered_tasks_count = 1;
  config = sample_config;
  amqp = sample_amqp;
}

-- A task with raw arguments that is to be tried ten times.
abbrev pub sample_signature : Signature
sample_signature = record {
  uuid = "task_1";
  name = "Print";
  args = [];
  raw_args = b'7' ∷ [];
  routing_key = "";
  priority = 0;
  retry_count = pos 10;
  retry_timeout = pos 0;
  wait_time = pos 0;
  retries_done = pos 3;
  task_time_out = pos 0;
  ignore_when_task_not_registered = true;
  created_at = some (pos (990 * 10 ^ 9));
  eta = none;
}

abbrev pub world_with : Signature → World
world_with s = record {
  calls = 0;
  signature = s;
  settled = [];
  sent = [];
  published = [];
  declared = [];
  pool = some 900 ∷ some 901 ∷ [];
  watched = [];
  closed = [];
  channels = 0;
}

abbrev pub sample_world : World
sample_world = world_with sample_signature

-- The same task when its retries are over, with a priority and a timeout.
abbrev pub exhausted_signature : Signature
exhausted_signature = record sample_signature {
  priority = 5;
  retries_done = pos 10;
  task_time_out = pos 100;
  eta = some (pos (995 * 10 ^ 9));
}
