-- ===== src/Broker/Defs.antt =====
-- The broker's data and the names that it takes from the configuration.
use paota.Common.{String, Bool, str_eq, if◌then◌else◌}
use paota.Common.Int.{ℤ}
use paota.Config.{AmqpConfig, Config}

pub record AmqpBroker : Type 0 where
  pub config : Config
  pub amqp : AmqpConfig

unfoldable pub get_task_queue : AmqpBroker → String
get_task_queue b = b.config.task_queue_name

-- The pointee is there, so the test on nil has passed.
unfoldable pub is_direct_exchange : AmqpBroker → Bool
is_direct_exchange b = str_eq b.amqp.exchange_type "direct"

unfoldable pub get_routing_key : AmqpBroker → String
unfolding get_task_queue is_direct_exchange
get_routing_key b =
    if str_eq b.amqp.binding_key ""
    then get_task_queue b
    else if is_direct_exchange b
    then b.amqp.binding_key
    else get_task_queue b

abbrev pub get_delayed_queue : AmqpBroker → String
get_delayed_queue b = b.amqp.delayed_queue

abbrev pub get_failed_queue : AmqpBroker → String
get_failed_queue b = b.amqp.failed_queue

abbrev pub get_timeout_queue : AmqpBroker → String
get_timeout_queue b = b.amqp.timeout_queue

abbrev pub get_queue_prefetch_count : AmqpBroker → ℤ
get_queue_prefetch_count b = b.amqp.prefetch_count

abbrev pub get_delayed_queue_dlx : AmqpBroker → String
get_delayed_queue_dlx b = b.amqp.exchange

abbrev pub get_exchange_name : AmqpBroker → String
get_exchange_name b = b.amqp.exchange

abbrev pub get_exchange_type : AmqpBroker → String
get_exchange_type b = b.amqp.exchange_type
