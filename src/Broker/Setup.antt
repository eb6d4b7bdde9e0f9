-- ===== src/Broker/Setup.antt =====
-- `setupExchangeQueueBinding` and `NewAMQPBroker`.
use paota.Common.{String, false, none, some, [], ◌∷◌, str_eq, if◌then◌else◌}
use paota.Schema.{string}
use paota.Config.{Config, Table}
use paota.World.{Env, Exec, pure, die, ◌>>=◌, ◌>>◌, ignore, deferring}
use paota.Provider.{
  get_amqp_connection, release_connection_to_pool, create_amqp_channel, close_amqp_channel,
  declare_exchange, declare_queue, queue_exchange_bind, create_connection_pool,
}
use paota.Broker.Defs.{
  AmqpBroker, get_task_queue, get_routing_key, get_delayed_queue, get_failed_queue,
  get_timeout_queue, get_delayed_queue_dlx, get_exchange_name, get_exchange_type,
}

module _ (env : Env) (b : AmqpBroker) where
  -- A queue whose name is its binding key; none where no name is configured.
  abbrev pub declare_bound_queue : String → Exec (Unit {0})
  declare_bound_queue name = if str_eq name "" then pure tt else (do
    declare_queue env name b.amqp.queue_declare_args
    queue_exchange_bind env name name b.amqp.exchange)

  -- Where expired messages go.
  abbrev pub delayed_queue_args : Table
  delayed_queue_args =
      ("x-dead-letter-exchange", string (get_delayed_queue_dlx b))
      ∷ ("x-dead-letter-routing-key", string (get_routing_key b))
      ∷ []

  unfoldable pub declare_topology : Exec (Unit {0})
  unfolding declare_exchange declare_queue queue_exchange_bind get_routing_key get_task_queue
  declare_topology = do
    declare_exchange env (get_exchange_name b) (get_exchange_type b)
    declare_queue env (get_task_queue b) b.amqp.queue_declare_args
    declare_queue env (get_delayed_queue b) delayed_queue_args
    queue_exchange_bind env (get_task_queue b) b.amqp.binding_key b.amqp.exchange
    queue_exchange_bind env (get_delayed_queue b) (get_delayed_queue b) (get_delayed_queue_dlx b)
    declare_bound_queue (get_failed_queue b)
    declare_bound_queue (get_timeout_queue b)

  unfoldable pub setup_exchange_queue_binding : Exec (Unit {0})
  setup_exchange_queue_binding = do
    conn ← get_amqp_connection env (some b.amqp)
    deferring (ignore (release_connection_to_pool env (some b.amqp) (some conn)))
        (do create_amqp_channel env conn false; deferring (close_amqp_channel env) declare_topology)

unfoldable pub new_amqp_broker : Env → Config → Exec AmqpBroker
new_amqp_broker env config = do
  create_connection_pool env config.amqp
  b ← elim config.amqp [ none ↦ die | some amqp ↦ pure (record { config = config; amqp = amqp }) ]
  setup_exchange_queue_binding env b
  pure b
