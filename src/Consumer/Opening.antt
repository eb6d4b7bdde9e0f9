-- ===== src/Consumer/Opening.antt =====
-- The start of the consumer, and its end.
use paota.Common.{ℕ, String, ◌≢◌, refl, Option, some, List}
use paota.Common.Int.{pos, ◌≤ℤ◌}
use paota.Schema.{Error}
use paota.World.{Env, World, Outcome, ok, err, panic}
use paota.World.Total.{Total, Total-bind, Total-pure, total_rules}
use paota.Provider.{
  create_consumer, set_channel_qos, close_amqp_channel, request, get_connection_from_pool,
}
use paota.Provider.Total.{
  get_connection_from_pool-Total, release_connection_to_pool-Total, create_amqp_channel-Total,
}
use paota.Broker.{AmqpBroker}
use paota.WorkerGroup.{get_worker_group_name}
use paota.WorkerGroup.Assignment.{IsReady}
use paota.Consumer.{
  Event, Consumer, Turn, goes_on, returns, open_consumer, on_channel, finish, started,
  start_consumer,
}
use paota.Consumer.Loop.{Consumed, going, ended, consume-Consumed}

-- The loop still waits for events, or the function has returned.
pub data Survives : Turn → Type 0 where
  waits : (s : Consumer) → Survives (goes_on s)
  back : (o : Option Error) (s : Consumer) → Survives (returns o s)

module _ (env : Env) (b : AmqpBroker) where
  request_rules_on_channel : (name : String) → Total (on_channel env b name)
  unfolding create_consumer set_channel_qos close_amqp_channel request
  request_rules_on_channel name = search total_rules depth 12

  open_consumer-Total :
      pos 1 ≤ℤ b.amqp.connection_pool_size → (name : String) → Total (open_consumer env b name)
  unfolding open_consumer
  open_consumer-Total size name =
      Total-bind (get_connection_from_pool env (some b.amqp)) _
        (get_connection_from_pool-Total env b.amqp size)
        λ conn.
          Total-bind _ _
            (search
              (
                total_rules, create_amqp_channel-Total, request_rules_on_channel,
                release_connection_to_pool-Total,
              )
              depth 12)
            (λ _. Total-pure conn)

  -- Over a ready group and with a pool size of at least one, `StartConsumer` neither panics nor waits
  -- for ever for a worker, whatever the server answers and whichever events come.
  pub start_consumer-Survives :
      (es : List Event) (s : Consumer)
      → pos 1 ≤ℤ b.amqp.connection_pool_size
      → IsReady s.group
      → Survives (start_consumer env b es s)
  unfolding start_consumer
  start_consumer-Survives es s size ready =
      by_opening (open_consumer env b (get_worker_group_name s.group) s.world).0 _
        ((open_consumer-Total size (get_worker_group_name s.group)).at s.world)
    where
      by_turn :
          (conn : ℕ) (t : Turn) (u : Consumer) → Consumed u es t → Survives (finish env b conn t)
      by_turn conn t u (going v ds a c d e f g h) = waits v
      by_turn conn t u (ended v ds x rest o a c d e f g h) = back o _

      by_opening :
          (r : Outcome ℕ) (w : World)
          → r ≢ panic
          → Survives (started env b es (record s { world = w }) r)
      by_opening (ok conn) w h =
          by_turn conn _ _ (consume-Consumed env es (record s { world = w }) ready)
      by_opening (err e) w h = back (some e) _
      by_opening panic w h = absurd (h refl)
