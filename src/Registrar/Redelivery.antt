-- ===== src/Registrar/Redelivery.antt =====
-- A task with raw arguments over the AMQP broker: what a consumer reads of the message it is sent in.
use paota.Common.Int.{pos, ◌≤ℤ◌}
use paota.Schema.{Value}
use paota.World.{Sent, Env, World}
use paota.Broker.{AmqpBroker}
use paota.Registrar.Tasks.{Registrar}
use paota.Registrar.Process.{Delivery}
use paota.Registrar.RoundTrip.{IsWire, carried}

module _ (env : Env) (r : Registrar) (b : AmqpBroker) (size : pos 1 ≤ℤ b.amqp.connection_pool_size)
    (wire : Value → Value) (lossless : IsWire wire) where
  -- The message as it arrives.
  abbrev pub arrived : Sent → Delivery
  arrived m = record { headers = carried wire m.message.headers; body = m.message.body }
