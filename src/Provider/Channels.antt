-- ===== src/Provider/Channels.antt =====
-- Channels and the requests that are made on them.
use paota.Common.{ℕ, ◌+◌, ◌-◌, String, Bool, [], ◌∷◌, ◌++◌, if◌then◌else◌}
use paota.Common.Int.{ℤ}
use paota.Config.{Table}
use paota.World.{
  Sent, Declaration, exchange_declare, queue_declare, queue_bind, set_qos, Env, Exec, pure, ◌>>=◌,
  ◌>>◌, fail_if, modify, next_call,
}

module _ (env : Env) where
  -- `CreateAmqpChannel`; the channel's own handle is not needed.
  unfoldable pub create_amqp_channel : ℕ → Bool → Exec (Unit {0})
  create_amqp_channel conn confirm = do
    i ← next_call
    fail_if (env.open_channel i conn)
    modify (λ w. record w { channels = w.channels + 1 })
    if confirm then (do j ← next_call; fail_if (env.confirm_select j)) else pure tt

  -- The error of `channel.Close` is dropped by every caller.
  unfoldable pub close_amqp_channel : Exec (Unit {0})
  close_amqp_channel = modify (λ w. record w { channels = w.channels - 1 })

  -- A request on a channel, recorded when the server has granted it.
  unfoldable pub request : Declaration → Exec (Unit {0})
  request d = do
    i ← next_call
    fail_if (env.declare i d)
    modify (λ w. record w { declared = w.declared ++ d ∷ [] })

  unfoldable pub declare_exchange : String → String → Exec (Unit {0})
  unfolding request
  declare_exchange name kind = request (exchange_declare name kind)

  unfoldable pub declare_queue : String → Table → Exec (Unit {0})
  unfolding request
  declare_queue name args = request (queue_declare name args)

  unfoldable pub queue_exchange_bind : String → String → String → Exec (Unit {0})
  unfolding request
  queue_exchange_bind queue key exchange = request (queue_bind queue key exchange)

  unfoldable pub set_channel_qos : ℤ → Exec (Unit {0})
  unfolding request
  set_channel_qos prefetch = request (set_qos prefetch)

  -- The deliveries come over a channel of their own.
  unfoldable pub create_consumer : String → String → Exec (Unit {0})
  create_consumer queue tag = do i ← next_call; fail_if (env.consume i queue tag)

  -- A publish without confirms: nothing is known of the message but the client's error.
  unfoldable pub amqp_publish : Sent → Exec (Unit {0})
  amqp_publish s = do i ← next_call; fail_if (env.publish_unconfirmed i s)
