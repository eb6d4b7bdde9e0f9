-- ===== src/Provider/Rotation.antt =====
-- What a publish does to the pool when the connection at its front is alive.
use paota.Common.{ℕ, String, ◌≡◌, refl, false, Option, none, some, List, [], ◌∷◌, ◌++◌}
use paota.Schema.{confirm_timeout}
use paota.Config.{AmqpConfig}
use paota.World.{Publishing, Sent, silent, confirmed, Env, World, ok, err, ◌>>=◌, on_error}
use paota.Provider.Channels.{create_amqp_channel, close_amqp_channel}
use paota.Provider.Pool.{get_connection_from_pool, release_connection_to_pool, discard_connection}
use paota.Provider.Confirm.{publish_on_channel, return_connection, amqp_publish_with_confirm}

-- The connection stays open, and channels with confirms can be opened on it.
pub record IsAlive (env : Env) (c : ℕ) : Type 0 where
  pub stays_open : (i : ℕ) → env.is_closed i c ≡ false
  pub channel : (i : ℕ) → env.open_channel i c ≡ none
  pub confirms : (i : ℕ) → env.confirm_select i ≡ none

module _ (env : Env) (conf : Option AmqpConfig) (key : String) (message : Publishing)
    (exchange : String) where
  -- Over a live connection a publish that the server confirms succeeds, and moves the connection from
  -- the front of the pool to its end.
  pub publish_confirmed-rotates :
      (w : World) (c : ℕ) (rest : List (Option ℕ))
      → w.pool ≡ some c ∷ rest
      → IsAlive env c
      → ((i : ℕ) (s : Sent) → env.publish i s ≡ confirmed)
      → ((amqp_publish_with_confirm env conf key message exchange w).0 ≡ ok tt)
        × ((amqp_publish_with_confirm env conf key message exchange w).1.pool ≡ rest ++ some c ∷ [])
  unfolding amqp_publish_with_confirm get_connection_from_pool create_amqp_channel
      close_amqp_channel publish_on_channel return_connection release_connection_to_pool ◌>>=◌
      on_error
  publish_confirmed-rotates w c rest pool live agrees =
      rw (pool, live.stays_open, live.channel, live.confirms, agrees, live.stays_open) (refl, refl)

  -- Over a live connection at the front of the pool, a publish whose confirm does not come in time
  -- fails, and the connection is closed and out of the pool; yet the message has gone out, once, and
  -- no message more is confirmed.
  pub publish_silent-published :
      (w : World) (c : ℕ) (rest : List (Option ℕ))
      → w.pool ≡ some c ∷ rest
      → IsAlive env c
      → ((i : ℕ) (s : Sent) → env.publish i s ≡ silent)
      → let o = (amqp_publish_with_confirm env conf key message exchange w).0 in
        let w' = (amqp_publish_with_confirm env conf key message exchange w).1 in
        (o ≡ err confirm_timeout)
        × (w'.published
            ≡ w.published
              ++ record { exchange = exchange; routing_key = key; message = message } ∷ [])
        × (w'.sent ≡ w.sent)
        × (w'.pool ≡ rest)
        × (w'.closed ≡ c ∷ w.closed)
  unfolding amqp_publish_with_confirm get_connection_from_pool create_amqp_channel
      close_amqp_channel publish_on_channel return_connection discard_connection ◌>>=◌ on_error
  publish_silent-published w c rest pool live quiet =
      rw (pool, live.stays_open, live.channel, live.confirms, quiet) (refl, refl, refl, refl, refl)
