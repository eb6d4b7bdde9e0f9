-- ===== src/Provider/Confirm.antt =====
-- `AmqpPublishWithConfirm`.
use paota.Common.{ℕ, String, true, Option, some, [], ◌∷◌, ◌++◌}
use paota.Schema.{failed_to_publish, confirm_channel_closed, not_acked, confirm_timeout}
use paota.Config.{AmqpConfig}
use paota.World.{
  Publishing, Sent, PublishReply, rejected, confirm_closed, not_confirmed, confirmed, silent, Env,
  Outcome, err, Exec, raise, ◌>>=◌, ◌>>◌, ignore, deferring, modify, next_call,
}
use paota.Provider.Channels.{create_amqp_channel, close_amqp_channel}
use paota.Provider.Pool.{get_amqp_connection, release_connection_to_pool, discard_connection}

-- The message is on its way to the server.
abbrev gone_out : Sent → Exec (Unit {0})
gone_out s = modify (λ w. record w { published = w.published ++ s ∷ [] })

-- What the publish and the wait for its confirm come to. Without a confirm the message has been
-- published all the same.
abbrev pub settle_reply : Sent → PublishReply → Exec (Unit {0})
settle_reply s (rejected e) = raise (failed_to_publish e)
settle_reply s confirm_closed = do gone_out s; raise confirm_channel_closed
settle_reply s not_confirmed = do gone_out s; raise not_acked
settle_reply s silent = do gone_out s; raise confirm_timeout
settle_reply s confirmed = do gone_out s; modify (λ w. record w { sent = w.sent ++ s ∷ [] })

module _ (env : Env) (conf : Option AmqpConfig) where
  -- From the publish to the confirm, the channel being closed at the end.
  unfoldable pub publish_on_channel : Sent → Exec (Unit {0})
  publish_on_channel s =
      deferring (close_amqp_channel env) (do i ← next_call; settle_reply s (env.publish i s))

  -- The deferred function: `publishHadError` is set before each return of an error.
  unfoldable pub return_connection : ℕ → Outcome (Unit {0}) → Exec (Unit {0})
  return_connection conn (err _) = ignore (discard_connection env conf conn)
  return_connection conn _ = ignore (release_connection_to_pool env conf (some conn))

  abbrev pub with_connection : ℕ → Exec (Unit {0}) → Exec (Unit {0})
  with_connection conn m w = let (r, w') = m w in (r, (return_connection conn r w').1)

  unfoldable pub amqp_publish_with_confirm : String → Publishing → String → Exec (Unit {0})
  amqp_publish_with_confirm routing_key message exchange = do
    conn ← get_amqp_connection env conf
    with_connection conn (do
      create_amqp_channel env conn true
      publish_on_channel
          (record { exchange = exchange; routing_key = routing_key; message = message }))
