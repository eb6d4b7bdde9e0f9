-- ===== src/Provider/Delivery.antt =====
-- `AmqpPublishWithConfirm`: its result and the confirmed messages.
use paota.Common.{ℕ, String, ◌≡◌, ◌≢◌, ◌∙◌, ap, true, some, Option, [], ◌∷◌, ◌++◌, arith}
use paota.Config.{AmqpConfig}
use paota.World.{
  Publishing, Sent, PublishReply, Env, World, Outcome, ok, err, panic, Exec, ◌>>=◌, continue,
  next_call, deferring,
}
use paota.World.Frame.{IsFrame, Keeps, Keeps-ignore, Keeps-next_call}
use paota.Provider.Channels.{create_amqp_channel}
use paota.Provider.Pool.{get_connection_from_pool}
use paota.Provider.Confirm.{
  settle_reply, publish_on_channel, return_connection, with_connection, amqp_publish_with_confirm,
}
use paota.Provider.Effects.{
  create_amqp_channel-Keeps, close_amqp_channel-Keeps, get_connection_from_pool-Keeps,
  release_connection_to_pool-Keeps, discard_connection-Keeps,
}

-- The message is added on success and nothing on a failure; the rest stays.
pub record IsDelivery (s : Sent) (w : World) (r : Outcome (Unit {0})) (w' : World) : Type 0 where
  pub signature_kept : w'.signature ≡ w.signature
  pub settled_kept : w'.settled ≡ w.settled
  pub delivered : r ≡ ok tt → w'.sent ≡ w.sent ++ s ∷ []
  pub refused : r ≢ ok tt → w'.sent ≡ w.sent

abbrev Delivers : Sent → Exec (Unit {0}) → Type 0
Delivers s m = (w : World) → IsDelivery s w (m w).0 (m w).1

module _ (s : Sent) where
  after_frame :
      {u w w' : World} {r : Outcome (Unit {0})}
      → IsFrame u w
      → IsDelivery s w r w'
      → IsDelivery s u r w'
  after_frame k d = record {
    signature_kept = d.signature_kept ∙ k.signature_kept;
    settled_kept = d.settled_kept ∙ k.settled_kept;
    delivered = λ e. d.delivered e ∙ ap (λ l. l ++ s ∷ []) k.sent_kept;
    refused = λ e. d.refused e ∙ k.sent_kept;
  }

  before_frame :
      {u w w' : World} {r : Outcome (Unit {0})}
      → IsDelivery s u r w
      → IsFrame w w'
      → IsDelivery s u r w'
  before_frame d k = record {
    signature_kept = k.signature_kept ∙ d.signature_kept;
    settled_kept = k.settled_kept ∙ d.settled_kept;
    delivered = λ e. k.sent_kept ∙ d.delivered e;
    refused = λ e. k.sent_kept ∙ d.refused e;
  }

  failed_frame :
      {u w : World} {r : Outcome (Unit {0})} → IsFrame u w → r ≢ ok tt → IsDelivery s u r w
  failed_frame k h = record {
    signature_kept = k.signature_kept;
    settled_kept = k.settled_kept;
    delivered = λ e. absurd (h e);
    refused = λ _. k.sent_kept;
  }

  bind-Delivers :
      {A : Type 0} (m : Exec A) (f : A → Exec (Unit {0}))
      → Keeps m
      → ((a : A) → Delivers s (f a))
      → Delivers s (m >>= f)
  unfolding ◌>>=◌
  bind-Delivers {A} m f km df w = go (m w).0 (m w).1 (km.at w)
    where
      go :
          (r : Outcome A) (w' : World)
          → IsFrame w w'
          → IsDelivery s w (continue r f w').0 (continue r f w').1
      go (ok a) w' k = after_frame k (df a w')
      go (err e) w' k = failed_frame k (λ h. cc)
      go panic w' k = failed_frame k (λ h. cc)

  settle_reply-Delivers : (reply : PublishReply) → Delivers s (settle_reply s reply)
  unfolding ◌>>=◌
  settle_reply-Delivers reply w = record {
    signature_kept = ground arith;
    settled_kept = ground arith;
    delivered = ground arith;
    refused = ground arith;
  }

  module _ (env : Env) (conf : Option AmqpConfig) where
    publish_on_channel-Delivers : Delivers s (publish_on_channel env conf s)
    unfolding publish_on_channel deferring
    publish_on_channel-Delivers w =
        before_frame
          (bind-Delivers next_call _ Keeps-next_call (λ i. settle_reply-Delivers (env.publish i s))
            w)
          ((close_amqp_channel-Keeps env).at _)

    return_connection-Keeps :
        (c : ℕ) (r : Outcome (Unit {0})) → Keeps (return_connection env conf c r)
    unfolding return_connection
    return_connection-Keeps c (err e) = Keeps-ignore _ (discard_connection-Keeps env conf c)
    return_connection-Keeps c (ok _) =
        Keeps-ignore _ (release_connection_to_pool-Keeps env conf (some c))
    return_connection-Keeps c panic =
        Keeps-ignore _ (release_connection_to_pool-Keeps env conf (some c))

    with_connection-Delivers :
        (c : ℕ) (m : Exec (Unit {0})) → Delivers s m → Delivers s (with_connection env conf c m)
    with_connection-Delivers c m d w =
        before_frame (d w) ((return_connection-Keeps c (m w).0).at (m w).1)

module _ (env : Env) (conf : Option AmqpConfig) (key : String) (message : Publishing) where
  abbrev copy : String → Sent
  copy exchange = record { exchange = exchange; routing_key = key; message = message }

  -- On success the given message has been confirmed, once and under the given key; on any failure no
  -- message has. The signature and the settlements of deliveries stay.
  pub amqp_publish_with_confirm-IsDelivery :
      (exchange : String) (w : World)
      → IsDelivery
          (record { exchange = exchange; routing_key = key; message = message })
          w
          (amqp_publish_with_confirm env conf key message exchange w).0
          (amqp_publish_with_confirm env conf key message exchange w).1
  unfolding amqp_publish_with_confirm
  amqp_publish_with_confirm-IsDelivery exchange =
      bind-Delivers (copy exchange) (get_connection_from_pool env conf) _
        (get_connection_from_pool-Keeps env conf)
        λ c. with_connection-Delivers (copy exchange) env conf c _ (
          bind-Delivers (copy exchange) (create_amqp_channel env c true) _
            (create_amqp_channel-Keeps env c true)
            (λ _. publish_on_channel-Delivers (copy exchange) env conf))
