-- ===== src/Broker/Publish.antt =====
-- `Publish` and `processDelivery`.
use paota.Common.{ℕ, Option, none, some, str_eq, if◌then◌else◌}
use paota.Common.Int.{ℤ, pos, ltb_ℤ}
use paota.Schema.{Bytes, Signature}
use paota.World.{Env, Exec, lift, pure, ◌>>=◌, ◌>>◌, gets, modify_signature}
use paota.Config.{Table}
use paota.Provider.{amqp_publish_with_confirm}
use paota.Broker.Defs.{AmqpBroker, get_routing_key, get_exchange_name}
use paota.Broker.Message.{prepare_message_body_and_headers, get_task_ttl}

-- `amqp.Persistent`
abbrev pub persistent : ℕ
persistent = 2

abbrev pub expiration_of : ℤ → Option ℤ
expiration_of delay = if ltb_ℤ (pos 0) delay then some delay else none

module _ (env : Env) (b : AmqpBroker) where
  abbrev pub default_routing_key : ℤ → Signature → Exec (Unit {0})
  default_routing_key delay sig =
      if ltb_ℤ (pos 0) delay
      then pure tt
      else if str_eq sig.routing_key ""
      then modify_signature (λ s. record s { routing_key = get_routing_key b })
      else pure tt

  -- From the key to the publish.
  unfoldable pub publish_keyed : Signature → Bytes × Table → ℤ → Exec (Unit {0})
  publish_keyed sig parts delay = do
    default_routing_key delay sig
    key ← gets (λ w. w.signature.routing_key)
    amqp_publish_with_confirm env (some b.amqp) key
        (record {
          content_type = "application/json";
          priority = sig.priority;
          body = parts.0;
          delivery_mode = persistent;
          headers = parts.1;
          expiration = expiration_of delay;
        })
        (get_exchange_name b)

  unfoldable pub publish_parts : Signature → Bytes × Table → Exec (Unit {0})
  publish_parts sig parts = do delay ← get_task_ttl env sig; publish_keyed sig parts delay

  unfoldable pub publish : Exec (Unit {0})
  publish = do
    sig ← gets (λ w. w.signature)
    parts ← lift (prepare_message_body_and_headers env sig)
    publish_parts sig parts
