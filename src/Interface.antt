-- ===== src/Interface.antt =====
-- internal/broker/broker_interface.go: what the task registrar uses of a broker. `Publish` is given
-- with what the registrar relies on; `Broker/Contract.antt` fills it with the AMQP broker.
use paota.Common.{◌≡◌, ◌≢◌, [], ◌∷◌, ◌++◌}
use paota.Schema.{Error}
use paota.World.{Sent, World, Outcome, ok, err, panic, Exec}

-- The server has confirmed one message more after a publish that succeeds, under the signature's
-- routing key, and none more after one that fails. It touches no delivery, and changes no more of the signature than an empty routing key.
pub record IsPublish (w : World) (r : Outcome (Unit {0})) (w' : World) : Type 0 where
  pub settled_kept : w'.settled ≡ w.settled
  pub signature_kept : record w'.signature { routing_key = w.signature.routing_key } ≡ w.signature
  pub key_kept : w.signature.routing_key ≢ "" → w'.signature ≡ w.signature
  pub delivered :
      r ≡ ok tt
      → (m : Sent) × (w'.sent ≡ w.sent ++ m ∷ []) × (m.routing_key ≡ w'.signature.routing_key)
  pub refused : (e : Error) → r ≡ err e → w'.sent ≡ w.sent

pub record Broker : Type 0 where
  pub publish : Exec (Unit {0})
  pub publish_lem : (w : World) → IsPublish w (publish w).0 (publish w).1
  pub publish-ne-panic : (w : World) → (publish w).0 ≢ panic
