-- ===== src/Registrar/Published.antt =====
-- A send over the AMQP broker that succeeds is the publish of the completed signature.
use paota.Common.{◌≡◌, refl}
use paota.Common.Int.{pos, ◌≤ℤ◌}
use paota.Schema.{publish_message}
use paota.World.{Env, World, Outcome, ok, err, panic, ◌>>=◌, caught, on_error, raise}
use paota.Broker.{AmqpBroker, publish}
use paota.Broker.Contract.{amqp_broker}
use paota.Registrar.Send.{complete_signature, send_task, send_task_with_context}
use paota.Registrar.Sending.{complete_signature-Completed}

wrapped_ok :
    (o : Outcome (Unit {0})) (w : World)
    → (caught o (λ e. raise (publish_message e)) w).0 ≡ ok tt
    → (o ≡ ok tt) × (caught o (λ e. raise (publish_message e)) w ≡ (o, w))
unfolding raise
wrapped_ok (ok x) w h = (h, refl)
wrapped_ok (err e) w h = absurd (cc)
wrapped_ok panic w h = absurd (cc)

pub send_task-publish :
    (env : Env) (b : AmqpBroker) (size : pos 1 ≤ℤ b.amqp.connection_pool_size) (w : World)
    → (send_task env (amqp_broker env b size) w).0 ≡ ok tt
    → let w₁ = (complete_signature env (amqp_broker env b size) w).1 in
      ((publish env b w₁).0 ≡ ok tt) × (send_task env (amqp_broker env b size) w ≡ publish env b w₁)
unfolding send_task send_task_with_context ◌>>=◌ on_error
send_task-publish env b size w done =
    let c = complete_signature-Completed env (amqp_broker env b size) w in
    let w₁ = (complete_signature env (amqp_broker env b size) w).1 in
    let sent_off : (caught (publish env b w₁).0 (λ e. raise (publish_message e))
          (publish env b w₁).1).0
        ≡ ok tt =
      rw c.done at done in
    let (published, same) = wrapped_ok (publish env b w₁).0 (publish env b w₁).1 sent_off in
    (published, rw c.done same)
