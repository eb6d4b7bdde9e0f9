-- ===== src/Registrar/FailedQueue.antt =====
-- The failed queue of the registrar over the AMQP broker.
use paota.Common.{
  String, ◌≡◌, ◌≢◌, sym, ◌∙◌, ap, subst, Bool-cases, inl, inr, true, false, some, [], ◌∷◌, ◌++◌,
  arith, ltb, eq_iff, str_eq,
}
use paota.Common.Int.{pos, ◌≤ℤ◌, eqb_ℤ}
use paota.Schema.{Time, Signature}
use paota.World.{Sent, Env, World, ok, ◌>>=◌}
use paota.Broker.{AmqpBroker, is_hurried}
use paota.Broker.Contract.{amqp_broker}
use paota.Broker.Expiry.{publish_hurried}
use paota.Registrar.Tasks.{Registrar}
use paota.Registrar.Send.{complete_signature, send_task}
use paota.Registrar.Retry.{retries_exhausted, retry_task, push_to_failed_queue}
use paota.Registrar.Published.{send_task-publish}
use paota.Registrar.Retries.{with_key}
use paota.Registrar.Sending.{complete_signature-Completed}

-- A priority above one, and a timeout.
pub record IsUrgent (s : Signature) : Type 0 where
  pub priority : ltb 1 s.priority ≡ true
  pub timed : eqb_ℤ s.task_time_out (pos 0) ≡ false

stamped_hurried :
    (s : Signature) (id : String) (created : Time)
    → IsUrgent s
    → is_hurried (record s { uuid = id; created_at = some created }) ≡ true
stamped_hurried s id created u = ground arith

module _ (env : Env) (b : AmqpBroker) (size : pos 1 ≤ℤ b.amqp.connection_pool_size) where
  abbrev ShortLived : World → World → String → Type 0
  ShortLived w w' key =
      (m : Sent) × (w'.sent ≡ w.sent ++ m ∷ [])
      × (m.routing_key ≡ key)
      × (m.message.expiration ≡ some (pos 5))

  send_task_urgent :
      (w : World) (t : Time)
      → w.signature.eta ≡ some t
      → IsUrgent w.signature
      → (send_task env (amqp_broker env b size) w).0 ≡ ok tt
      → ShortLived w (send_task env (amqp_broker env b size) w).1 w.signature.routing_key
  send_task_urgent w t due u done =
      let c = complete_signature-Completed env (amqp_broker env b size) w in
      let w₁ = (complete_signature env (amqp_broker env b size) w).1 in
      let (published, same) = send_task-publish env b size w done in
      let (m, added, expires, key) =
        publish_hurried env b w₁ t (ap (λ (s : Signature). s.eta) c.signature_completed ∙ due)
          (subst (λ s. is_hurried s ≡ true) (sym c.signature_completed)
            (stamped_hurried w.signature c.id c.created u))
          published in
      rw same (
        m,
        added ∙ ap (λ l. l ++ m ∷ []) c.sent_kept,
        key ∙ ap (λ (s : Signature). s.routing_key) c.signature_completed,
        expires,
      )

  -- A task that has been retried keeps the ETA of its last retry. If it also has a priority above
  -- one and a timeout, then once its retries are exhausted the copy for the failed queue has five
  -- milliseconds to live there.
  pub failed_task_expires :
      (r : Registrar) (w : World) (t : Time)
      → retries_exhausted w.signature ≡ true
      → r.amqp.failed_queue ≢ ""
      → w.signature.eta ≡ some t
      → IsUrgent w.signature
      → (retry_task env r (amqp_broker env b size) w).0 ≡ ok tt
      → ShortLived w (retry_task env r (amqp_broker env b size) w).1 r.amqp.failed_queue
  unfolding retry_task push_to_failed_queue ◌>>=◌
  failed_task_expires r w t over there due u done =
      elim (Bool-cases (str_eq r.amqp.failed_queue "")) [
        | inl missing ↦ absurd (there ((eq_iff r.amqp.failed_queue "").0 missing))
        | inr set ↦
            rw (over, set)
              (send_task_urgent (with_key env r (amqp_broker env b size) r.amqp.failed_queue w) t
                due (record { priority = u.priority; timed = u.timed }) (rw (over, set) at done))
      ]
