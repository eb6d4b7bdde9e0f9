-- ===== src/Registrar/Routing.antt =====
-- Where a message that the registrar sends or passes on goes: its routing key leads to a queue.
use paota.Common.{
  String, ◌≡◌, ◌≢◌, refl, sym, ◌∙◌, ap, subst, ◌⊎◌, inl, inr, List, [], ◌∷◌, ◌++◌, true, false,
  none, Bool-cases, str_eq, eq_iff,
}
use paota.Common.Int.{pos, ltb_ℤ, ◌≤ℤ◌}
use paota.Schema.{Signature, Time}
use paota.Config.{AmqpConfig}
use paota.World.{Declaration, Sent, Env, World, Outcome, ok, err, panic, ◌>>=◌}
use paota.Interface.{Broker}
use paota.Broker.{AmqpBroker, setup_exchange_queue_binding, is_direct_exchange, get_routing_key}
use paota.Broker.Topology.{topology}
use paota.Broker.Contract.{amqp_broker, published_key, task_ttl, message_of}
use paota.Broker.Expiry.{publish-Outgoing}
use paota.Broker.Routing.{
  IsRouted, declared, setup-IsRouted, default-IsRouted, delayed-IsRouted, failed-IsRouted,
  timeout-IsRouted,
}
use paota.Registrar.Tasks.{Registrar}
use paota.Registrar.Send.{complete_signature, send_task}
use paota.Registrar.Retry.{
  get_retry_interval, retries_exhausted, retry_task, schedule_retry, push_to_timeout_amqp_queue,
}
use paota.Registrar.Sending.{Sends, send_task-Sends, Completed, complete_signature-Completed}
use paota.Registrar.Published.{send_task-publish}
use paota.Registrar.Retries.{
  RetryCase, skipped, buried, delayed_again, sent_at_once, retry_task-RetryCase, next_interval,
}

-- No message more is confirmed, or one under a key that leads to a queue.
pub data Forwarded (ds : List Declaration) (exchange : String) (w w' : World) : Type 0 where
  kept : w'.sent ≡ w.sent → Forwarded ds exchange w w'
  forwarded :
      (m : Sent)
      → w'.sent ≡ w.sent ++ m ∷ []
      → IsRouted ds exchange m.routing_key
      → Forwarded ds exchange w w'

Sends-Forwarded :
    (ds : List Declaration) (exchange : String) (w u : World) (o : Outcome (Unit {0})) (w' : World)
    → u.sent ≡ w.sent
    → u.signature.routing_key ≢ ""
    → IsRouted ds exchange u.signature.routing_key
    → Sends u o w'
    → Forwarded ds exchange w w'
Sends-Forwarded ds exchange w u (ok x) w' same named routed s =
    let (m, added, key) = s.delivered refl in
    forwarded m (added ∙ ap (λ l. l ++ m ∷ []) same)
      (subst (IsRouted ds exchange) (sym (key ∙ s.key_kept named)) routed)
Sends-Forwarded ds exchange w u (err e) w' same named routed s = kept (s.refused e refl ∙ same)
Sends-Forwarded ds exchange w u panic w' same named routed s = absurd (s.returns refl)

-- The task's own key leads to a queue, or it has none and no ETA.
abbrev pub IsAddressed : List Declaration → String → Signature → Type 0
IsAddressed ds exchange s =
    (IsRouted ds exchange s.routing_key) ⊎ ((s.routing_key ≡ "") × (s.eta ≡ none))

module _ (env : Env) (b : AmqpBroker) (size : pos 1 ≤ℤ b.amqp.connection_pool_size) (before : World)
    (set_up : (setup_exchange_queue_binding env b before).0 ≡ ok tt)
    (direct : is_direct_exchange b ≡ true) (bound : b.amqp.binding_key ≢ "") where
  abbrev Routed : String → Type 0
  Routed key = IsRouted (declared env b before) b.amqp.exchange key

  abbrev Forwards : World → World → Type 0
  Forwards w w' = Forwarded (declared env b before) b.amqp.exchange w w'

  key-Routed :
      (s : Signature) (now : Time)
      → IsAddressed (declared env b before) b.amqp.exchange s
      → Routed (published_key env b (task_ttl s now) s.routing_key)
  key-Routed s now (inr (unset, undue)) =
      rw (undue, unset)
        (setup-IsRouted env b before (get_routing_key b) set_up (default-IsRouted b direct bound))
  key-Routed s now (inl routed) = elim (Bool-cases (ltb_ℤ (pos 0) (task_ttl s now))) [
    | inl later ↦ rw later routed
    | inr soon ↦ elim (Bool-cases (str_eq s.routing_key "")) [
      | inl unset ↦
          rw (soon, unset)
            (setup-IsRouted env b before (get_routing_key b) set_up
              (default-IsRouted b direct bound))
      | inr named ↦ rw (soon, named) routed
    ]
  ]

  -- Over the broker that has been set up.
  abbrev broker : Broker
  broker = amqp_broker env b size

  -- What a client sends, if the task's own key leads to a queue or it has neither a key nor an ETA.
  pub send_task-Forwarded :
      (w : World)
      → IsAddressed (declared env b before) b.amqp.exchange w.signature
      → Forwards w (send_task env broker w).1
  send_task-Forwarded w addressed = by_outcome (send_task env broker w).0 refl
    where
      c : Completed w (complete_signature env broker w).0 (complete_signature env broker w).1
      c = complete_signature-Completed env broker w

      by_outcome :
          (o : Outcome (Unit {0}))
          → (send_task env broker w).0 ≡ o
          → Forwards w (send_task env broker w).1
      by_outcome panic e = absurd ((send_task-Sends env broker w).returns e)
      by_outcome (err f) e = kept ((send_task-Sends env broker w).refused f e)
      by_outcome (ok x) e =
          let w₁ = (complete_signature env broker w).1 in
          let (published, same) = send_task-publish env b size w e in
          let p = publish-Outgoing env b w₁ published in
          let m =
            message_of env b w₁.signature p.parts (task_ttl w₁.signature (env.now w₁.calls)) in
          rw same (
            forwarded m (p.added ∙ ap (λ l. l ++ m ∷ []) c.sent_kept) (
              key-Routed w₁.signature (env.now w₁.calls) (
                subst (IsAddressed (declared env b before) b.amqp.exchange)
                  (sym c.signature_completed) addressed)))

  module _ (r : Registrar) (same : r.amqp ≡ b.amqp) where
    retry_task-at_once :
        (w : World)
        → retries_exhausted w.signature ≡ false
        → ltb_ℤ (pos 0) (next_interval w.signature) ≡ false
        → retry_task env r broker w ≡ send_task env broker w
    unfolding retry_task schedule_retry ◌>>=◌ get_retry_interval
    retry_task-at_once w left now = rw (left, now)

    -- A queue that the registrar knows from the configuration of the broker.
    queue-Routed :
        (name : AmqpConfig → String)
        → (name b.amqp ≢ "" → IsRouted (topology b) b.amqp.exchange (name b.amqp))
        → name r.amqp ≢ ""
        → Routed (name r.amqp)
    queue-Routed name routed there =
        subst (λ (x : AmqpConfig). Routed (name x)) (sym same)
          (setup-IsRouted env b before (name b.amqp) set_up
            (routed (subst (λ (x : AmqpConfig). name x ≢ "") same there)))

    -- Once a broker with a direct exchange, a binding key and a delayed queue is set up: whatever a
    -- retry sends, to the failed queue, to the delayed queue or at once, goes out under a key that
    -- leads to a queue, if the task's own key does or the task has neither a key nor an ETA.
    pub retry_task-Forwarded :
        (w : World)
        → b.amqp.delayed_queue ≢ ""
        → IsAddressed (declared env b before) b.amqp.exchange w.signature
        → Forwards w (retry_task env r broker w).1
    retry_task-Forwarded w there addressed = by_case (retry_task-RetryCase env r broker w) refl
      where
        by_case :
            {o : Outcome (Unit {0})} {w' : World}
            → RetryCase env r broker w o w'
            → (retry_task env r broker w).1 ≡ w'
            → Forwards w w'
        by_case (skipped over a c e) _ = kept (ap (λ (v : World). v.sent) e)
        by_case (buried over a s) _ =
            Sends-Forwarded (declared env b before) b.amqp.exchange w _ _ _ refl a
              (queue-Routed (λ x. x.failed_queue) (failed-IsRouted b) a) s
        by_case (delayed_again left a s) _ =
            let set : r.amqp.delayed_queue ≢ "" =
              subst (λ (x : AmqpConfig). x.delayed_queue ≢ "") (sym same) there in
            Sends-Forwarded (declared env b before) b.amqp.exchange w _ _ _ refl set
              (queue-Routed (λ x. x.delayed_queue) (λ _. delayed-IsRouted b) set) s
        by_case (sent_at_once left now s) e =
            subst (Forwards w)
              (ap (λ (x : Outcome (Unit {0}) × World). x.1) (sym (retry_task-at_once w left now))
                ∙ e)
              (send_task-Forwarded w addressed)

    -- So does what a late task sends to the timeout queue.
    pub push_to_timeout-Forwarded :
        (w : World) → Forwards w (push_to_timeout_amqp_queue env r broker w).1
    unfolding push_to_timeout_amqp_queue ◌>>=◌
    push_to_timeout-Forwarded w = elim (Bool-cases (str_eq r.amqp.timeout_queue "")) [
      | inl missing ↦ rw (push_to_timeout_amqp_queue, missing) (kept refl)
      | inr named ↦
          let there : r.amqp.timeout_queue ≢ "" =
            λ e. cc (named, (eq_iff r.amqp.timeout_queue "").1 e) in
          rw (push_to_timeout_amqp_queue, named)
            (Sends-Forwarded (declared env b before) b.amqp.exchange w _ _ _ refl there
              (queue-Routed (λ x. x.timeout_queue) (timeout-IsRouted b) there)
              (send_task-Sends env broker _))
    ]
