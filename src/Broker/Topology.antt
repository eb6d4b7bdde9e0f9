-- ===== src/Broker/Topology.antt =====
-- What `setupExchangeQueueBinding` asks of the server.
use mathlib.Core.List.{append-nil}
use paota.Common.{
  String, ◌≡◌, refl, sym, ◌∙◌, ap, false, Bool-cases, inl, inr, some, List, [], ◌∷◌, ◌++◌, arith,
  str_eq, if◌then◌else◌,
}
use paota.Schema.{string}
use paota.World.{
  pure, deferring, Declaration, exchange_declare, queue_declare, queue_bind, Env, World, ok, Exec,
  ◌>>=◌,
}
use paota.World.Inversion.{bind-eq_ok}
use paota.Provider.{
  get_connection_from_pool, create_amqp_channel, request, declare_exchange, declare_queue,
  queue_exchange_bind,
}
use paota.World.Frame.{Keeps, Keeps-ignore}
use paota.Provider.Effects.{
  get_connection_from_pool-Keeps, release_connection_to_pool-Keeps, create_amqp_channel-Keeps,
  close_amqp_channel-Keeps,
}
use paota.Broker.Defs.{AmqpBroker, get_task_queue, get_routing_key}
use paota.Broker.Setup.{setup_exchange_queue_binding, declare_topology, declare_bound_queue}

append_assoc : (xs ys zs : List Declaration) → (xs ++ ys) ++ zs ≡ xs ++ (ys ++ zs)
append_assoc [] ys zs = refl
append_assoc (x ∷ xs) ys zs = ap (λ l. x ∷ l) (append_assoc xs ys zs)

module _ (b : AmqpBroker) where
  -- A queue that is bound under its own name.
  abbrev pub own_queue : String → List Declaration
  own_queue name =
      if str_eq name ""
      then []
      else queue_declare name b.amqp.queue_declare_args ∷ queue_bind name name b.amqp.exchange ∷ []

  abbrev pub topology : List Declaration
  topology =
      exchange_declare b.amqp.exchange b.amqp.exchange_type
      ∷ queue_declare b.config.task_queue_name b.amqp.queue_declare_args
      ∷ queue_declare b.amqp.delayed_queue (
          ("x-dead-letter-exchange", string b.amqp.exchange)
          ∷ ("x-dead-letter-routing-key", string (get_routing_key b))
          ∷ [])
      ∷ queue_bind b.config.task_queue_name b.amqp.binding_key b.amqp.exchange
      ∷ queue_bind b.amqp.delayed_queue b.amqp.delayed_queue b.amqp.exchange
      ∷ (own_queue b.amqp.failed_queue ++ own_queue b.amqp.timeout_queue)

module _ (env : Env) where
  -- All the requests are granted, or an error comes back.
  record Grants (m : Exec (Unit {0})) (ds : List Declaration) : Type 0 where
    at : (w : World) → (m w).0 ≡ ok tt → (m w).1.declared ≡ w.declared ++ ds

  request-Grants : (d : Declaration) → Grants (request env d) (d ∷ [])
  unfolding request ◌>>=◌
  request-Grants d = record { at = λ w h. ground arith }

  then-Grants :
      {m n : Exec (Unit {0})} {ds es : List Declaration}
      → Grants m ds
      → Grants n es
      → Grants (m >>= λ _. n) (ds ++ es)
  then-Grants {m} {n} {ds} {es} a c = record {
    at = λ w h.
        let (u, done, rest) = bind-eq_ok m (λ _. n) w h in
        rw rest (
          c.at (m w).1 (rw (← rest) h)
          ∙ ap (λ l. l ++ es) (a.at w done)
          ∙ append_assoc w.declared ds es);
  }

  declare_bound_queue-Grants :
      (b : AmqpBroker) (name : String) → Grants (declare_bound_queue env b name) (own_queue b name)
  unfolding declare_queue queue_exchange_bind pure
  declare_bound_queue-Grants b name = elim (Bool-cases (str_eq name "")) [
    | inl missing ↦ record { at = λ w h. rw missing (sym (append-nil w.declared)) }
    | inr there ↦ rw there (then-Grants (request-Grants _) (request-Grants _))
  ]

  declare_topology-Grants : (b : AmqpBroker) → Grants (declare_topology env b) (topology b)
  unfolding declare_topology declare_exchange declare_queue queue_exchange_bind get_task_queue
  declare_topology-Grants b = then-Grants (request-Grants _) (
      then-Grants (request-Grants _) (
        then-Grants (request-Grants _) (
          then-Grants (request-Grants _) (
            then-Grants (request-Grants _) (
              then-Grants (declare_bound_queue-Grants b b.amqp.failed_queue)
                (declare_bound_queue-Grants b b.amqp.timeout_queue))))))

  after-Grants :
      {A : Type 0} (m : Exec A) (f : A → Exec (Unit {0})) {ds : List Declaration}
      → Keeps m
      → ((a : A) → Grants (f a) ds)
      → Grants (m >>= f) ds
  after-Grants m f {ds} k g = record {
    at = λ w h.
        let (a, done, rest) = bind-eq_ok m f w h in
        rw rest ((g a).at (m w).1 (rw (← rest) h) ∙ ap (λ l. l ++ ds) (k.at w).declared_kept);
  }

  deferring-Grants :
      (f m : Exec (Unit {0})) {ds : List Declaration}
      → Keeps f
      → Grants m ds
      → Grants (deferring f m) ds
  unfolding deferring
  deferring-Grants f m k g = record { at = λ w h. (k.at (m w).1).declared_kept ∙ g.at w h }

  -- When the setup succeeds, exactly the broker's topology has been declared, in its order.
  pub declared-setup_exchange_queue_binding :
      (b : AmqpBroker) (w : World)
      → (setup_exchange_queue_binding env b w).0 ≡ ok tt
      → (setup_exchange_queue_binding env b w).1.declared ≡ w.declared ++ topology b
  unfolding setup_exchange_queue_binding
  declared-setup_exchange_queue_binding b =
      (after-Grants (get_connection_from_pool env (some b.amqp)) _
        (get_connection_from_pool-Keeps env (some b.amqp))
        λ conn.
          deferring-Grants _ _
            (Keeps-ignore _ (release_connection_to_pool-Keeps env (some b.amqp) (some conn)))
            (after-Grants (create_amqp_channel env conn false) _
              (create_amqp_channel-Keeps env conn false)
              λ _.
                deferring-Grants _ _ (close_amqp_channel-Keeps env) (declare_topology-Grants b))).at
