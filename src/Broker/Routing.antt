-- ===== src/Broker/Routing.antt =====
-- Which routing keys lead to a queue of the broker.
use paota.Common.{
  String, ◌≡◌, ◌≢◌, refl, sym, subst, Bool-cases, inl, inr, true, List, [], ◌∷◌, ◌++◌, str_eq,
  eq_iff,
}
use paota.World.{Declaration, queue_bind, Env, World, ok}
use paota.Broker.Defs.{AmqpBroker, get_routing_key, is_direct_exchange}
use paota.Broker.Setup.{setup_exchange_queue_binding}
use paota.Broker.Topology.{own_queue, topology, declared-setup_exchange_queue_binding}

pub data Occurs (d : Declaration) : List Declaration → Type 0 where
  first : {e : Declaration} {ds : List Declaration} → d ≡ e → Occurs d (e ∷ ds)
  later : {e : Declaration} {ds : List Declaration} → Occurs d ds → Occurs d (e ∷ ds)

pub Occurs-append_left :
    {d : Declaration} (ds es : List Declaration) → Occurs d ds → Occurs d (ds ++ es)
Occurs-append_left [] es o = elim o [ ]
Occurs-append_left (e ∷ ds) es (first h) = first h
Occurs-append_left (e ∷ ds) es (later o) = later (Occurs-append_left ds es o)

pub Occurs-append_right :
    {d : Declaration} (ds es : List Declaration) → Occurs d es → Occurs d (ds ++ es)
Occurs-append_right [] es o = o
Occurs-append_right (e ∷ ds) es o = later (Occurs-append_right ds es o)

-- A queue is bound to the exchange under the key.
abbrev pub IsRouted : List Declaration → String → String → Type 0
IsRouted ds exchange key = (queue : String) × Occurs (queue_bind queue key exchange) ds

pub IsRouted-append_right :
    (ds es : List Declaration) (exchange key : String)
    → IsRouted es exchange key
    → IsRouted (ds ++ es) exchange key
IsRouted-append_right ds es exchange key (queue, o) = (queue, Occurs-append_right ds es o)

module _ (b : AmqpBroker) where
  own_queue-Occurs :
      (name : String) → name ≢ "" → Occurs (queue_bind name name b.amqp.exchange) (own_queue b name)
  own_queue-Occurs name there = elim (Bool-cases (str_eq name "")) [
    | inl empty ↦ absurd (there ((eq_iff name "").0 empty))
    | inr named ↦ rw named (later (first refl))
  ]

  -- The default key leads to the queue of the tasks.
  pub default-IsRouted :
      is_direct_exchange b ≡ true
      → b.amqp.binding_key ≢ ""
      → IsRouted (topology b) b.amqp.exchange (get_routing_key b)
  unfolding get_routing_key
  default-IsRouted direct there = elim (Bool-cases (str_eq b.amqp.binding_key "")) [
    | inl empty ↦ absurd (there ((eq_iff b.amqp.binding_key "").0 empty))
    | inr named ↦ (
      b.config.task_queue_name,
      later (later (later (first (rw (get_routing_key, named, direct) refl)))),
    )
  ]

  pub delayed-IsRouted : IsRouted (topology b) b.amqp.exchange b.amqp.delayed_queue
  delayed-IsRouted = (b.amqp.delayed_queue, later (later (later (later (first refl)))))

  pub failed-IsRouted :
      b.amqp.failed_queue ≢ "" → IsRouted (topology b) b.amqp.exchange b.amqp.failed_queue
  failed-IsRouted there = (
    b.amqp.failed_queue,
    later (
        later (
          later
            (later (later (Occurs-append_left _ _ (own_queue-Occurs b.amqp.failed_queue there)))))),
  )

  pub timeout-IsRouted :
      b.amqp.timeout_queue ≢ "" → IsRouted (topology b) b.amqp.exchange b.amqp.timeout_queue
  timeout-IsRouted there = (
    b.amqp.timeout_queue,
    later (
        later (
          later (
            later (
              later (
                Occurs-append_right (own_queue b b.amqp.failed_queue) _
                  (own_queue-Occurs b.amqp.timeout_queue there)))))),
  )

-- What the server has been asked for when the setup is through.
abbrev pub declared : Env → AmqpBroker → World → List Declaration
declared env b before = (setup_exchange_queue_binding env b before).1.declared

pub setup-IsRouted :
    (env : Env) (b : AmqpBroker) (before : World) (key : String)
    → (setup_exchange_queue_binding env b before).0 ≡ ok tt
    → IsRouted (topology b) b.amqp.exchange key
    → IsRouted (declared env b before) b.amqp.exchange key
setup-IsRouted env b before key set_up routed =
    subst (λ ds. IsRouted ds b.amqp.exchange key)
      (sym (declared-setup_exchange_queue_binding env b before set_up))
      (IsRouted-append_right before.declared (topology b) b.amqp.exchange key routed)
