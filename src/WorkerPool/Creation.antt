-- ===== src/WorkerPool/Creation.antt =====
-- The creation of a worker pool, and the sending of a task through it.
use paota.Common.{
  length, All, subst, zero, suc, ℕ, ◌+◌, String, ◌≡◌, ◌≢◌, refl, sym, ◌∙◌, ap, Bool-cases, inl, inr,
  false, Option, none, some, [], ◌∷◌, ◌++◌, str_eq, eq_iff, arith,
}
use paota.Schema.{State, Error, unsupported_store, publish_message, new_pending_task_state}
use paota.Config.{AmqpConfig, Config, ConfigProvider, get_config}
use paota.World.{
  Sent, Env, World, Outcome, ok, err, panic, Exec, pure, die, lift, ◌>>=◌, on_error, raise,
  next_call, ◌>>◌, gets,
}
use paota.World.Inversion.{bind-eq_ok}
use paota.Interface.{Broker}
use paota.Provider.{create_connection_pool}
use paota.Broker.{AmqpBroker, new_amqp_broker, setup_exchange_queue_binding}
use paota.Registrar.{send_task, new_default_task_registrar}
use paota.WorkerGroup.{new_worker_group, new_workers}
use paota.Registrar.Sending.{Sends, send_task-Sends}
use paota.WorkerPool.{
  Context, nil_context, struct_context, other_context, validate_context_type, create_broker,
  create_store, WorkerPool, assemble, create_worker_pool, pool_send_task_with_context,
}

store_ok : (c : Config) → create_store (some c) ≡ ok tt → c.store ≡ ""
unfolding create_store
store_ok c h = ground (arith, eq_iff c.store "")

struct_ok : (ctx : Context) → validate_context_type ctx ≡ ok tt → (n : ℕ) × (ctx ≡ struct_context n)
unfolding validate_context_type
struct_ok nil_context h = absurd (cc)
struct_ok (struct_context n) h = (n, refl)
struct_ok (other_context n) h = absurd (cc)

ok_inj : {A : Type 0} (x y : A) → ok y ≡ ok x → x ≡ y
ok_inj x y e = cc

-- A pool that has not been started: no task, and workers of the given number with no job.
pub record IsNewPool (concurrency : ℕ) (name_space id : String) (b : AmqpBroker) (wp : WorkerPool)
    : Type 0 where
  pub broker : wp.broker ≡ b
  pub pool_id : wp.worker_pool_id ≡ id
  pub unstarted : wp.started ≡ false
  pub no_task :
      (wp.task_registrar.registered_tasks ≡ []) × (wp.task_registrar.registered_tasks_count ≡ 0)
  pub settings : (wp.task_registrar.config ≡ b.config) × (wp.task_registrar.amqp ≡ b.amqp)
  pub size : (wp.concurrency ≡ concurrency) × (length wp.worker_group.workers ≡ concurrency)
  pub at_rest :
      All (λ w. (w.jobs ≡ []) × (w.running ≡ false) × (w.closed ≡ false)) wp.worker_group.workers
  pub named : (wp.name_space ≡ name_space) × (wp.worker_group.namespace ≡ name_space)

length-new_workers : (n i : ℕ) → length (new_workers n i) ≡ n
length-new_workers zero i = refl
length-new_workers (suc n) i = ap suc (length-new_workers n (suc i))

new_workers-at_rest :
    (n i : ℕ)
    → All (λ w. (w.jobs ≡ []) × (w.running ≡ false) × (w.closed ≡ false)) (new_workers n i)
new_workers-at_rest zero i = tt
new_workers-at_rest (suc n) i = ((refl, refl, refl), new_workers-at_rest n (suc i))

assemble-IsNewPool :
    (concurrency : ℕ) (name_space id : String) (b : AmqpBroker)
    → IsNewPool concurrency name_space id b (assemble concurrency name_space id b)
unfolding new_worker_group new_default_task_registrar
assemble-IsNewPool concurrency name_space id b = record {
  broker = refl;
  pool_id = refl;
  unstarted = refl;
  no_task = (refl, refl);
  settings = (refl, refl);
  size = (refl, length-new_workers concurrency 0);
  at_rest = new_workers-at_rest concurrency 0;
  named = (refl, refl);
}

module _ (env : Env) where
  broker_ok :
      (o : Option Config) (w : World) (b : AmqpBroker)
      → (create_broker env o w).0 ≡ ok b
      → (c : Config) × (o ≡ some c) × (c.broker ≡ "amqp") × ((new_amqp_broker env c w).0 ≡ ok b)
  unfolding create_broker die raise
  broker_ok none w b h = absurd (cc)
  broker_ok (some c) w b h = elim (Bool-cases (str_eq c.broker "amqp")) [
    | inl amqp ↦ (c, refl, (eq_iff c.broker "amqp").0 amqp, rw amqp at h)
    | inr another ↦ absurd (cc (rw another at h))
  ]

  -- The rest of `NewAMQPBroker` once the pool is there.
  abbrev set_up : Config → Option AmqpConfig → Exec AmqpBroker
  set_up c o = do
    b ← elim o [ none ↦ die | some amqp ↦ pure (record { config = c; amqp = amqp }) ]
    setup_exchange_queue_binding env b
    pure b

  config-set_up :
      (c : Config) (o : Option AmqpConfig) (w : World) (b : AmqpBroker)
      → (set_up c o w).0 ≡ ok b
      → (b.config ≡ c) × (o ≡ some b.amqp)
  unfolding ◌>>=◌
  config-set_up c none w b h = absurd (cc)
  config-set_up c (some amqp) w b h =
      let b₀ : AmqpBroker = record { config = c; amqp = amqp } in
      let (u, done, rest) = bind-eq_ok (setup_exchange_queue_binding env b₀) (λ _. pure b₀) w h in
      let same = sym (ap (λ r. r.0) rest) ∙ h in
      (
        ap (λ (x : AmqpBroker). x.config) (ok_inj b b₀ same),
        ap (λ (x : AmqpBroker). some x.amqp) (sym (ok_inj b b₀ same)),
      )

  pub config-new_amqp_broker :
      (c : Config) (w : World) (b : AmqpBroker)
      → (new_amqp_broker env c w).0 ≡ ok b
      → (b.config ≡ c) × (c.amqp ≡ some b.amqp)
  unfolding new_amqp_broker
  config-new_amqp_broker c w b h =
      let pooling = create_connection_pool env c.amqp in
      let (u, done, rest) = bind-eq_ok pooling (λ _. set_up c c.amqp) w h in
      config-set_up c c.amqp (pooling w).1 b (sym (ap (λ r. r.0) rest) ∙ h)

  module _ (ctx : Context) (concurrency : ℕ) (name_space : String) (provider : ConfigProvider) where
    abbrev create : Exec WorkerPool
    create = create_worker_pool env ctx concurrency name_space provider

    -- What has to hold of the arguments for a pool to be there, and what it then is.
    pub record Created (wp : WorkerPool) : Type 0 where
      pub config : Config
      pub configured : get_config provider ≡ some config
      pub is_amqp : config.broker ≡ "amqp"
      pub no_store : config.store ≡ ""
      pub is_struct : (n : ℕ) × (ctx ≡ struct_context n)
      pub id : String
      pub broker : AmqpBroker
      pub broker_config : (broker.config ≡ config) × (config.amqp ≡ some broker.amqp)
      pub is_new : IsNewPool concurrency name_space id broker wp

    -- A pool is created only for a struct as the context, a configuration of an AMQP broker with its
    -- section, and no store. It is not started, has no task, and has a worker group of the given size.
    pub create_worker_pool-Created :
        (w : World) (wp : WorkerPool) → (create w).0 ≡ ok wp → Created wp
    unfolding create_worker_pool lift next_call pure
    create_worker_pool-Created w wp h =
        let (u, valid, e₁) = bind-eq_ok (lift (validate_context_type ctx)) _ w h in
        let h₁ = rw e₁ at h in
        let (i, _, e₂) = bind-eq_ok next_call _ w h₁ in
        let h₂ = rw e₂ at h₁ in
        let (b, made, e₃) = bind-eq_ok (create_broker env (get_config provider)) _ _ h₂ in
        let h₃ = rw e₃ at h₂ in
        let (v, stored, e₄) = bind-eq_ok (lift (create_store (get_config provider))) _ _ h₃ in
        let h₄ = rw e₄ at h₃ in
        let (c, found, amqp, new) = broker_ok (get_config provider) _ b made in
        record {
          config = c;
          configured = found;
          is_amqp = amqp;
          no_store = store_ok c (ap create_store (sym found) ∙ stored);
          is_struct = struct_ok ctx valid;
          id = env.new_uuid i;
          broker = b;
          broker_config = config-new_amqp_broker c _ b new;
          is_new =
              subst (IsNewPool concurrency name_space (env.new_uuid i) b) (sym (ok_inj wp _ h₄))
                (assemble-IsNewPool concurrency name_space (env.new_uuid i) b);
        }

  -- A store that the factory does not know is noticed when the broker is there: the error comes back,
  -- and what the creation of the broker has done stays done.
  pub create_worker_pool-unsupported_store :
      (ctx : Context) (concurrency : ℕ) (name_space : String) (provider : ConfigProvider)
      (c : Config) (b : AmqpBroker) (w : World)
      → get_config provider ≡ some c
      → validate_context_type ctx ≡ ok tt
      → (new_amqp_broker env c (record w { calls = w.calls + 1 })).0 ≡ ok b
      → c.broker ≡ "amqp"
      → c.store ≢ ""
      → create_worker_pool env ctx concurrency name_space provider w
        ≡ (err unsupported_store, (new_amqp_broker env c (record w { calls = w.calls + 1 })).1)
  unfolding create_worker_pool lift next_call create_broker create_store ◌>>=◌
  create_worker_pool-unsupported_store ctx concurrency name_space provider c b w found valid made
        amqp stored =
      let is_amqp = (eq_iff c.broker "amqp").1 amqp in
      let unknown : str_eq c.store "" ≡ false = elim (Bool-cases (str_eq c.store "")) [
        | inl same ↦ absurd (stored ((eq_iff c.store "").0 same))
        | inr other ↦ other
      ] in
      rw (found, valid, is_amqp, made, unknown) refl

-- One confirmed message more and the state of a pending task, or none and the error.
pub data Posted (w : World) : Outcome State → World → Type 0 where
  posted :
      (m : Sent) (w' : World)
      → w'.sent ≡ w.sent ++ m ∷ []
      → m.routing_key ≡ w'.signature.routing_key
      → Posted w (ok (new_pending_task_state w'.signature)) w'
  not_posted : (e : Error) (w' : World) → w'.sent ≡ w.sent → Posted w (err (publish_message e)) w'

module _ (env : Env) (broker : Broker) where
  wrap-Posted :
      (w : World) (r : Outcome (Unit {0})) (w' : World)
      → Sends w r w'
      → Posted w
          ((on_error (λ _. (r, w')) (λ e. raise (publish_message e))
              >> (gets (λ v. v.signature) >>= λ s. pure (new_pending_task_state s)))
            w).0
          ((on_error (λ _. (r, w')) (λ e. raise (publish_message e))
              >> (gets (λ v. v.signature) >>= λ s. pure (new_pending_task_state s)))
            w).1
  unfolding ◌>>=◌ on_error
  wrap-Posted w (ok x) w' s = let (m, added, key) = s.delivered refl in posted m w' added key
  wrap-Posted w (err e) w' s = not_posted e w' (s.refused e refl)
  wrap-Posted w panic w' s = absurd (s.returns refl)

  -- Whatever the broker answers, a task sent through the pool is one confirmed message more, and its
  -- completed signature a pending task, or no confirmed message more, and an error.
  pub pool_send_task-Posted :
      (w : World)
      → Posted w
          (pool_send_task_with_context env broker w).0
          (pool_send_task_with_context env broker w).1
  unfolding pool_send_task_with_context send_task ◌>>=◌ on_error
  pool_send_task-Posted w = wrap-Posted w _ _ (send_task-Sends env broker w)
