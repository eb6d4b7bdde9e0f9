-- ===== src/WorkerPool/Starting.antt =====
-- The creation of a worker pool over a server that accepts what it is asked.
use paota.Common.{ℕ, suc, ◌+◌, String, ◌≡◌, refl, some, eq_iff, length}
use paota.Common.Int.{pos}
use paota.Config.{AmqpConfig, Config, ConfigProvider, get_config}
use paota.World.{Env, World, Outcome, ok, lift, next_call, ◌>>=◌}
use paota.Provider.Growth.{IsHealthy}
use paota.Broker.Starting.{IsServed, new_amqp_broker-IsRunning}
use paota.WorkerPool.{
  struct_context, validate_context_type, create_broker, create_store, WorkerPool, assemble,
  create_worker_pool,
}

module _ (env : Env) (served : IsServed env) (healthy : IsHealthy env) where
  -- What is created, with the connections of its broker.
  abbrev pub IsReadyPool : WorkerPool → ℕ → Outcome WorkerPool × World → Type 0
  IsReadyPool wp n x = (x.0 ≡ ok wp) × (length x.1.pool ≡ n)

  -- Over a server that accepts what it is asked, a pool is created for a struct as the context, a
  -- configuration of an AMQP broker with at least one connection, and no store; the pool of
  -- connections is full then.
  pub create_worker_pool-IsReadyPool :
      (k concurrency : ℕ) (name_space : String) (provider : ConfigProvider) (c : Config)
      (a : AmqpConfig) (n : ℕ) (w : World)
      → get_config provider ≡ some c
      → c.broker ≡ "amqp"
      → c.store ≡ ""
      → c.amqp ≡ some a
      → a.connection_pool_size ≡ pos (suc n)
      → IsReadyPool
          (assemble concurrency name_space (env.new_uuid w.calls) (record { config = c; amqp = a }))
          (suc n)
          (create_worker_pool env (struct_context k) concurrency name_space provider w)
  unfolding create_worker_pool validate_context_type lift next_call create_broker create_store ◌>>=◌
  create_worker_pool-IsReadyPool k concurrency name_space provider c a n w found amqp no_store
        section_ size =
      let is_amqp = (eq_iff c.broker "amqp").1 amqp in
      let unset = (eq_iff c.store "").1 no_store in
      let (made, full) =
        new_amqp_broker-IsRunning env served healthy c a n (record w { calls = w.calls + 1 })
          section_ size in
      (rw (found, is_amqp, made, unset) refl, rw (found, is_amqp, made, unset) full)
