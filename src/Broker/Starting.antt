-- ===== src/Broker/Starting.antt =====
-- `NewAMQPBroker` over a server that accepts what it is asked.
use paota.Common.{
  ℕ, suc, Bool, true, false, ◌≡◌, refl, sym, subst, ap, ◌∙◌, Option, none, some, List, [], map,
  length, if◌then◌else◌, arith,
}
use paota.Common.Int.{ℤ, pos, ltb_ℤ}
use paota.Schema.{invalid_config, create_connection_pool as create_failed}
use paota.Config.{AmqpConfig, Config}
use paota.World.{
  Env, World, Declaration, Outcome, ok, Exec, raise, die, pure, ignore, deferring, ◌>>=◌, ◌>>◌,
  on_error,
}
use paota.Provider.{
  create_connection_pool, release_connection_to_pool, create_amqp_channel, close_amqp_channel,
  request, declare_exchange, declare_queue, queue_exchange_bind, install_pool, make_connections,
  rounds,
}
use paota.Provider.Growth.{IsHealthy, made_all, installed, Taken-from_full, length-release}
use paota.Broker.Defs.{AmqpBroker}
use paota.Broker.Setup.{declare_topology, setup_exchange_queue_binding, new_amqp_broker}

-- Each channel opens and each declaration is granted.
pub record IsServed (env : Env) : Type 0 where
  pub opens : (i c : ℕ) → env.open_channel i c ≡ none
  pub grants : (i : ℕ) (d : Declaration) → env.declare i d ≡ none

-- An action that succeeds and leaves the pool.
record Smooth (m : Exec (Unit {0})) : Type 0 where
  at : (w : World) → ((m w).0 ≡ ok tt) × ((m w).1.pool ≡ w.pool)

Smooth-pure : Smooth (pure tt)
unfolding pure
Smooth-pure = record { at = λ w. (refl, refl) }

Smooth-seq : (m k : Exec (Unit {0})) → Smooth m → Smooth k → Smooth (m >> k)
unfolding ◌>>=◌
Smooth-seq m k a b = record {
  at = λ w.
      let (done, same) = a.at w in
      let (done', same') = b.at (m w).1 in rw done (done', same' ∙ same);
}

Smooth-if : (b : Bool) (m k : Exec (Unit {0})) → Smooth m → Smooth k → Smooth (if b then m else k)
Smooth-if true m k a b = a
Smooth-if false m k a b = b

Smooth-deferring : (f m : Exec (Unit {0})) → Smooth f → Smooth m → Smooth (deferring f m)
unfolding deferring
Smooth-deferring f m a b = record {
  at = λ w. let (done, same) = b.at w in let (_, same') = a.at (m w).1 in (done, same' ∙ same);
}

Smooth-close : (env : Env) → Smooth (close_amqp_channel env)
unfolding close_amqp_channel ◌>>=◌
Smooth-close env = record { at = λ w. (refl, refl) }

ruleset smooth_rules = (Smooth-pure, Smooth-seq, Smooth-if, Smooth-deferring, Smooth-close)

module _ (env : Env) (served : IsServed env) where
  Smooth-request : (d : Declaration) → Smooth (request env d)
  unfolding request ◌>>=◌
  Smooth-request d = record { at = λ w. rw served.grants (refl, refl) }

  create_amqp_channel-Smooth : (c : ℕ) → Smooth (create_amqp_channel env c false)
  unfolding create_amqp_channel ◌>>=◌
  create_amqp_channel-Smooth c = record { at = λ w. rw served.opens (refl, refl) }

  declare_topology-Smooth : (b : AmqpBroker) → Smooth (declare_topology env b)
  unfolding declare_topology declare_exchange declare_queue queue_exchange_bind
  declare_topology-Smooth b = search (smooth_rules, Smooth-request) depth 16

  module _ (healthy : IsHealthy env) where
    ignored : (m : Exec (Unit {0})) (w : World) → (ignore m w).1 ≡ (m w).1
    unfolding ignore on_error ◌>>=◌
    ignored m w = ground arith

    -- The result of the setup, and the size of the pool after it.
    abbrev IsSetUp : ℕ → Outcome (Unit {0}) × World → Type 0
    IsSetUp n (r, w) = (r ≡ ok tt) × (length w.pool ≡ n)

    with_connection :
        (a : AmqpConfig) (m : Exec (Unit {0})) (n c : ℕ) (w : World)
        → Smooth m
        → length w.pool ≡ n
        → IsSetUp
            (suc n)
            (deferring (ignore (release_connection_to_pool env (some a) (some c))) m w)
    unfolding deferring
    with_connection a m n c w s size =
        let (done, same) = s.at w in
        let u = (m w).1 in
        let kept = ap length same in
        let back = length-release env healthy a c u in
        (
          done,
          rw (ignored (release_connection_to_pool env (some a) (some c)) u)
              (omega (arith, back, kept, size)),
        )

    setup-IsSetUp :
        (b : AmqpBroker) (n : ℕ) (out : List ℕ) (w : World)
        → w.pool ≡ map some out
        → length out ≡ suc n
        → IsSetUp (suc n) (setup_exchange_queue_binding env b w)
    unfolding setup_exchange_queue_binding ◌>>=◌
    setup-IsSetUp b n out w pool size =
        let (c, got, left) = Taken-from_full env healthy b.amqp n out w pool size in
        rw got (
          with_connection b.amqp _ n c _
            (Smooth-seq _ _ (create_amqp_channel-Smooth c)
              (Smooth-deferring _ _ (Smooth-close env) (declare_topology-Smooth b)))
            left)

    pool_by : AmqpConfig → ℤ → Exec (Unit {0})
    pool_by a size = if ltb_ℤ size (pos 1) then raise invalid_config else (do
      made ← make_connections env (some a) create_failed (rounds size) []
      install_pool env (some a) made)

    abbrev IsPooled : ℕ → Outcome (Unit {0}) × World → Type 0
    IsPooled n (r, w) = (out : List ℕ) × (r ≡ ok tt) × (w.pool ≡ map some out) × (length out ≡ n)

    pool_by-IsPooled :
        (a : AmqpConfig) (n : ℕ) (w : World) → IsPooled (suc n) (pool_by a (pos (suc n)) w)
    unfolding pool_by ◌>>=◌
    pool_by-IsPooled a n w =
        let (out, v, made, total) = made_all env healthy a create_failed (suc n) [] w in
        let (done, pool) = installed env healthy a out v in
        let enough : ltb_ℤ (pos (suc n)) (pos 1) ≡ false = ground arith in
        (out, rw (enough, made) done, rw (enough, made) pool, omega (arith, total))

    create_connection_pool-IsPooled :
        (a : AmqpConfig) (n : ℕ) (w : World)
        → a.connection_pool_size ≡ pos (suc n)
        → IsPooled (suc n) (create_connection_pool env (some a) w)
    unfolding create_connection_pool pool_by
    create_connection_pool-IsPooled a n w size =
        subst (λ s. IsPooled (suc n) (pool_by a s w)) (sym size) (pool_by-IsPooled a n w)

    -- The broker is there, with its pool full again.
    abbrev pub IsRunning : Config → AmqpConfig → ℕ → Outcome AmqpBroker × World → Type 0
    IsRunning c a n (r, w) = (r ≡ ok (record { config = c; amqp = a })) × (length w.pool ≡ n)

    -- The body of `NewAMQPBroker`, by the section of the configuration that it reads.
    new_by : Config → Option AmqpConfig → Exec AmqpBroker
    new_by c o = do
      create_connection_pool env o
      b ← elim o [ none ↦ die | some amqp ↦ pure (record { config = c; amqp = amqp }) ]
      setup_exchange_queue_binding env b
      pure b

    new_by-IsRunning :
        (c : Config) (a : AmqpConfig) (n : ℕ) (w : World)
        → a.connection_pool_size ≡ pos (suc n)
        → IsRunning c a (suc n) (new_by c (some a) w)
    unfolding new_by ◌>>=◌
    new_by-IsRunning c a n w size =
        let (out, done, pool, total) = create_connection_pool-IsPooled a n w size in
        let (set, kept) =
          setup-IsSetUp (record { config = c; amqp = a }) n out
            (create_connection_pool env (some a) w).1 pool total in
        (rw (done, set) refl, rw (done, set) kept)

    -- Over a server that accepts what it is asked, a broker with a pool size of at least one is created,
    -- and as many connections are in its pool.
    pub new_amqp_broker-IsRunning :
        (c : Config) (a : AmqpConfig) (n : ℕ) (w : World)
        → c.amqp ≡ some a
        → a.connection_pool_size ≡ pos (suc n)
        → IsRunning c a (suc n) (new_amqp_broker env c w)
    unfolding new_amqp_broker new_by
    new_amqp_broker-IsRunning c a n w section_ size =
        subst (λ o. IsRunning c a (suc n) (new_by c o w)) (sym section_)
          (new_by-IsRunning c a n w size)
