-- ===== src/Examples/Sharing.antt =====
-- The pool under several callers, at concrete inputs.
use paota.Common.{ℕ, ◌+◌, ◌≤◌, ◌≡◌, refl, some, [], ◌∷◌, length}
use paota.World.{World, ok, ◌>>=◌}
use paota.World.Moves.{pooled, occurs}
use paota.Provider.{
  refill_connection_pool, close_all, make_connections, create_connection, install_pool,
  get_connection_from_pool,
}
use paota.Provider.Sharing.{Reach, here, next, borrow, Reach-exclusive}
use paota.Provider.Growth.{IsHealthy, give_back_all, pool-outgrows}
use paota.Samples.{sample_env, sample_amqp, sample_world}

abbrev fresh_world : World
fresh_world = record sample_world { pool = [] }

-- One caller has taken a connection and another has taken the second and given it back.
abbrev first_taken : World
first_taken = (get_connection_from_pool sample_env (some sample_amqp) fresh_world).1

taken : (get_connection_from_pool sample_env (some sample_amqp) fresh_world).0 ≡ ok 0
unfolding get_connection_from_pool ◌>>=◌ refill_connection_pool close_all make_connections
    create_connection install_pool
taken = refl

one_taken :
    Reach sample_env
      (some sample_amqp)
      (record { world = fresh_world; lent = [] })
      (record { world = first_taken; lent = 0 ∷ [] })
one_taken = next here (borrow 0 taken refl refl)

Reach-exclusive_example : pooled first_taken.pool 0 + occurs (0 ∷ []) 0 ≤ 1
Reach-exclusive_example =
    Reach-exclusive sample_env (some sample_amqp) fresh_world
      (record { world = first_taken; lent = 0 ∷ [] }) 0 refl one_taken

pub sample_healthy : IsHealthy sample_env
sample_healthy = record { dials = λ i d. refl; stays_open = λ i c. refl }

pool-outgrows_example :
    (c : ℕ) × ((get_connection_from_pool sample_env (some sample_amqp) fresh_world).0 ≡ ok c)
    × (length
          (give_back_all sample_env sample_healthy sample_amqp
            (c ∷ 900 ∷ 901 ∷ [])
            first_taken).pool
        ≡ 4)
pool-outgrows_example =
    pool-outgrows sample_env sample_healthy sample_amqp 1 (900 ∷ 901 ∷ []) fresh_world refl refl
