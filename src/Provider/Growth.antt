-- ===== src/Provider/Growth.antt =====
-- How many connections the pool comes to hold over a server that accepts each of them.
use paota.Common.{
  ℕ, zero, suc, ◌+◌, ◌≡◌, refl, sym, subst, ap, false, Option, none, some, List, [], ◌∷◌, ◌++◌, map,
  length, length-append, arith,
}
use paota.Common.Int.{ℤ, pos}
use paota.Schema.{Error, refill_connection_pool as refill_failed}
use paota.Config.{AmqpConfig}
use paota.World.{Exec, ◌>>◌, Env, World, Dial, Outcome, ok, ◌>>=◌, on_error}
use paota.Provider.Dialing.{create_connection}
use paota.Provider.Pool.{
  pop_first, alive, refill_if_empty, rounds, create_or_clean, make_connections, install_pool,
  watch_all, refill_connection_pool, take_first, get_connection_from_pool,
  release_connection_to_pool, close_all,
}

-- Each dial succeeds, and no connection breaks.
pub record IsHealthy (env : Env) : Type 0 where
  pub dials : (i : ℕ) (d : Dial) → env.dial i d ≡ none
  pub stays_open : (i c : ℕ) → env.is_closed i c ≡ false

module _ (env : Env) (healthy : IsHealthy env) (conf : AmqpConfig) where
  create-ok :
      (wrap : Error → Error) (made : List ℕ) (w : World)
      → create_or_clean env (some conf) wrap made w ≡ (ok w.calls, record w { calls = w.calls + 1 })
  unfolding create_connection ◌>>=◌ on_error
  create-ok wrap made w = rw healthy.dials refl

  -- The loop makes a connection in each round.
  pub made_all :
      (wrap : Error → Error) (n : ℕ) (made : List ℕ) (w : World)
      → (out : List ℕ) × (v : World) × (make_connections env (some conf) wrap n made w
          ≡ (ok out, v))
        × (length out ≡ length made + n)
  unfolding make_connections ◌>>=◌
  made_all wrap zero made w = (made, w, refl, omega arith)
  made_all wrap (suc n) made w =
      let (out, v, e, size) =
        made_all wrap n (made ++ w.calls ∷ []) (record w { calls = w.calls + 1 }) in
      (out, v, rw (create-ok wrap made w) e, omega (arith, size, length-append made (w.calls ∷ [])))

  pub length-release :
      (c : ℕ) (w : World)
      → length (release_connection_to_pool env (some conf) (some c) w).1.pool ≡ length w.pool + 1
  unfolding release_connection_to_pool ◌>>=◌
  length-release c w = rw healthy.stays_open (length-append w.pool (some c ∷ []))

  -- Callers give their connections back, one after the other.
  unfoldable pub give_back_all : List ℕ → World → World
  give_back_all [] w = w
  give_back_all (c ∷ cs) w =
      give_back_all cs (release_connection_to_pool env (some conf) (some c) w).1

  length-give_back_all :
      (cs : List ℕ) (w : World) → length (give_back_all cs w).pool ≡ length w.pool + length cs
  unfolding give_back_all
  length-give_back_all [] w = omega arith
  length-give_back_all (c ∷ cs) w = omega (
    arith,
    length-give_back_all cs (release_connection_to_pool env (some conf) (some c) w).1,
    length-release c w,
  )

  -- From an empty pool: one connection for the caller, the others in the pool.
  pub installed :
      (out : List ℕ) (v : World)
      → ((install_pool env (some conf) out v).0 ≡ ok tt)
        × ((install_pool env (some conf) out v).1.pool ≡ map some out)
  unfolding install_pool ◌>>=◌
  installed out v = watched out (record v { pool = map some out })
    where
      watched :
          (cs : List ℕ) (v : World)
          → ((watch_all env cs v).0 ≡ ok tt) × ((watch_all env cs v).1.pool ≡ v.pool)
      watched [] v = (refl, refl)
      watched (c ∷ cs) v = watched cs (record v { watched = c ∷ v.watched })

  -- The body of a refill, by the entries that it closes and the size that it reads.
  abbrev refill_by : List (Option ℕ) → ℤ → Exec (Unit {0})
  refill_by old size = do
    close_all env old
    made ← make_connections env (some conf) refill_failed (rounds size) []
    install_pool env (some conf) made

  abbrev Refilled : ℕ → Outcome (Unit {0}) → World → Type 0
  Refilled n r v = (out : List ℕ) × (r ≡ ok tt) × (v.pool ≡ map some out) × (length out ≡ n)

  refill_by-Refilled :
      (n : ℕ) (w : World) → Refilled n (refill_by [] (pos n) w).0 (refill_by [] (pos n) w).1
  unfolding close_all ◌>>=◌
  refill_by-Refilled n w =
      let (out, v, made, total) = made_all refill_failed n [] w in
      (out, rw made (installed out v).0, rw made (installed out v).1, omega (arith, total))

  refilled :
      (n : ℕ) (w : World)
      → w.pool ≡ []
      → conf.connection_pool_size ≡ pos n
      → Refilled n
          (refill_connection_pool env (some conf) w).0
          (refill_connection_pool env (some conf) w).1
  unfolding refill_connection_pool ◌>>=◌
  refilled n w empty size =
      subst (λ s. Refilled n (refill_by w.pool s w).0 (refill_by w.pool s w).1) (sym size)
        (subst (λ cs. Refilled n (refill_by cs (pos n) w).0 (refill_by cs (pos n) w).1) (sym empty)
          (refill_by-Refilled n w))

  abbrev pub Taken : ℕ → Outcome ℕ → World → Type 0
  Taken n r v = (c : ℕ) × (r ≡ ok c) × (length v.pool ≡ n)

  abbrev take_by : List (Option ℕ) → Exec ℕ
  take_by cs = pop_first env (some conf) cs >>= alive env (some conf)

  abbrev get_by : List (Option ℕ) → Exec ℕ
  get_by cs = do refill_if_empty env (some conf) cs; take_first env (some conf)

  length-map : (out : List ℕ) → length (map {B = Option ℕ} some out) ≡ length out
  length-map [] = refl
  length-map (c ∷ out) = ap suc (length-map out)

  Taken-first :
      (n : ℕ) (out : List ℕ) (v : World)
      → v.pool ≡ map some out
      → length out ≡ suc n
      → Taken n (take_first env (some conf) v).0 (take_first env (some conf) v).1
  unfolding ◌>>=◌
  Taken-first n [] v e size = absurd (omega (arith, size))
  Taken-first n (c ∷ out) v e size =
      subst (λ cs. Taken n (take_by cs v).0 (take_by cs v).1) (sym e)
        (c, rw healthy.stays_open refl, rw healthy.stays_open (omega (arith, size, length-map out)))

  -- From a pool that has connections: its first one for the caller.
  pub Taken-from_full :
      (n : ℕ) (out : List ℕ) (w : World)
      → w.pool ≡ map some out
      → length out ≡ suc n
      → Taken n
          (get_connection_from_pool env (some conf) w).0
          (get_connection_from_pool env (some conf) w).1
  unfolding get_connection_from_pool ◌>>=◌
  Taken-from_full n [] w pool size = absurd (omega (arith, size))
  Taken-from_full n (c ∷ out) w pool size =
      subst (λ cs. Taken n (get_by cs w).0 (get_by cs w).1) (sym pool)
        (Taken-first n (c ∷ out) w pool size)

  -- From an empty pool: one connection for the caller, the others in the pool.
  Taken-from_empty :
      (n : ℕ) (w : World)
      → w.pool ≡ []
      → conf.connection_pool_size ≡ pos (suc n)
      → Taken n
          (get_connection_from_pool env (some conf) w).0
          (get_connection_from_pool env (some conf) w).1
  unfolding get_connection_from_pool ◌>>=◌
  Taken-from_empty n w empty size =
      let (out, done, pool, total) = refilled (suc n) w empty size in
      subst (λ cs. Taken n (get_by cs w).0 (get_by cs w).1) (sym empty)
        (rw done (Taken-first n out _ pool total))

  -- Over a server that accepts each connection, a caller that finds the pool empty, its connections
  -- being with others, has it filled again: once all of them are given back, the pool holds as many
  -- connections as its size and those of the others.
  pub pool-outgrows :
      (n : ℕ) (lent : List ℕ) (w : World)
      → w.pool ≡ []
      → conf.connection_pool_size ≡ pos (suc n)
      → (c : ℕ) × ((get_connection_from_pool env (some conf) w).0 ≡ ok c)
        × (length (give_back_all (c ∷ lent) (get_connection_from_pool env (some conf) w).1).pool
            ≡ suc n + length lent)
  pool-outgrows n lent w empty size =
      let (c, done, left) = Taken-from_empty n w empty size in
      (
        c,
        done,
        omega (
          arith,
          left,
          length-give_back_all (c ∷ lent) (get_connection_from_pool env (some conf) w).1,
        ),
      )
