-- ===== src/Provider/Pool.antt =====
-- The pool of connections. A method that holds the mutex is one step.
use paota.Common.{
  ℕ, zero, suc, Bool, true, false, Option, none, some, List, [], ◌∷◌, ◌++◌, map, if◌then◌else◌,
  ◌==◌,
}
use paota.Common.Int.{ℤ, pos, negsuc, ltb_ℤ}
use paota.Schema.{
  Error, invalid_config, recreate_connection,
  create_connection_pool as create_connection_pool_failed, refill_connection_pool as refill_failed,
}
use paota.Config.{AmqpConfig}
use paota.World.{
  Env, World, Exec, pure, raise, die, ◌>>=◌, ◌>>◌, on_error, ignore, modify, gets, next_call,
}
use paota.Provider.Dialing.{create_connection}

-- The rounds of `for i := 0; i < n; i++`.
abbrev pub rounds : ℤ → ℕ
rounds (pos n) = n
rounds (negsuc n) = 0

module _ (env : Env) where
  abbrev pub watch_connection : ℕ → Exec (Unit {0})
  watch_connection conn = modify (λ w. record w { watched = conn ∷ w.watched })

  abbrev pub watch_all : List ℕ → Exec (Unit {0})
  watch_all [] = pure tt
  watch_all (c ∷ cs) = do watch_connection c; watch_all cs

  abbrev pub close_connection : ℕ → Exec (Unit {0})
  close_connection conn = modify (λ w. record w { closed = conn ∷ w.closed })

  abbrev pub is_closed : ℕ → Exec Bool
  is_closed conn = do i ← next_call; pure (env.is_closed i conn)

  -- `if c != nil && !c.IsClosed() { _ = c.Close() }` for each entry.
  abbrev pub close_entry : Option ℕ → Exec (Unit {0})
  close_entry none = pure tt
  close_entry (some c) = do dead ← is_closed c; if dead then pure tt else close_connection c

  unfoldable pub close_all : List (Option ℕ) → Exec (Unit {0})
  close_all [] = pure tt
  close_all (c ∷ cs) = do close_entry c; close_all cs

  -- `amqpConf` may be nil: `CreateConnection` checks it, the other methods read through it.
  module _ (conf : Option AmqpConfig) where
    abbrev pub create_or_clean : (Error → Error) → List ℕ → Exec ℕ
    create_or_clean wrap made =
        on_error (create_connection env conf) (λ e. do close_all (map some made); raise (wrap e))

    -- The loop of `CreateConnectionPool` and of `refillConnectionPool`: on an error the connections
    -- made so far are closed.
    unfoldable pub make_connections : (Error → Error) → ℕ → List ℕ → Exec (List ℕ)
    make_connections wrap zero made = pure made
    make_connections wrap (suc n) made =
        create_or_clean wrap made >>= λ c. make_connections wrap n (made ++ c ∷ [])

    -- The pool is assigned as a whole, and then watched.
    unfoldable pub install_pool : List ℕ → Exec (Unit {0})
    install_pool made = do modify (λ w. record w { pool = map some made }); watch_all made

    -- `CreateConnectionPool`: the pool is assigned when every connection is there.
    unfoldable pub create_connection_pool : Exec (Unit {0})
    create_connection_pool = elim conf [
      | none ↦ die
      | some c ↦ if ltb_ℤ c.connection_pool_size (pos 1) then raise invalid_config else (do
        made ← make_connections create_connection_pool_failed (rounds c.connection_pool_size) []
        install_pool made)
    ]

    -- `refillConnectionPool`: what is left in the pool is closed first.
    unfoldable pub refill_connection_pool : Exec (Unit {0})
    refill_connection_pool = elim conf [
      | none ↦ die
      | some c ↦ do
        old ← gets (λ w. w.pool)
        close_all old
        made ← make_connections refill_failed (rounds c.connection_pool_size) []
        install_pool made
    ]

    -- `CreateConnection` where its error is wrapped, the new connection being watched.
    abbrev pub replacement : Exec ℕ
    replacement = do
      c ← on_error (create_connection env conf) (λ e. raise (recreate_connection e))
      watch_connection c
      pure c

    -- `ConnectionPool[0]`, out of range on an empty slice.
    abbrev pub pop_first : List (Option ℕ) → Exec (Option ℕ)
    pop_first [] = die
    pop_first (c ∷ rest) = do modify (λ w. record w { pool = rest }); pure c

    abbrev pub alive : Option ℕ → Exec ℕ
    alive none = replacement
    alive (some c) = do dead ← is_closed c; if dead then replacement else pure c

    abbrev pub refill_if_empty : List (Option ℕ) → Exec (Unit {0})
    refill_if_empty [] = refill_connection_pool
    refill_if_empty (c ∷ rest) = pure tt

    abbrev pub take_first : Exec ℕ
    take_first = do entries ← gets (λ w. w.pool); first ← pop_first entries; alive first

    unfoldable pub get_connection_from_pool : Exec ℕ
    get_connection_from_pool = do before ← gets (λ w. w.pool); refill_if_empty before; take_first

    abbrev pub append_entry : Option ℕ → Exec (Unit {0})
    append_entry c = modify (λ w. record w { pool = w.pool ++ c ∷ [] })

    -- The old connection is the one that is watched again, not the new one.
    -- The goroutine that watches a nil connection crashes the process.
    abbrev pub release_dead : Option ℕ → Exec (Unit {0})
    release_dead old = do
      c ← on_error (create_connection env conf) (λ e. raise (recreate_connection e))
      elim old [ none ↦ die {A = Unit {0}} | some o ↦ watch_connection o ]
      append_entry (some c)

    unfoldable pub release_connection_to_pool : Option ℕ → Exec (Unit {0})
    release_connection_to_pool none = release_dead none
    release_connection_to_pool (some c) = do
      dead ← is_closed c
      if dead then release_dead (some c) else append_entry (some c)

    unfoldable pub discard_connection : ℕ → Exec (Unit {0})
    discard_connection c = close_connection c

    -- The first entry that is the dead connection is replaced in place. When the dial fails it stays.
    abbrev pub replace_first : ℕ → ℕ → List (Option ℕ) → List (Option ℕ)
    replace_first dead c [] = []
    replace_first dead c (none ∷ rest) = none ∷ replace_first dead c rest
    replace_first dead c (some d ∷ rest) =
        if d == dead then some c ∷ rest else some d ∷ replace_first dead c rest

    abbrev pub holds : ℕ → List (Option ℕ) → Bool
    holds dead [] = false
    holds dead (none ∷ rest) = holds dead rest
    holds dead (some d ∷ rest) = if d == dead then true else holds dead rest

    abbrev pub replace_entry : ℕ → Exec (Unit {0})
    replace_entry dead = do
      c ← create_connection env conf
      modify (λ w. record w { pool = replace_first dead c w.pool })
      watch_connection c

    unfoldable pub replace_dead_connection : ℕ → Exec (Unit {0})
    replace_dead_connection dead = do
      entries ← gets (λ w. w.pool)
      if holds dead entries then ignore (replace_entry dead) else pure tt

    -- `GetAmqpConnection` and `getConnection`: what the pool gives is always a connection, so the
    -- assertion on its type holds.
    abbrev pub get_amqp_connection : Exec ℕ
    get_amqp_connection = get_connection_from_pool

-- A provider has no pool before `CreateConnectionPool`.
unfoldable pub new_amqp_provider : World → World
new_amqp_provider w = record w { pool = [] }

-- `CloseConnection` does nothing.
unfoldable pub close_provider_connection : Exec (Unit {0})
close_provider_connection = pure tt
