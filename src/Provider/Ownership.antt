-- ===== src/Provider/Ownership.antt =====
-- The methods of the provider move connections between the pool and their callers.
use paota.Common.{
  ℕ, zero, suc, ◌+◌, ◌≤◌, ◌≡◌, refl, Option, none, some, List, [], ◌∷◌, ◌++◌, map, arith,
}
use paota.Common.Int.{pos, ltb_ℤ}
use paota.Schema.{Error}
use paota.Config.{AmqpConfig}
use paota.World.{Env, World, Exec, ◌>>=◌, raise, die}
use paota.World.Moves.{
  one, none_held, occurs, pooled, occurs-append, pooled-append, pooled-map, Moves, Moved,
  Moves-pure, Moves-raise, Moves-die, Moves-gets, Moves-if, Moves-on_error, Moves-bind,
  Moves-ignore, Moves-modify, Moves-pool, Moves-weaken, got, Moved-same, Moved-trans,
}
use paota.Provider.Dialing.{create_connection}
use paota.Provider.Pool.{
  create_or_clean, install_pool, replacement, alive, pop_first, refill_if_empty, release_dead,
  take_first, close_all, is_closed, watch_connection, make_connections, refill_connection_pool,
  create_connection_pool, get_connection_from_pool, append_entry, release_connection_to_pool,
  discard_connection, replace_first, replace_entry, replace_dead_connection, holds,
}
use paota.Provider.Parts.{
  entry, watch_connection-Moves, watch_all-Moves, is_closed-Moves, close_all-Moves,
  create_connection-Moves,
}

module _ (env : Env) where
  -- `raise (wrap e)` after something that opens nothing.
  raised :
      {A : Type 0} (out : A → ℕ → ℕ) (m : Exec (Unit {0})) (e : Error)
      → Moves none_held (λ _. none_held) m
      → Moves none_held out (m >>= λ _. raise e)
  raised out m e k =
      Moves-bind none_held (λ _. none_held) out m _ k (λ _. Moves-raise none_held out e)

  module _ (conf : Option AmqpConfig) where
    create_or_clean-Moves :
        (wrap : Error → Error) (made : List ℕ)
        → Moves (occurs made) (λ c d. occurs made d + one c d) (create_or_clean env conf wrap made)
    create_or_clean-Moves wrap made =
        Moves-on_error (occurs made) (λ c d. occurs made d + one c d) (create_connection env conf) _
          (create_connection-Moves env (occurs made) conf)
          (λ e. raised _ _ (wrap e) (close_all-Moves env none_held (map some made)))

    make_connections-Moves :
        (wrap : Error → Error) (n : ℕ) (made : List ℕ)
        → Moves (occurs made) (λ cs. occurs cs) (make_connections env conf wrap n made)
    unfolding make_connections
    make_connections-Moves wrap zero made =
        Moves-pure (occurs made) (λ cs. occurs cs) made (λ d. omega arith)
    make_connections-Moves wrap (suc n) made =
        Moves-bind (occurs made) (λ c d. occurs made d + one c d) (λ cs. occurs cs) _ _
          (create_or_clean-Moves wrap made)
          λ c.
            Moves-weaken (occurs (made ++ c ∷ [])) (λ d. occurs made d + one c d) (λ cs. occurs cs)
              (λ cs. occurs cs) (make_connections env conf wrap n (made ++ c ∷ []))
              (λ d. omega (arith, occurs-append made (c ∷ []) d)) (λ cs d. omega arith)
              (make_connections-Moves wrap n (made ++ c ∷ []))

    install_pool-Moves :
        (made : List ℕ) → Moves (occurs made) (λ _. none_held) (install_pool env conf made)
    unfolding install_pool
    install_pool-Moves made =
        Moves-bind (occurs made) (λ _. none_held) (λ _. none_held) _ _
          (Moves-pool (occurs made) (λ w. map some made) (λ w d. omega (arith, pooled-map made d)))
          (λ _. watch_all-Moves env none_held made)

    make_and_install :
        (wrap : Error → Error) (n : ℕ)
        → Moves none_held
            (λ _. none_held)
            (make_connections env conf wrap n [] >>= install_pool env conf)
    make_and_install wrap n =
        Moves-bind none_held (λ cs. occurs cs) (λ _. none_held) _ _
          (make_connections-Moves wrap n []) install_pool-Moves

    new_connection-Moves : Moves none_held one (create_connection env conf)
    new_connection-Moves =
        Moves-weaken none_held none_held (λ c d. none_held d + one c d) one
          (create_connection env conf) (λ d. omega arith) (λ a d. omega arith)
          (create_connection-Moves env none_held conf)

    replacement-Moves : Moves none_held one (replacement env conf)
    replacement-Moves =
        Moves-bind none_held one one _ _
          (Moves-on_error none_held one (create_connection env conf) _ new_connection-Moves
            (λ e. Moves-raise none_held one _))
          λ c.
            Moves-bind (one c) (λ _. one c) one _ _ (watch_connection-Moves env (one c) c)
              (λ _. Moves-pure (one c) one c (λ d. omega arith))

    alive-Moves : (c : Option ℕ) → Moves (entry c) one (alive env conf c)
    alive-Moves none = replacement-Moves
    alive-Moves (some c) =
        Moves-bind (one c) (λ _. one c) one (is_closed env c) _ (is_closed-Moves env (one c) c)
          λ dead.
            Moves-if (one c) one dead _ _
              (Moves-weaken none_held (one c) one one (replacement env conf) (λ d. omega arith)
                (λ a d. omega arith) replacement-Moves)
              (Moves-pure (one c) one c (λ d. omega arith))

    -- The first entry leaves the pool.
    take_first-Moves : Moves none_held one (take_first env conf)
    unfolding ◌>>=◌
    take_first-Moves = record { at = λ w. from w w.pool refl }
      where
        from :
            (w : World) (cs : List (Option ℕ))
            → w.pool ≡ cs
            → Moved none_held
                (got one ((pop_first env conf cs >>= alive env conf) w).0)
                w
                ((pop_first env conf cs >>= alive env conf) w).1
        from w [] e = Moved-same none_held none_held w w (λ d. omega arith) refl refl
        from w (c ∷ cs) e =
            Moved-trans none_held (entry c) _ w (record w { pool = cs }) _ (popped w c cs e)
              ((alive-Moves c).at (record w { pool = cs }))
          where
            popped :
                (w : World) (c : Option ℕ) (cs : List (Option ℕ))
                → w.pool ≡ c ∷ cs
                → Moved none_held (entry c) w (record w { pool = cs })
            popped w none cs e = record { later = omega arith; count = λ d. rw e (omega arith) }
            popped w (some c) cs e = record { later = omega arith; count = λ d. rw e (omega arith) }

    append_entry-Moves : (c : Option ℕ) → Moves (entry c) (λ _. none_held) (append_entry env conf c)
    append_entry-Moves none =
        Moves-pool none_held _ (λ w d. omega (arith, pooled-append w.pool (none ∷ []) d))
    append_entry-Moves (some c) =
        Moves-pool (one c) _ (λ w d. omega (arith, pooled-append w.pool (some c ∷ []) d))

    -- What was released is dropped, and the new connection goes to the pool.
    release_dead-Moves : (c : Option ℕ) → Moves none_held (λ _. none_held) (release_dead env conf c)
    release_dead-Moves c =
        Moves-bind none_held one (λ _. none_held) _ _
          (Moves-on_error none_held one (create_connection env conf) _ new_connection-Moves
            (λ e. Moves-raise none_held one _))
          λ n.
            Moves-bind (one n) (λ _. one n) (λ _. none_held) _ _ (watch_old n c)
              (λ _. append_entry-Moves (some n))
      where
        watch_old :
            (n : ℕ) (c : Option ℕ)
            → Moves
                (one n)
                (λ _. one n)
                (elim c [ none ↦ die {A = Unit {0}} | some o ↦ watch_connection env o ])
        watch_old n none = Moves-die (one n) (λ _. one n)
        watch_old n (some o) = watch_connection-Moves env (one n) o

    pub release_connection_to_pool-Moves :
        (c : ℕ) → Moves (one c) (λ _. none_held) (release_connection_to_pool env conf (some c))
    unfolding release_connection_to_pool
    release_connection_to_pool-Moves c =
        Moves-bind (one c) (λ _. one c) (λ _. none_held) (is_closed env c) _
          (is_closed-Moves env (one c) c)
          λ dead.
            Moves-if (one c) (λ _. none_held) dead _ _
              (Moves-weaken none_held (one c) (λ _. none_held) (λ _. none_held)
                (release_dead env conf (some c)) (λ d. omega arith) (λ a d. omega arith)
                (release_dead-Moves (some c)))
              (append_entry-Moves (some c))

    pub discard_connection-Moves :
        (c : ℕ) → Moves (one c) (λ _. none_held) (discard_connection env conf c)
    unfolding discard_connection
    discard_connection-Moves c =
        Moves-weaken (one c) (one c) (λ _. one c) (λ _. none_held) _ (λ d. omega arith)
          (λ a d. omega arith) (Moves-modify (one c) _ (λ w. refl) (λ w. refl))

    pooled-replace_first :
        (dead c : ℕ) (cs : List (Option ℕ)) (d : ℕ)
        → pooled (replace_first env conf dead c cs) d ≤ pooled cs d + one c d
    pooled-replace_first dead c [] d = omega arith
    pooled-replace_first dead c (none ∷ cs) d = pooled-replace_first dead c cs d
    pooled-replace_first dead c (some x ∷ cs) d = ground (arith, pooled-replace_first dead c cs d)

    pub replace_dead_connection-Moves :
        (dead : ℕ) → Moves none_held (λ _. none_held) (replace_dead_connection env conf dead)
    unfolding replace_dead_connection
    replace_dead_connection-Moves dead =
        Moves-bind none_held (λ _. none_held) (λ _. none_held) _ _ (Moves-gets none_held _)
          λ cs.
            Moves-if none_held (λ _. none_held) (holds env conf dead cs) _ _
              (Moves-ignore none_held (replace_entry env conf dead) (
                Moves-bind none_held one (λ _. none_held) _ _ new_connection-Moves
                  λ c.
                    Moves-bind (one c) (λ _. none_held) (λ _. none_held) _ _
                      (Moves-pool (one c) _ (λ w d. pooled-replace_first dead c w.pool d))
                      (λ _. watch_connection-Moves env none_held c)))
              (Moves-pure none_held (λ _. none_held) tt (λ d. omega arith))

  refill_connection_pool-Moves :
      (conf : Option AmqpConfig)
      → Moves none_held (λ _. none_held) (refill_connection_pool env conf)
  unfolding refill_connection_pool
  refill_connection_pool-Moves none = Moves-die none_held _
  refill_connection_pool-Moves (some c) =
      Moves-bind none_held (λ _. none_held) (λ _. none_held) _ _ (Moves-gets none_held _)
        λ old.
          Moves-bind none_held (λ _. none_held) (λ _. none_held) (close_all env old) _
            (close_all-Moves env none_held old) (λ _. make_and_install (some c) _ _)

  pub create_connection_pool-Moves :
      (conf : Option AmqpConfig)
      → Moves none_held (λ _. none_held) (create_connection_pool env conf)
  unfolding create_connection_pool
  create_connection_pool-Moves none = Moves-die none_held _
  create_connection_pool-Moves (some c) =
      Moves-if none_held (λ _. none_held) (ltb_ℤ c.connection_pool_size (pos 1)) _ _
        (Moves-raise none_held _ _) (make_and_install (some c) _ _)

  refill_if_empty-Moves :
      (conf : Option AmqpConfig) (cs : List (Option ℕ))
      → Moves none_held (λ _. none_held) (refill_if_empty env conf cs)
  refill_if_empty-Moves conf [] = refill_connection_pool-Moves conf
  refill_if_empty-Moves conf (c ∷ cs) = Moves-pure none_held _ tt (λ d. omega arith)

  -- A caller gets one connection, out of the pool or new.
  pub get_connection_from_pool-Moves :
      (conf : Option AmqpConfig) → Moves none_held one (get_connection_from_pool env conf)
  unfolding get_connection_from_pool
  get_connection_from_pool-Moves conf =
      Moves-bind none_held (λ _. none_held) one _ _ (Moves-gets none_held _)
        λ cs.
          Moves-bind none_held (λ _. none_held) one _ _ (refill_if_empty-Moves conf cs)
            (λ _. take_first-Moves conf)
