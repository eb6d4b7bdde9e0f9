-- ===== src/Provider/Total.antt =====
-- Panics of the provider's methods, such as taking the first entry of an empty pool.
use paota.Common.{
  ℕ, zero, suc, ◌≡◌, ◌≢◌, refl, ◌∙◌, true, false, Bool, Option, none, some, List, [], ◌∷◌, ◌++◌,
  map, arith, String,
}
use paota.Common.Int.{ℤ, pos, negsuc, ◌≤ℤ◌}
use paota.Schema.{Error, refill_connection_pool as refill_failed}
use paota.Config.{AmqpConfig}
use paota.World.{
  Env, World, Publishing, Sent, PublishReply, rejected, confirm_closed, not_confirmed, silent,
  confirmed, Outcome, ok, err, panic, Exec, ◌>>=◌, continue, gets,
}
use paota.World.Inversion.{bind-eq_ok}
use paota.World.Total.{Total, Total-pure, Total-bind, Total-modify, total_rules, Total-raise}
use paota.Provider.Dialing.{create_connection}
use paota.Provider.Channels.{create_amqp_channel}
use paota.Provider.Pool.{
  rounds, create_or_clean, install_pool, close_entry, close_all, watch_connection, watch_all,
  make_connections, replacement, alive, pop_first, take_first, refill_if_empty, release_dead,
  refill_connection_pool, get_connection_from_pool, release_connection_to_pool,
}
use paota.Provider.Confirm.{
  settle_reply, publish_on_channel, with_connection, amqp_publish_with_confirm,
}

module _ (env : Env) where
  create_connection-Total : (conf : Option AmqpConfig) → Total (create_connection env conf)
  unfolding create_connection
  create_connection-Total none = search total_rules
  create_connection-Total (some c) = search total_rules depth 9

  close_entry-Total : (c : Option ℕ) → Total (close_entry env c)
  close_entry-Total none = search total_rules
  close_entry-Total (some c) = search total_rules depth 9

  close_all-Total : (cs : List (Option ℕ)) → Total (close_all env cs)
  unfolding close_all
  close_all-Total [] = Total-pure tt
  close_all-Total (c ∷ cs) =
      Total-bind (close_entry env c) _ (close_entry-Total c) (λ _. close_all-Total cs)

  watch_all-Total : (cs : List ℕ) → Total (watch_all env cs)
  watch_all-Total [] = Total-pure tt
  watch_all-Total (c ∷ cs) =
      Total-bind (watch_connection env c) _ (Total-modify _) (λ _. watch_all-Total cs)

  ruleset connection_rules =
      (total_rules, close_all-Total, watch_all-Total, create_connection-Total)

  make_connections-Total :
      (conf : Option AmqpConfig) (wrap : Error → Error) (n : ℕ) (made : List ℕ)
      → Total (make_connections env conf wrap n made)
  unfolding make_connections
  make_connections-Total conf wrap zero made = Total-pure made
  make_connections-Total conf wrap (suc n) made =
      Total-bind (create_or_clean env conf wrap made) _ (search connection_rules depth 9)
        λ c. make_connections-Total conf wrap n (made ++ c ∷ [])

  install_pool-Total :
      (conf : Option AmqpConfig) (made : List ℕ) → Total (install_pool env conf made)
  unfolding install_pool
  install_pool-Total conf made = search connection_rules depth 9

  refill_connection_pool-Total : (c : AmqpConfig) → Total (refill_connection_pool env (some c))
  unfolding refill_connection_pool
  refill_connection_pool-Total c =
      search (connection_rules, make_connections-Total, install_pool-Total) depth 9

  replacement-Total : (conf : Option AmqpConfig) → Total (replacement env conf)
  replacement-Total conf = search connection_rules depth 9

  alive-Total : (conf : Option AmqpConfig) (c : Option ℕ) → Total (alive env conf c)
  alive-Total conf none = replacement-Total conf
  alive-Total conf (some c) = search (connection_rules, replacement-Total) depth 9

  pub create_amqp_channel-Total :
      (c : ℕ) (confirm : Bool) → Total (create_amqp_channel env c confirm)
  unfolding create_amqp_channel
  create_amqp_channel-Total c true = search total_rules depth 9
  create_amqp_channel-Total c false = search total_rules depth 9

  append-ne-nil : (xs : List ℕ) (x : ℕ) → xs ++ x ∷ [] ≢ []
  append-ne-nil [] x e = cc
  append-ne-nil (y ∷ ys) x e = cc

  -- The loop makes a connection in each round.
  make_connections-ne-nil :
      (conf : Option AmqpConfig) (wrap : Error → Error) (n : ℕ) (made : List ℕ) (w : World)
      → (n ≡ zero → made ≢ [])
      → (out : List ℕ) → (make_connections env conf wrap n made w).0 ≡ ok out
      → out ≢ []
  unfolding make_connections ◌>>=◌
  make_connections-ne-nil conf wrap zero made w h out e = λ k. h refl (same ∙ k)
    where
      same : made ≡ out
      same = cc
  make_connections-ne-nil conf wrap (suc n) made w h out e =
      let (c, _, rest) = bind-eq_ok (create_or_clean env conf wrap made) _ w e in
      make_connections-ne-nil conf wrap n (made ++ c ∷ []) (create_or_clean env conf wrap made w).1
        (λ _. append-ne-nil made c) out (rw (← rest) e)

  pool-watch_all : (cs : List ℕ) (w : World) → (watch_all env cs w).1.pool ≡ w.pool
  unfolding ◌>>=◌
  pool-watch_all [] w = refl
  pool-watch_all (c ∷ cs) w = pool-watch_all cs (record w { watched = c ∷ w.watched })

  pool-install_pool :
      (conf : Option AmqpConfig) (made : List ℕ) (w : World)
      → (install_pool env conf made w).1.pool ≡ map some made
  unfolding install_pool ◌>>=◌
  pool-install_pool conf made w = pool-watch_all made (record w { pool = map some made })

  map-some-ne-nil : (xs : List ℕ) → xs ≢ [] → map some xs ≢ []
  map-some-ne-nil [] h e = h refl
  map-some-ne-nil (x ∷ xs) h e = cc

  rounds_pos : (size : ℤ) → pos 1 ≤ℤ size → rounds size ≢ zero
  rounds_pos (pos n) h = omega arith
  rounds_pos (negsuc n) h = absurd (omega arith)

  refill_connection_pool-ne-nil :
      (c : AmqpConfig) (w : World)
      → pos 1 ≤ℤ c.connection_pool_size
      → (refill_connection_pool env (some c) w).0 ≡ ok tt
      → (refill_connection_pool env (some c) w).1.pool ≢ []
  unfolding refill_connection_pool
  refill_connection_pool-ne-nil c w size e =
      let (old, _, e₁) = bind-eq_ok (gets (λ w. w.pool)) _ w e in
      let w₁ = (gets (λ w. w.pool) w).1 in
      let (_, _, e₂) = bind-eq_ok (close_all env old) _ w₁ (rw e₁ at e) in
      let w₂ = (close_all env old w₁).1 in
      let making = make_connections env (some c) refill_failed (rounds c.connection_pool_size) [] in
      let (made, done, e₃) = bind-eq_ok making _ w₂ (rw (e₁, e₂) at e) in
      let some_made =
        make_connections-ne-nil (some c) refill_failed (rounds c.connection_pool_size) [] w₂
          (λ none_left. absurd (rounds_pos c.connection_pool_size size none_left)) made done in
      rw (e₁, e₂, e₃, pool-install_pool (some c) made (making w₂).1)
        (map-some-ne-nil made some_made)

  -- After the check of the pool there is a first entry to take.
  refill_if_empty-ne-nil :
      (c : AmqpConfig) (cs : List (Option ℕ)) (w : World)
      → pos 1 ≤ℤ c.connection_pool_size
      → w.pool ≡ cs
      → (refill_if_empty env (some c) cs w).0 ≡ ok tt
      → (refill_if_empty env (some c) cs w).1.pool ≢ []
  unfolding ◌>>=◌
  refill_if_empty-ne-nil c [] w size p e = refill_connection_pool-ne-nil c w size e
  refill_if_empty-ne-nil c (x ∷ cs) w size p e = λ k. cc

  refill_if_empty-Total :
      (c : AmqpConfig) (cs : List (Option ℕ)) → Total (refill_if_empty env (some c) cs)
  refill_if_empty-Total c [] = refill_connection_pool-Total c
  refill_if_empty-Total c (x ∷ cs) = Total-pure tt

  take_entry-Total :
      (c : AmqpConfig) (cs : List (Option ℕ)) (w : World)
      → cs ≢ []
      → ((pop_first env (some c) cs >>= alive env (some c)) w).0 ≢ panic
  take_entry-Total c [] w h = absurd (h refl)
  take_entry-Total c (x ∷ cs) w h =
      (Total-bind (pop_first env (some c) (x ∷ cs)) _ (search total_rules depth 9)
          (alive-Total (some c))).at
        w

  take_first_total :
      (c : AmqpConfig) (r : Outcome (Unit {0})) (w : World)
      → r ≢ panic
      → (r ≡ ok tt → w.pool ≢ [])
      → (continue r (λ _. take_first env (some c)) w).0 ≢ panic
  unfolding ◌>>=◌
  take_first_total c (ok u) w n h = take_entry-Total c w.pool w (h refl)
  take_first_total c (err e) w n h = λ k. cc
  take_first_total c panic w n h = λ _. n refl

  pub get_connection_from_pool-Total :
      (c : AmqpConfig)
      → pos 1 ≤ℤ c.connection_pool_size
      → Total (get_connection_from_pool env (some c))
  unfolding get_connection_from_pool ◌>>=◌
  get_connection_from_pool-Total c size = record {
    at = λ w.
        take_first_total c _ _ ((refill_if_empty-Total c w.pool).at w)
          (refill_if_empty-ne-nil c w.pool w size refl);
  }

  release_dead-Total : (conf : Option AmqpConfig) (c : ℕ) → Total (release_dead env conf (some c))
  release_dead-Total conf c = search connection_rules depth 12

  pub release_connection_to_pool-Total :
      (conf : Option AmqpConfig) (c : ℕ) → Total (release_connection_to_pool env conf (some c))
  unfolding release_connection_to_pool
  release_connection_to_pool-Total conf c = search (total_rules, release_dead-Total) depth 12

  settle_reply-Total : (s : Sent) (reply : PublishReply) → Total (settle_reply s reply)
  settle_reply-Total s (rejected e) = Total-raise _
  settle_reply-Total s confirm_closed = Total-bind _ _ (Total-modify _) (λ _. Total-raise _)
  settle_reply-Total s not_confirmed = Total-bind _ _ (Total-modify _) (λ _. Total-raise _)
  settle_reply-Total s silent = Total-bind _ _ (Total-modify _) (λ _. Total-raise _)
  settle_reply-Total s confirmed = Total-bind _ _ (Total-modify _) (λ _. Total-modify _)

  publish_on_channel-Total :
      (conf : Option AmqpConfig) (s : Sent) → Total (publish_on_channel env conf s)
  unfolding publish_on_channel
  publish_on_channel-Total conf s = search (total_rules, settle_reply-Total) depth 9

  with_connection-Total :
      (conf : Option AmqpConfig) (c : ℕ) (m : Exec (Unit {0}))
      → Total m
      → Total (with_connection env conf c m)
  with_connection-Total conf c m t = record { at = t.at }

  -- With a pool size of at least one a publish never panics: it returns, with or without an error.
  pub amqp_publish_with_confirm-Total :
      (c : AmqpConfig) (key : String) (message : Publishing) (exchange : String)
      → pos 1 ≤ℤ c.connection_pool_size
      → Total (amqp_publish_with_confirm env (some c) key message exchange)
  unfolding amqp_publish_with_confirm
  amqp_publish_with_confirm-Total c key message exchange size =
      Total-bind (get_connection_from_pool env (some c)) _ (get_connection_from_pool-Total c size)
        λ conn. with_connection-Total (some c) conn _ (
          Total-bind (create_amqp_channel env conn true) _ (create_amqp_channel-Total conn true)
            (λ _. publish_on_channel-Total (some c) _))
