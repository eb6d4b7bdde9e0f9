-- ===== src/Provider/Effects.antt =====
-- The methods of the provider touch the pool, connections and channels, and only a confirmed publish
-- adds a message.
use paota.Common.{ℕ, zero, suc, refl, Bool, true, false, Option, none, some, List, [], ◌∷◌, ◌++◌}
use paota.Schema.{Error}
use paota.Config.{AmqpConfig}
use paota.World.{Env, World, modify}
use paota.World.Frame.{Keeps, Keeps-modify, Keeps-pure, Keeps-bind, Keeps-die, keeps_rules}
use paota.Provider.Dialing.{create_connection}
use paota.Provider.Channels.{create_amqp_channel, close_amqp_channel}
use paota.Provider.Pool.{
  create_or_clean, install_pool, replacement, alive, pop_first, refill_if_empty, release_dead,
  close_entry, close_all, watch_connection, watch_all, make_connections, refill_connection_pool,
  get_connection_from_pool, release_connection_to_pool, discard_connection,
}

Keeps-pool : (f : World → List (Option ℕ)) → Keeps (modify (λ w. record w { pool = f w }))
Keeps-pool f = Keeps-modify _ λ w. record {
  signature_kept = refl;
  settled_kept = refl;
  sent_kept = refl;
  declared_kept = refl;
}

Keeps-watched : (f : World → List ℕ) → Keeps (modify (λ w. record w { watched = f w }))
Keeps-watched f = Keeps-modify _ λ w. record {
  signature_kept = refl;
  settled_kept = refl;
  sent_kept = refl;
  declared_kept = refl;
}

Keeps-closed : (f : World → List ℕ) → Keeps (modify (λ w. record w { closed = f w }))
Keeps-closed f = Keeps-modify _ λ w. record {
  signature_kept = refl;
  settled_kept = refl;
  sent_kept = refl;
  declared_kept = refl;
}

Keeps-channels : (f : World → ℕ) → Keeps (modify (λ w. record w { channels = f w }))
Keeps-channels f = Keeps-modify _ λ w. record {
  signature_kept = refl;
  settled_kept = refl;
  sent_kept = refl;
  declared_kept = refl;
}

ruleset pool_rules = (keeps_rules, Keeps-pool, Keeps-watched, Keeps-closed, Keeps-channels)

module _ (env : Env) where
  pub create_amqp_channel-Keeps :
      (c : ℕ) (confirm : Bool) → Keeps (create_amqp_channel env c confirm)
  unfolding create_amqp_channel
  create_amqp_channel-Keeps c true = search pool_rules depth 9
  create_amqp_channel-Keeps c false = search pool_rules depth 9

  pub close_amqp_channel-Keeps : Keeps (close_amqp_channel env)
  unfolding close_amqp_channel
  close_amqp_channel-Keeps = search pool_rules

  close_entry-Keeps : (c : Option ℕ) → Keeps (close_entry env c)
  close_entry-Keeps none = search pool_rules
  close_entry-Keeps (some c) = search pool_rules depth 9

  close_all-Keeps : (cs : List (Option ℕ)) → Keeps (close_all env cs)
  unfolding close_all
  close_all-Keeps [] = Keeps-pure tt
  close_all-Keeps (c ∷ cs) =
      Keeps-bind (close_entry env c) _ (close_entry-Keeps c) (λ _. close_all-Keeps cs)

  watch_all-Keeps : (cs : List ℕ) → Keeps (watch_all env cs)
  watch_all-Keeps [] = Keeps-pure tt
  watch_all-Keeps (c ∷ cs) =
      Keeps-bind (watch_connection env c) _ (Keeps-watched _) (λ _. watch_all-Keeps cs)

  create_connection-Keeps : (conf : Option AmqpConfig) → Keeps (create_connection env conf)
  unfolding create_connection
  create_connection-Keeps none = search pool_rules
  create_connection-Keeps (some c) = search pool_rules depth 9

  ruleset connection_rules = (pool_rules, close_all-Keeps, watch_all-Keeps, create_connection-Keeps)

  make_connections-Keeps :
      (conf : Option AmqpConfig) (wrap : Error → Error) (n : ℕ) (made : List ℕ)
      → Keeps (make_connections env conf wrap n made)
  unfolding make_connections
  make_connections-Keeps conf wrap zero made = Keeps-pure made
  make_connections-Keeps conf wrap (suc n) made =
      Keeps-bind (create_or_clean env conf wrap made) _ (search connection_rules depth 9)
        λ c. make_connections-Keeps conf wrap n (made ++ c ∷ [])

  install_pool-Keeps :
      (conf : Option AmqpConfig) (made : List ℕ) → Keeps (install_pool env conf made)
  unfolding install_pool
  install_pool-Keeps conf made = search connection_rules depth 9

  refill_connection_pool-Keeps :
      (conf : Option AmqpConfig) → Keeps (refill_connection_pool env conf)
  unfolding refill_connection_pool
  refill_connection_pool-Keeps none = search pool_rules
  refill_connection_pool-Keeps (some c) =
      search (connection_rules, make_connections-Keeps, install_pool-Keeps) depth 9

  replacement-Keeps : (conf : Option AmqpConfig) → Keeps (replacement env conf)
  replacement-Keeps conf = search connection_rules depth 9

  alive-Keeps : (conf : Option AmqpConfig) (c : Option ℕ) → Keeps (alive env conf c)
  alive-Keeps conf none = replacement-Keeps conf
  alive-Keeps conf (some c) = search (connection_rules, replacement-Keeps) depth 9

  pop_first-Keeps :
      (conf : Option AmqpConfig) (cs : List (Option ℕ)) → Keeps (pop_first env conf cs)
  pop_first-Keeps conf [] = Keeps-die _
  pop_first-Keeps conf (c ∷ cs) = search pool_rules depth 9

  refill_if_empty-Keeps :
      (conf : Option AmqpConfig) (cs : List (Option ℕ)) → Keeps (refill_if_empty env conf cs)
  refill_if_empty-Keeps conf [] = refill_connection_pool-Keeps conf
  refill_if_empty-Keeps conf (c ∷ cs) = Keeps-pure tt

  pub get_connection_from_pool-Keeps :
      (conf : Option AmqpConfig) → Keeps (get_connection_from_pool env conf)
  unfolding get_connection_from_pool
  get_connection_from_pool-Keeps conf =
      search (pool_rules, alive-Keeps, pop_first-Keeps, refill_if_empty-Keeps) depth 12

  release_dead-Keeps : (conf : Option AmqpConfig) (c : Option ℕ) → Keeps (release_dead env conf c)
  release_dead-Keeps conf none = search connection_rules depth 12
  release_dead-Keeps conf (some c) = search connection_rules depth 12

  pub release_connection_to_pool-Keeps :
      (conf : Option AmqpConfig) (c : Option ℕ) → Keeps (release_connection_to_pool env conf c)
  unfolding release_connection_to_pool
  release_connection_to_pool-Keeps conf none = release_dead-Keeps conf none
  release_connection_to_pool-Keeps conf (some c) = search (pool_rules, release_dead-Keeps) depth 12

  pub discard_connection-Keeps :
      (conf : Option AmqpConfig) (c : ℕ) → Keeps (discard_connection env conf c)
  unfolding discard_connection
  discard_connection-Keeps conf c = search pool_rules
