-- ===== src/Provider/Sharing.antt =====
-- The pool under several callers: each method that holds the mutex is a step, and between the steps
-- of one caller those of others come in any order.
use paota.Common.{ℕ, ◌+◌, ◌≤◌, ◌≡◌, refl, sym, subst, Option, some, List, [], ◌∷◌, ◌++◌, arith}
use paota.Schema.{Error}
use paota.Config.{AmqpConfig}
use paota.World.{Env, World, Outcome, ok, err, panic}
use paota.World.Moves.{one, none_held, occurs, pooled, opened, occurs-append, got, Moved}
use paota.Provider.Pool.{
  get_connection_from_pool, release_connection_to_pool, discard_connection, replace_dead_connection,
}
use paota.Provider.Ownership.{
  get_connection_from_pool-Moves, release_connection_to_pool-Moves, discard_connection-Moves,
  replace_dead_connection-Moves,
}

-- The connections that callers have taken and not given back.
pub record Shared : Type 0 where
  pub world : World
  pub lent : List ℕ

module _ (env : Env) (conf : Option AmqpConfig) where
  -- `elsewhere` is what the program does without the pool: it opens channels, publishes, waits.
  pub data Step (s t : Shared) : Type 0 where
    borrow :
        (c : ℕ)
        → (get_connection_from_pool env conf s.world).0 ≡ ok c
        → t.world ≡ (get_connection_from_pool env conf s.world).1
        → t.lent ≡ c ∷ s.lent
        → Step s t
    turned_away :
        (e : Error)
        → (get_connection_from_pool env conf s.world).0 ≡ err e
        → t.world ≡ (get_connection_from_pool env conf s.world).1
        → t.lent ≡ s.lent
        → Step s t
    give_back :
        (c : ℕ) (before after : List ℕ)
        → s.lent ≡ before ++ c ∷ after
        → t.world ≡ (release_connection_to_pool env conf (some c) s.world).1
        → t.lent ≡ before ++ after
        → Step s t
    discard :
        (c : ℕ) (before after : List ℕ)
        → s.lent ≡ before ++ c ∷ after
        → t.world ≡ (discard_connection env conf c s.world).1
        → t.lent ≡ before ++ after
        → Step s t
    replace :
        (dead : ℕ)
        → t.world ≡ (replace_dead_connection env conf dead s.world).1
        → t.lent ≡ s.lent
        → Step s t
    elsewhere :
        t.world.pool ≡ s.world.pool → s.world.calls ≤ t.world.calls → t.lent ≡ s.lent → Step s t

  pub data Reach (s : Shared) : Shared → Type 0 where
    here : Reach s s
    next : {t u : Shared} → Reach s t → Step t u → Reach s u

-- Where a connection is, in all.
abbrev pub places : Shared → ℕ → ℕ
places s d = pooled s.world.pool d + occurs s.lent d

pub record IsShared (s : Shared) : Type 0 where
  pub once : (d : ℕ) → places s d ≤ 1
  pub fresh : (d : ℕ) → s.world.calls ≤ d → places s d ≡ 0

-- What every step comes to.
record Changes (s t : Shared) : Type 0 where
  later : s.world.calls ≤ t.world.calls
  count : (d : ℕ) → places t d ≤ places s d + opened s.world.calls t.world.calls d

Changes-IsShared : (s t : Shared) → Changes s t → IsShared s → IsShared t
Changes-IsShared s t c i = record {
  once = λ d. ground (arith, c.count d, c.later, i.once d, i.fresh d);
  fresh = λ d h. ground (arith, c.count d, c.later, i.fresh d);
}

occurs_cut :
    (before after : List ℕ) (c : ℕ) (d : ℕ)
    → occurs (before ++ c ∷ after) d ≡ occurs (before ++ after) d + one c d
occurs_cut before after c d =
    omega (arith, occurs-append before (c ∷ after) d, occurs-append before after d)

-- A method of the provider that takes `inp` from a caller and gives `out`.
Moved-Changes :
    (s t : Shared) (inp out : ℕ → ℕ) (w : World)
    → Moved inp out s.world w
    → t.world ≡ w
    → ((d : ℕ) → occurs t.lent d + inp d ≤ occurs s.lent d + out d)
    → Changes s t
Moved-Changes s t inp out w m e h = record {
  later = subst (λ v. s.world.calls ≤ v.calls) (sym e) m.later;
  count = λ d.
      subst (λ v. pooled v.pool d + occurs t.lent d ≤ places s d + opened s.world.calls v.calls d)
        (sym e) (omega (arith, m.count d, h d));
}

forget :
    {inp : ℕ → ℕ} (o : Outcome (Unit {0})) {w w' : World}
    → Moved inp (got (λ _. none_held) o) w w'
    → Moved inp none_held w w'
forget (ok x) m = m
forget (err e) m = m
forget panic m = m

module _ (env : Env) (conf : Option AmqpConfig) where
  Step-Changes : {s t : Shared} → Step env conf s t → Changes s t
  Step-Changes {s} {t} (borrow c done world lent) =
      Moved-Changes s t none_held (one c) _
        (subst
          (λ r. Moved none_held (got one r) s.world (get_connection_from_pool env conf s.world).1)
          done ((get_connection_from_pool-Moves env conf).at s.world))
        world (λ d. rw lent (omega arith))
  Step-Changes {s} {t} (turned_away e failed world lent) =
      Moved-Changes s t none_held none_held _
        (subst
          (λ r. Moved none_held (got one r) s.world (get_connection_from_pool env conf s.world).1)
          failed ((get_connection_from_pool-Moves env conf).at s.world))
        world (λ d. rw lent (omega arith))
  Step-Changes {s} {t} (give_back c before after held world lent) =
      Moved-Changes s t (one c) none_held _
        (forget _ ((release_connection_to_pool-Moves env conf c).at s.world)) world
        (λ d. rw (held, lent) (omega (arith, occurs_cut before after c d)))
  Step-Changes {s} {t} (discard c before after held world lent) =
      Moved-Changes s t (one c) none_held _
        (forget _ ((discard_connection-Moves env conf c).at s.world)) world
        (λ d. rw (held, lent) (omega (arith, occurs_cut before after c d)))
  Step-Changes {s} {t} (replace dead world lent) =
      Moved-Changes s t none_held none_held _
        (forget _ ((replace_dead_connection-Moves env conf dead).at s.world)) world
        (λ d. rw lent (omega arith))
  Step-Changes {s} {t} (elsewhere pool calls lent) = record {
    later = calls;
    count = λ d. rw (pool, lent) (omega arith);
  }

  -- Every step keeps each connection in one place.
  pub Step-IsShared : {s t : Shared} → Step env conf s t → IsShared s → IsShared t
  Step-IsShared st i = Changes-IsShared _ _ (Step-Changes st) i

  Reach-IsShared : {s t : Shared} → Reach env conf s t → IsShared s → IsShared t
  Reach-IsShared here i = i
  Reach-IsShared (next r st) i = Step-IsShared st (Reach-IsShared r i)

  -- From an empty pool on, in whichever order callers take connections, give them back and discard
  -- them and dead ones are replaced: no connection is twice in the pool, with two callers, or in the
  -- pool while a caller has it.
  pub Reach-exclusive :
      (w : World) (t : Shared) (d : ℕ)
      → w.pool ≡ []
      → Reach env conf (record { world = w; lent = [] }) t
      → pooled t.world.pool d + occurs t.lent d ≤ 1
  Reach-exclusive w t d empty r = (Reach-IsShared r (at_first w empty)).once d
    where
      at_first : (w : World) → w.pool ≡ [] → IsShared (record { world = w; lent = [] })
      at_first w e = record { once = λ d. rw e (omega arith); fresh = λ d h. rw e refl }
