-- ===== src/Provider/Parts.antt =====
-- Where the connections are after the parts of the provider's methods.
use paota.Common.{ℕ, ◌+◌, ◌≤◌, refl, Option, none, some, List, [], ◌∷◌, arith}
use paota.Config.{AmqpConfig}
use paota.World.{Env, next_call}
use paota.World.Moves.{
  one, none_held, Moves, Moves-pure, Moves-raise, Moves-if, Moves-bind, Moves-next_call,
  Moves-fail_if, Moves-modify, Moves-call,
}
use paota.Provider.Dialing.{create_connection}
use paota.Provider.Pool.{close_entry, close_all, is_closed, watch_connection, watch_all}

-- The connection that an entry holds.
abbrev pub entry : Option ℕ → ℕ → ℕ
entry none d = 0
entry (some c) d = one c d

pub nothing : (d : ℕ) → none_held d ≤ none_held d
nothing d = omega arith

module _ (env : Env) where
  pub watch_connection-Moves : (inp : ℕ → ℕ) (c : ℕ) → Moves inp (λ _. inp) (watch_connection env c)
  watch_connection-Moves inp c = Moves-modify inp _ (λ w. refl) (λ w. refl)

  pub watch_all-Moves : (inp : ℕ → ℕ) (cs : List ℕ) → Moves inp (λ _. inp) (watch_all env cs)
  watch_all-Moves inp [] = Moves-pure inp (λ _. inp) tt (λ d. omega arith)
  watch_all-Moves inp (c ∷ cs) =
      Moves-bind inp (λ _. inp) (λ _. inp) (watch_connection env c) _ (watch_connection-Moves inp c)
        (λ _. watch_all-Moves inp cs)

  pub is_closed-Moves : (inp : ℕ → ℕ) (c : ℕ) → Moves inp (λ _. inp) (is_closed env c)
  is_closed-Moves inp c =
      Moves-call inp (λ _. inp) _ (λ i. Moves-pure inp (λ _. inp) _ (λ d. omega arith))

  pub close_entry-Moves : (inp : ℕ → ℕ) (c : Option ℕ) → Moves inp (λ _. inp) (close_entry env c)
  close_entry-Moves inp none = Moves-pure inp (λ _. inp) tt (λ d. omega arith)
  close_entry-Moves inp (some c) =
      Moves-bind inp (λ _. inp) (λ _. inp) (is_closed env c) _ (is_closed-Moves inp c)
        λ dead.
          Moves-if inp (λ _. inp) dead _ _ (Moves-pure inp (λ _. inp) tt (λ d. omega arith))
            (Moves-modify inp _ (λ w. refl) (λ w. refl))

  pub close_all-Moves :
      (inp : ℕ → ℕ) (cs : List (Option ℕ)) → Moves inp (λ _. inp) (close_all env cs)
  unfolding close_all
  close_all-Moves inp [] = Moves-pure inp (λ _. inp) tt (λ d. omega arith)
  close_all-Moves inp (c ∷ cs) =
      Moves-bind inp (λ _. inp) (λ _. inp) (close_entry env c) _ (close_entry-Moves inp c)
        (λ _. close_all-Moves inp cs)

  pub create_connection-Moves :
      (inp : ℕ → ℕ) (conf : Option AmqpConfig)
      → Moves inp (λ c d. inp d + one c d) (create_connection env conf)
  unfolding create_connection
  create_connection-Moves inp none = Moves-raise inp _ _
  create_connection-Moves inp (some conf) =
      Moves-bind inp (λ i d. inp d + one i d) _ next_call _ (Moves-next_call inp)
        λ i.
          Moves-bind (λ d. inp d + one i d) (λ _ d. inp d + one i d) _ _ _ (Moves-fail_if _ _)
            (λ _. Moves-pure _ _ i (λ d. omega arith))
