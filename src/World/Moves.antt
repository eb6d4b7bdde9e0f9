-- ===== src/World/Moves.antt =====
-- How actions move connections between the pool and their holders, by counting each connection. One
-- rule for each way to build an action.
use paota.Common.{
  ℕ, ◌+◌, ◌≤◌, ◌≡◌, refl, Bool, true, false, Option, none, some, List, [], ◌∷◌, ◌++◌, map,
  if◌then◌else◌, ◌==◌, leb, ltb, ◌&&◌, arith,
}
use paota.Schema.{Error}
use paota.World.Calls.{
  caught, continue, World, Outcome, ok, err, panic, Exec, pure, raise, gets, die, modify, next_call,
  fail_if, on_error, ignore, ◌>>=◌,
}

-- How often a connection is in a hand, in a list, in a pool.
abbrev pub one : ℕ → ℕ → ℕ
one c d = if c == d then 1 else 0

abbrev pub none_held : ℕ → ℕ
none_held d = 0

abbrev pub occurs : List ℕ → ℕ → ℕ
occurs [] d = 0
occurs (c ∷ cs) d = one c d + occurs cs d

abbrev pub pooled : List (Option ℕ) → ℕ → ℕ
pooled [] d = 0
pooled (none ∷ cs) d = pooled cs d
pooled (some c ∷ cs) d = one c d + pooled cs d

pub occurs-append : (xs ys : List ℕ) (d : ℕ) → occurs (xs ++ ys) d ≡ occurs xs d + occurs ys d
occurs-append [] ys d = omega arith
occurs-append (x ∷ xs) ys d = omega (arith, occurs-append xs ys d)

pub pooled-append :
    (xs ys : List (Option ℕ)) (d : ℕ) → pooled (xs ++ ys) d ≡ pooled xs d + pooled ys d
pooled-append [] ys d = omega arith
pooled-append (none ∷ xs) ys d = pooled-append xs ys d
pooled-append (some x ∷ xs) ys d = omega (arith, pooled-append xs ys d)

pub pooled-map : (xs : List ℕ) (d : ℕ) → pooled (map some xs) d ≡ occurs xs d
pooled-map [] d = refl
pooled-map (x ∷ xs) d = omega (arith, pooled-map xs d)

-- Whether a connection was opened between two calls.
abbrev pub opened : ℕ → ℕ → ℕ → ℕ
opened i j d = if leb i d && ltb d j then 1 else 0

pub opened_trans : (i j k d : ℕ) → i ≤ j → j ≤ k → opened i j d + opened j k d ≡ opened i k d
opened_trans i j k d h l = ground arith

abbrev pub got : {A : Type 0} → (A → ℕ → ℕ) → Outcome A → ℕ → ℕ
got out (ok a) d = out a d
got out (err e) d = 0
got out panic d = 0

-- From `w` to `w'`, with `inp` in hand before and `out` after: nothing is doubled, and what is new has
-- been opened in between.
pub record Moved (inp out : ℕ → ℕ) (w w' : World) : Type 0 where
  pub later : w.calls ≤ w'.calls
  pub count :
      (d : ℕ) → pooled w'.pool d + out d ≤ pooled w.pool d + inp d + opened w.calls w'.calls d

pub Moved-same :
    (inp out : ℕ → ℕ) (w w' : World)
    → ((d : ℕ) → out d ≤ inp d)
    → w'.calls ≡ w.calls
    → w'.pool ≡ w.pool
    → Moved inp out w w'
Moved-same inp out w w' h calls pool = record {
  later = omega (arith, calls);
  count = λ d. rw (pool) (omega (arith, h d));
}

pub Moved-trans :
    (inp mid out : ℕ → ℕ) (u v w : World)
    → Moved inp mid u v
    → Moved mid out v w
    → Moved inp out u w
Moved-trans inp mid out u v w p q = record {
  later = omega (arith, p.later, q.later);
  count = λ d.
      omega (arith, p.count d, q.count d, opened_trans u.calls v.calls w.calls d p.later q.later);
}

-- More in hand before, less after.
pub Moved-weaken :
    (inp inp' out out' : ℕ → ℕ) (w w' : World)
    → ((d : ℕ) → inp d ≤ inp' d)
    → ((d : ℕ) → out' d ≤ out d)
    → Moved inp out w w'
    → Moved inp' out' w w'
Moved-weaken inp inp' out out' w w' h k m = record {
  later = m.later;
  count = λ d. omega (arith, m.count d, h d, k d);
}

pub record Moves {A : Type 0} (inp : ℕ → ℕ) (out : A → ℕ → ℕ) (m : Exec A) : Type 0 where
  pub at : (w : World) → Moved inp (got out (m w).0) w (m w).1

module _ {A : Type 0} where
  pub Moves-pure :
      (inp : ℕ → ℕ) (out : A → ℕ → ℕ) (a : A) → ((d : ℕ) → out a d ≤ inp d) → Moves inp out (pure a)
  unfolding pure
  Moves-pure inp out a h = record { at = λ w. Moved-same inp (out a) w w h refl refl }

  pub Moves-raise : (inp : ℕ → ℕ) (out : A → ℕ → ℕ) (e : Error) → Moves inp out (raise {A = A} e)
  unfolding raise
  Moves-raise inp out e = record {
    at = λ w. Moved-same inp none_held w w (λ d. omega arith) refl refl;
  }

  pub Moves-die : (inp : ℕ → ℕ) (out : A → ℕ → ℕ) → Moves inp out (die {A = A})
  unfolding die
  Moves-die inp out = record { at = λ w. Moved-same inp none_held w w (λ d. omega arith) refl refl }

  pub Moves-gets : (inp : ℕ → ℕ) (f : World → A) → Moves inp (λ _. inp) (gets f)
  unfolding gets
  Moves-gets inp f = record { at = λ w. Moved-same inp inp w w (λ d. omega arith) refl refl }

  pub Moves-if :
      (inp : ℕ → ℕ) (out : A → ℕ → ℕ) (b : Bool) (m n : Exec A)
      → Moves inp out m
      → Moves inp out n
      → Moves inp out (if b then m else n)
  Moves-if inp out true m n km kn = km
  Moves-if inp out false m n km kn = kn

  pub Moves-on_error :
      (inp : ℕ → ℕ) (out : A → ℕ → ℕ) (m : Exec A) (h : Error → Exec A)
      → Moves inp out m
      → ((e : Error) → Moves none_held out (h e))
      → Moves inp out (on_error m h)
  unfolding on_error
  Moves-on_error inp out m h km kh = record { at = λ w. go w (m w).0 (m w).1 (km.at w) }
    where
      go :
          (w : World) (r : Outcome A) (w' : World)
          → Moved inp (got out r) w w'
          → Moved inp (got out (caught r h w').0) w (caught r h w').1
      go w (ok a) w' k = k
      go w (err e) w' k = Moved-trans inp none_held _ w w' _ k ((kh e).at w')
      go w panic w' k = k

module _ {A B : Type 0} where
  pub Moves-bind :
      (inp : ℕ → ℕ) (mid : A → ℕ → ℕ) (out : B → ℕ → ℕ) (m : Exec A) (f : A → Exec B)
      → Moves inp mid m
      → ((a : A) → Moves (mid a) out (f a))
      → Moves inp out (m >>= f)
  unfolding ◌>>=◌
  Moves-bind inp mid out m f km kf = record { at = λ w. go w (m w).0 (m w).1 (km.at w) }
    where
      go :
          (w : World) (r : Outcome A) (w' : World)
          → Moved inp (got mid r) w w'
          → Moved inp (got out (continue r f w').0) w (continue r f w').1
      go w (ok a) w' k = Moved-trans inp (mid a) _ w w' _ k ((kf a).at w')
      go w (err e) w' k = k
      go w panic w' k = k

-- The number of a call that opens a connection is that of a new one.
pub Moves-next_call : (inp : ℕ → ℕ) → Moves inp (λ i d. inp d + one i d) next_call
unfolding next_call
Moves-next_call inp = record { at = λ w. record { later = omega arith; count = λ d. ground arith } }

pub Moves-fail_if : (inp : ℕ → ℕ) (o : Option Error) → Moves inp (λ _. inp) (fail_if o)
unfolding fail_if
Moves-fail_if inp none = Moves-pure inp (λ _. inp) tt (λ d. omega arith)
Moves-fail_if inp (some e) = Moves-raise inp (λ _. inp) e

pub Moves-ignore :
    (inp : ℕ → ℕ) (m : Exec (Unit {0}))
    → Moves inp (λ _. none_held) m
    → Moves inp (λ _. none_held) (ignore m)
unfolding ignore
Moves-ignore inp m km =
    Moves-on_error inp (λ _. none_held) m _ km
      (λ _. Moves-pure none_held (λ _. none_held) tt (λ d. omega arith))

-- A change that leaves the pool and the number of calls alone.
pub Moves-modify :
    (inp : ℕ → ℕ) (f : World → World)
    → ((w : World) → (f w).calls ≡ w.calls)
    → ((w : World) → (f w).pool ≡ w.pool)
    → Moves inp (λ _. inp) (modify f)
unfolding modify
Moves-modify inp f calls pool = record {
  at = λ w. Moved-same inp inp w (f w) (λ d. omega arith) (calls w) (pool w);
}

pub Moves-pool :
    (inp : ℕ → ℕ) (f : World → List (Option ℕ))
    → ((w : World) (d : ℕ) → pooled (f w) d ≤ pooled w.pool d + inp d)
    → Moves inp (λ _. none_held) (modify (λ w. record w { pool = f w }))
unfolding modify
Moves-pool inp f h = record {
  at = λ w. record { later = omega arith; count = λ d. omega (arith, h w d) };
}

module _ {A : Type 0} where
  pub Moves-weaken :
      (inp inp' : ℕ → ℕ) (out out' : A → ℕ → ℕ) (m : Exec A)
      → ((d : ℕ) → inp d ≤ inp' d)
      → ((a : A) (d : ℕ) → out' a d ≤ out a d)
      → Moves inp out m
      → Moves inp' out' m
  Moves-weaken inp inp' out out' m h k km = record { at = λ w. go w (m w).0 (m w).1 (km.at w) }
    where
      go :
          (w : World) (r : Outcome A) (w' : World)
          → Moved inp (got out r) w w'
          → Moved inp' (got out' r) w w'
      go w (ok a) w' p = Moved-weaken inp inp' (out a) (out' a) w w' h (k a) p
      go w (err e) w' p = Moved-weaken inp inp' none_held none_held w w' h (λ d. omega arith) p
      go w panic w' p = Moved-weaken inp inp' none_held none_held w w' h (λ d. omega arith) p

module _ {B : Type 0} where
  -- A call outside that opens no connection.
  pub Moves-call :
      (inp : ℕ → ℕ) (out : B → ℕ → ℕ) (f : ℕ → Exec B)
      → ((i : ℕ) → Moves inp out (f i))
      → Moves inp out (next_call >>= f)
  Moves-call inp out f kf =
      Moves-bind inp (λ i d. inp d + one i d) out next_call f (Moves-next_call inp)
        (λ i.
          Moves-weaken inp (λ d. inp d + one i d) out out (f i) (λ d. omega arith)
            (λ a d. omega arith) (kf i))
