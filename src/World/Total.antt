-- ===== src/World/Total.antt =====
-- Actions that return or fail, but never panic.
use paota.Common.{refl, ◌≢◌, Bool, true, false, Option, none, some, if◌then◌else◌}
use paota.Schema.{Signature, Error}
use paota.World.Calls.{
  caught, attempted, continue, World, Outcome, ok, err, panic, Exec, pure, raise, gets, modify,
  modify_signature, next_call, fail_if, on_error, ignore, deferring, attempt, ◌>>=◌,
}

pub record Total {A : Type 0} (m : Exec A) : Type 0 where
  pub at : (w : World) → (m w).0 ≢ panic

module _ {A : Type 0} where
  pub Total-pure : (a : A) → Total (pure a)
  unfolding pure
  Total-pure a = record { at = λ w e. cc }

  pub Total-raise : (e : Error) → Total (raise {A = A} e)
  unfolding raise
  Total-raise e = record { at = λ w h. cc }

  pub Total-gets : (f : World → A) → Total (gets f)
  unfolding gets
  Total-gets f = record { at = λ w e. cc }

  pub Total-if : (b : Bool) (m n : Exec A) → Total m → Total n → Total (if b then m else n)
  Total-if true m n tm tn = tm
  Total-if false m n tm tn = tn

  pub Total-on_error :
      (m : Exec A) (h : Error → Exec A)
      → Total m
      → ((e : Error) → Total (h e))
      → Total (on_error m h)
  unfolding on_error
  Total-on_error m h tm th = record { at = λ w. go (m w).0 (m w).1 (tm.at w) }
    where
      go : (r : Outcome A) (w' : World) → r ≢ panic → (caught r h w').0 ≢ panic
      go (ok a) w' n = λ e. cc
      go (err e) w' n = (th e).at w'
      go panic w' n = n

  pub Total-deferring : (f : Exec (Unit {0})) (m : Exec A) → Total m → Total (deferring f m)
  unfolding deferring
  Total-deferring f m tm = record { at = tm.at }

module _ {A B : Type 0} where
  pub Total-bind :
      (m : Exec A) (f : A → Exec B) → Total m → ((a : A) → Total (f a)) → Total (m >>= f)
  unfolding ◌>>=◌
  Total-bind m f tm tf = record { at = λ w. go (m w).0 (m w).1 (tm.at w) }
    where
      go : (r : Outcome A) (w' : World) → r ≢ panic → (continue r f w').0 ≢ panic
      go (ok a) w' n = (tf a).at w'
      go (err e) w' n = λ h. cc
      go panic w' n = λ _. n refl

pub Total-next_call : Total next_call
unfolding next_call
Total-next_call = record { at = λ w e. cc }

pub Total-modify : (f : World → World) → Total (modify f)
unfolding modify
Total-modify f = record { at = λ w e. cc }

pub Total-modify_signature : (f : Signature → Signature) → Total (modify_signature f)
unfolding modify_signature
Total-modify_signature f = record { at = λ w e. cc }

pub Total-fail_if : (o : Option Error) → Total (fail_if o)
unfolding fail_if
Total-fail_if none = Total-pure tt
Total-fail_if (some e) = Total-raise e

pub Total-ignore : (m : Exec (Unit {0})) → Total m → Total (ignore m)
unfolding ignore
Total-ignore m tm = Total-on_error m (λ _. pure tt) tm (λ _. Total-pure tt)

pub Total-attempt : (m : Exec (Unit {0})) → Total m → Total (attempt m)
unfolding attempt
Total-attempt m tm = record { at = λ w. go (m w).0 (m w).1 (tm.at w) }
  where
    go : (r : Outcome (Unit {0})) (w' : World) → r ≢ panic → (attempted r w').0 ≢ panic
    go (ok a) w' n = λ e. cc
    go (err e) w' n = λ h. cc
    go panic w' n = λ _. n refl

pub ruleset total_rules = (
  Total-pure, Total-raise, Total-gets, Total-if, Total-on_error, Total-deferring, Total-bind,
  Total-next_call, Total-modify, Total-modify_signature, Total-fail_if, Total-ignore, Total-attempt,
)
