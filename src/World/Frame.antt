-- ===== src/World/Frame.antt =====
-- The frame of the actions on connections and channels: the signature, the settlements, the
-- messages and the declarations. One rule for each way to build an action.
use paota.Common.{◌≡◌, refl, ◌∙◌, Bool, true, false, Option, none, some, if◌then◌else◌}
use paota.Schema.{Error}
use paota.World.Calls.{
  caught, continue, World, Outcome, ok, err, panic, Exec, pure, raise, gets, die, modify, next_call,
  fail_if, on_error, ignore, deferring, ◌>>=◌,
}

pub record IsFrame (w w' : World) : Type 0 where
  pub signature_kept : w'.signature ≡ w.signature
  pub settled_kept : w'.settled ≡ w.settled
  pub sent_kept : w'.sent ≡ w.sent
  pub declared_kept : w'.declared ≡ w.declared

pub IsFrame-refl : (w : World) → IsFrame w w
IsFrame-refl w = record {
  signature_kept = refl;
  settled_kept = refl;
  sent_kept = refl;
  declared_kept = refl;
}

pub IsFrame-trans : {u v w : World} → IsFrame u v → IsFrame v w → IsFrame u w
IsFrame-trans p q = record {
  signature_kept = q.signature_kept ∙ p.signature_kept;
  settled_kept = q.settled_kept ∙ p.settled_kept;
  sent_kept = q.sent_kept ∙ p.sent_kept;
  declared_kept = q.declared_kept ∙ p.declared_kept;
}

pub record Keeps {A : Type 0} (m : Exec A) : Type 0 where
  pub at : (w : World) → IsFrame w (m w).1

module _ {A : Type 0} where
  pub Keeps-pure : (a : A) → Keeps (pure a)
  unfolding pure
  Keeps-pure a = record { at = IsFrame-refl }

  pub Keeps-raise : (e : Error) → Keeps (raise {A = A} e)
  unfolding raise
  Keeps-raise e = record { at = IsFrame-refl }

  pub Keeps-gets : (f : World → A) → Keeps (gets f)
  unfolding gets
  Keeps-gets f = record { at = IsFrame-refl }

  pub Keeps-if : (b : Bool) (m n : Exec A) → Keeps m → Keeps n → Keeps (if b then m else n)
  Keeps-if true m n km kn = km
  Keeps-if false m n km kn = kn

  pub Keeps-on_error :
      (m : Exec A) (h : Error → Exec A)
      → Keeps m
      → ((e : Error) → Keeps (h e))
      → Keeps (on_error m h)
  unfolding on_error
  Keeps-on_error m h km kh = record { at = λ w. go w (m w).0 (m w).1 (km.at w) }
    where
      go : (w : World) (r : Outcome A) (w' : World) → IsFrame w w' → IsFrame w (caught r h w').1
      go w (ok a) w' k = k
      go w (err e) w' k = IsFrame-trans k ((kh e).at w')
      go w panic w' k = k

  pub Keeps-deferring :
      (f : Exec (Unit {0})) (m : Exec A) → Keeps f → Keeps m → Keeps (deferring f m)
  unfolding deferring
  Keeps-deferring f m kf km = record { at = λ w. IsFrame-trans (km.at w) (kf.at (m w).1) }

module _ {A B : Type 0} where
  pub Keeps-bind :
      (m : Exec A) (f : A → Exec B) → Keeps m → ((a : A) → Keeps (f a)) → Keeps (m >>= f)
  unfolding ◌>>=◌
  Keeps-bind m f km kf = record { at = λ w. go w (m w).0 (m w).1 (km.at w) }
    where
      go : (w : World) (r : Outcome A) (w' : World) → IsFrame w w' → IsFrame w (continue r f w').1
      go w (ok a) w' k = IsFrame-trans k ((kf a).at w')
      go w (err e) w' k = k
      go w panic w' k = k

pub Keeps-die : (A : Type 0) → Keeps (die {A = A})
unfolding die
Keeps-die A = record { at = IsFrame-refl }

pub Keeps-next_call : Keeps next_call
unfolding next_call
Keeps-next_call = record {
  at = λ w. record {
    signature_kept = refl;
    settled_kept = refl;
    sent_kept = refl;
    declared_kept = refl;
  };
}

pub Keeps-fail_if : (o : Option Error) → Keeps (fail_if o)
unfolding fail_if
Keeps-fail_if none = Keeps-pure tt
Keeps-fail_if (some e) = Keeps-raise e

pub Keeps-ignore : (m : Exec (Unit {0})) → Keeps m → Keeps (ignore m)
unfolding ignore
Keeps-ignore m km = Keeps-on_error m (λ _. pure tt) km (λ _. Keeps-pure tt)

pub Keeps-modify : (f : World → World) → ((w : World) → IsFrame w (f w)) → Keeps (modify f)
unfolding modify
Keeps-modify f k = record { at = k }

pub ruleset keeps_rules = (
  Keeps-pure, Keeps-raise, Keeps-gets, Keeps-if, Keeps-on_error, Keeps-deferring, Keeps-bind,
  Keeps-die, Keeps-next_call, Keeps-fail_if, Keeps-ignore,
)
