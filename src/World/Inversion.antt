-- ===== src/World/Inversion.antt =====
-- Where a chain has succeeded, its first part has, and the rest went on from there.
use paota.Common.{◌≡◌, refl}
use paota.World.Calls.{World, Outcome, ok, err, panic, Exec, ◌>>=◌, continue}

module _ {A B : Type 0} where
  continue-eq_ok :
      (r : Outcome A) (f : A → Exec B) (w : World) {b : B}
      → (continue r f w).0 ≡ ok b
      → (a : A) × (r ≡ ok a) × (continue r f w ≡ f a w)
  continue-eq_ok (ok a) f w h = (a, refl, refl)
  continue-eq_ok (err e) f w h = cc
  continue-eq_ok panic f w h = cc

  pub bind-eq_ok :
      (m : Exec A) (f : A → Exec B) (w : World) {b : B}
      → ((m >>= f) w).0 ≡ ok b
      → (a : A) × ((m w).0 ≡ ok a) × ((m >>= f) w ≡ f a (m w).1)
  unfolding ◌>>=◌
  bind-eq_ok m f w h = continue-eq_ok (m w).0 f (m w).1 h
