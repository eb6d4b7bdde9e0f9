-- ===== src/Registrar/Endless.antt =====
-- A task with more retries than the interval can count.
use native.Mathlib.Decide.{dec_lt}
use paota.Common.{List, ℕ, zero, suc, ◌≤◌, ◌≡◌, ap, ◌∙◌, arith, false}
use paota.Common.Int.{pos}
use paota.Schema.{Arg, Signature, Value}
use paota.Broker.{has_raw_args}
use paota.World.{Env, World}
use paota.Interface.{Broker}
use paota.Registrar.Tasks.{Registrar}
use paota.Registrar.Retry.{retries_exhausted}
use paota.Registrar.Progress.{retry_task-stuck}
use paota.Registrar.RoundTrip.{IsWire}
use paota.Registrar.Json.{IsReadable}
use paota.Registrar.Lifecycle.{
  Trying, Trying-left, Trying-retry, Trying-delivered_again, failed_once, failed_once-Trying,
  failed_often,
}

-- A task that has been tried again at most 49 times.
abbrev pub Early : ℕ → Signature → Type 0
Early c s = (n : ℕ) × (n ≤ 49) × Trying c n s

module _ (env : Env) (r : Registrar) (broker : Broker) (wire : Value → Value)
    (lossless : IsWire wire) (reread : List Arg → List Arg)
    (codec : (s : Signature) → has_raw_args s.raw_args ≡ false → IsReadable env reread s) where
  Early-failed_once :
      (c : ℕ) (w : World)
      → 50 ≤ c
      → Early c w.signature
      → Early c (failed_once env r broker wire lossless reread codec w).signature
  Early-failed_once c w many (n, few, t) = elim (dec_lt n 49) [
    | yes below ↦ (
      suc n,
      omega arith,
      failed_once-Trying env r broker wire lossless reread codec c n w t (omega arith) below,
    )
    | no above ↦
        let last : n ≡ 49 = omega arith in
        let stuck =
          retry_task-stuck env r broker w (Trying-left env r broker c n w.signature t (omega arith))
            (t.done ∙ ap pos last) in
        (
          49,
          omega arith,
          Trying-delivered_again env r broker wire lossless reread codec c 49 _
              (Trying-retry env r broker c n w t 49 (omega arith) stuck.0),
        )
  ]

  Early-failed_often :
      (c k : ℕ) (w : World)
      → 50 ≤ c
      → Early c w.signature
      → Early c (failed_often env r broker wire lossless reread codec k w).signature
  unfolding failed_often
  Early-failed_often c zero w many e = e
  Early-failed_often c (suc k) w many e =
      Early-failed_often c k (failed_once env r broker wire lossless reread codec w) many
        (Early-failed_once c w many e)

  -- A task with 50 retries or more, none done yet, and its numbers within 32 bits never exhausts them,
  -- however often it fails and is read again, from its headers or from JSON that is read as it was
  -- written: the count stays at 49 or below.
  pub failed_task-endless :
      (c k : ℕ) (w : World)
      → 50 ≤ c
      → Trying c 0 w.signature
      → let s = (failed_often env r broker wire lossless reread codec k w).signature in
        (retries_exhausted s ≡ false) × (n : ℕ) × (n ≤ 49) × (s.retries_done ≡ pos n)
  failed_task-endless c k w many t =
      let (n, few, u) = Early-failed_often c k w many (0, omega arith, t) in
      (Trying-left env r broker c n _ u (omega arith), n, few, u.done)
