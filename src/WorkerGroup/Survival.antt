-- ===== src/WorkerGroup/Survival.antt =====
-- The loop of a worker over the jobs that it is handed.
use paota.Common.{◌≡◌, ◌≢◌, refl, List, [], ◌∷◌}
use paota.Schema.{Bytes, Signature}
use paota.World.{
  Env, World, Outcome, ok, err, panic, Exec, pure, ignore, on_error, caught, continue, ◌>>=◌,
}
use paota.World.Total.{Total, Total-pure, Total-bind, Total-modify}
use paota.Interface.{Broker}
use paota.Registrar.{
  Registrar, Delivery, Job, delivery, unsupported_job, process_decoded, process_body,
  amqp_msg_processor, processor,
}
use paota.Registrar.Handling.{reject-Total, amqp_process_signature-ne-panic}
use paota.Registrar.Receiving.{decoded-ne-panic}
use paota.WorkerGroup.{work}

module _ (env : Env) (r : Registrar) (broker : Broker) where
  process_decoded-Total :
      (o : Outcome Signature) → o ≢ panic → Total (process_decoded env r broker o)
  process_decoded-Total (ok s) h =
      Total-bind _ _ (Total-modify _)
        (λ _. record { at = amqp_process_signature-ne-panic env r broker })
  process_decoded-Total (err e) h = reject-Total env r broker e
  process_decoded-Total panic h = absurd (h refl)

  process_body-Total : (d : Delivery) (body : Bytes) → Total (process_body env r broker d body)
  process_body-Total d [] = reject-Total env r broker _
  process_body-Total d (b ∷ bs) = process_decoded-Total _ (decoded-ne-panic env r broker d)

  pub processor-Total : (job : Job) → Total (processor env r broker job)
  unfolding processor amqp_msg_processor
  processor-Total (delivery d) = process_body-Total d d.body
  processor-Total (unsupported_job n) = Total-pure tt

  go_on :
      (o : Outcome (Unit {0})) (rest : Exec (Unit {0})) (v : World)
      → o ≢ panic
      → ((u : World) → (rest u).0 ≡ ok tt)
      → let (a, u) = caught o (λ _. pure tt) v in (continue a (λ _. rest) u).0 ≡ ok tt
  unfolding pure
  go_on (ok x) rest v h k = k v
  go_on (err e) rest v h k = k v
  go_on panic rest v h k = absurd (h refl)

  -- A worker goes through all its jobs: whatever they are and do, its loop does not panic.
  pub work-ok : (jobs : List Job) (w : World) → (work env r broker jobs w).0 ≡ ok tt
  unfolding work ◌>>=◌ ignore on_error
  work-ok [] w = refl
  work-ok (job ∷ jobs) w =
      go_on (processor env r broker job w).0 (work env r broker jobs) _ ((processor-Total job).at w)
        (work-ok jobs)
