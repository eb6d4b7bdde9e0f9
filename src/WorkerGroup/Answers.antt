-- ===== src/WorkerGroup/Answers.antt =====
-- What the workers do with the deliveries among their jobs.
use paota.Common.{
  subst, sym, ◌≢◌, ℕ, ◌+◌, ◌≤◌, ◌≡◌, refl, List, [], ◌∷◌, ◌++◌, length, length-append, ap, ◌∙◌,
  arith,
}
use paota.World.{
  Settlement, Env, World, Outcome, ok, err, panic, Exec, pure, ignore, on_error, caught, continue,
  ◌>>=◌, ◌>>◌,
}
use paota.Interface.{Broker}
use paota.Registrar.{Registrar, Job, delivery, unsupported_job, processor}
use paota.Registrar.Settling.{Handled, completed, passed_on, dropped, requeued, rejected}
use paota.Registrar.Receiving.{Received, unreadable, read, amqp_msg_processor-Received}
use paota.WorkerGroup.{Worker, work}
use paota.WorkerGroup.Assignment.{deliveries, deliveries-append, deliveries_taken}
use paota.WorkerGroup.Survival.{work-ok, processor-Total}

-- So many deliveries more are answered, with at most one message for each.
pub record Answered (n : ℕ) (w w' : World) : Type 0 where
  pub settled : length w'.settled ≡ length w.settled + n
  pub sent : length w'.sent ≤ length w.sent + n

Answered-trans : (m n : ℕ) (u v w : World) → Answered m u v → Answered n v w → Answered (m + n) u w
Answered-trans m n u v w a b = record {
  settled = omega (arith, a.settled, b.settled);
  sent = omega (arith, a.sent, b.sent);
}

pub longer : {A : Type 0} (x : A) (xs ys : List A) → ys ≡ xs ++ x ∷ [] → length ys ≡ length xs + 1
longer x xs ys e = ap length e ∙ length-append xs (x ∷ [])

one_answer :
    (s : Settlement) (w w' : World)
    → w'.settled ≡ w.settled ++ s ∷ []
    → w'.sent ≡ w.sent
    → Answered 1 w w'
one_answer s w w' a b =
    let same : length w'.sent ≡ length w.sent = ap length b in
    record { settled = longer s w.settled w'.settled a; sent = omega (arith, same) }

module _ (env : Env) (r : Registrar) (broker : Broker) where
  Handled-Answered : {late : _} (w w' : World) → Handled env r broker late w w' → Answered 1 w w'
  Handled-Answered w w' (completed t f a b c d e g) = one_answer _ w w' e g
  Handled-Answered w w' (passed_on queue m u a b) =
      let one_more = longer m w.sent w'.sent b in
      record { settled = longer _ w.settled w'.settled a; sent = omega (arith, one_more) }
  Handled-Answered w w' (dropped u a b) = one_answer _ w w' a b
  Handled-Answered w w' (requeued queue u a b) = one_answer _ w w' a b
  Handled-Answered w w' (rejected a b c d) = one_answer _ w w' c d

  Received-Answered : {d : _} (w w' : World) → Received env r broker d w w' → Answered 1 w w'
  Received-Answered w w' (unreadable a b c) = one_answer _ w w' b c
  Received-Answered w w' (read s a b h) =
      let k = Handled-Answered (record w { signature = s }) w' h in
      record { settled = k.settled; sent = k.sent }

  pub processor-Answered :
      (job : Job) (w : World) → Answered (deliveries (job ∷ [])) w (processor env r broker job w).1
  unfolding processor pure
  processor-Answered (delivery d) w =
      Received-Answered w _ (amqp_msg_processor-Received env r broker d w)
  processor-Answered (unsupported_job n) w = record { settled = omega arith; sent = omega arith }

  go_on :
      (m n : ℕ) (o : Outcome (Unit {0})) (rest : Exec (Unit {0})) (w v : World)
      → o ≢ panic
      → Answered m w v
      → ((u : World) → Answered n u (rest u).1)
      → let (a, u) = caught o (λ _. pure tt) v in Answered (m + n) w (continue a (λ _. rest) u).1
  unfolding pure
  go_on m n (ok x) rest w v h a k = Answered-trans m n w v _ a (k v)
  go_on m n (err e) rest w v h a k = Answered-trans m n w v _ a (k v)
  go_on m n panic rest w v h a k = absurd (h refl)

  -- A worker answers each delivery among its jobs exactly once, whatever they are and do, and sends at
  -- most one message for each.
  pub work-Answered :
      (jobs : List Job) (w : World) → Answered (deliveries jobs) w (work env r broker jobs w).1
  unfolding work pure ◌>>=◌ ignore on_error
  work-Answered [] w = record { settled = omega arith; sent = omega arith }
  work-Answered (job ∷ jobs) w =
      subst (λ n. Answered n w (work env r broker (job ∷ jobs) w).1)
        (sym (deliveries-append (job ∷ []) jobs))
        (go_on (deliveries (job ∷ [])) (deliveries jobs) (processor env r broker job w).0
          (work env r broker jobs) w _ ((processor-Total env r broker job).at w)
          (processor-Answered job w) (work-Answered jobs))

  -- The workers of a group, one after the other.
  unfoldable pub serve : List Worker → Exec (Unit {0})
  serve [] = pure tt
  serve (w ∷ ws) = do work env r broker w.jobs; serve ws

  pub serve-Answered :
      (ws : List Worker) (w : World) → Answered (deliveries_taken ws) w (serve ws w).1
  unfolding serve pure ◌>>=◌
  serve-Answered [] w = record { settled = omega arith; sent = omega arith }
  serve-Answered (v ∷ ws) w = rw (work-ok env r broker v.jobs w) (
      Answered-trans (deliveries v.jobs) (deliveries_taken ws) w _ _ (work-Answered v.jobs w)
        (serve-Answered ws _))
