-- ===== src/Consumer/Draining.antt =====
-- The workers of a consumer can always go through what they have been handed.
use paota.Common.{
  Bool, ℕ, zero, suc, ◌+◌, ◌≤◌, ◌≡◌, refl, ap, some, List, [], ◌∷◌, length, get_elem?, arith,
}
use paota.World.{Env}
use paota.Interface.{Broker}
use paota.Registrar.{Registrar, Delivery, Job, delivery, unsupported_job}
use paota.WorkerGroup.{Worker, update_at}
use paota.WorkerGroup.Assignment.{
  IsReady, deliveries, deliveries_taken, among, taken_among, taken_among-le,
}
use paota.Consumer.{Consumer}
use paota.Consumer.Interleaving.{job_done, do_job, Reach, here, next, Reach-Balanced}

abbrev jobs_left : List Worker → ℕ
jobs_left [] = 0
jobs_left (w ∷ ws) = length w.jobs + jobs_left ws

deliveries-le : (jobs : List Job) → deliveries jobs ≤ length jobs
deliveries-le [] = omega arith
deliveries-le (delivery d ∷ jobs) = omega (arith, deliveries-le jobs)
deliveries-le (unsupported_job n ∷ jobs) = omega (arith, deliveries-le jobs)

deliveries_taken-le : (ws : List Worker) → deliveries_taken ws ≤ jobs_left ws
deliveries_taken-le [] = omega arith
deliveries_taken-le (w ∷ ws) = omega (arith, deliveries-le w.jobs, deliveries_taken-le ws)

-- A worker with a job, and what is left once it is done.
record HasJob (k : ℕ) (ws : List Worker) : Type 0 where
  turn : ℕ
  worker : Worker
  job : Job
  rest : List Job
  at : get_elem? ws turn ≡ some worker
  first : worker.jobs ≡ job ∷ rest
  left : jobs_left (update_at turn (job_done rest) ws) ≡ k

HasJob-cons :
    (k : ℕ) (w : Worker) (ws : List Worker) (j : ℕ)
    → HasJob j ws
    → length w.jobs + j ≡ k
    → HasJob k (w ∷ ws)
HasJob-cons k w ws j h e = record {
  turn = suc h.turn;
  worker = h.worker;
  job = h.job;
  rest = h.rest;
  at = h.at;
  first = h.first;
  left = omega (arith, h.left, e);
}

first_worker :
    (k : ℕ) (w : Worker) (ws : List Worker) (jobs : List Job)
    → w.jobs ≡ jobs
    → jobs_left (w ∷ ws) ≡ suc k
    → ((jobs_left ws ≡ suc k) → HasJob k ws)
    → HasJob k (w ∷ ws)
first_worker k w ws [] e h later =
    HasJob-cons k w ws k (later (omega (arith, h, ap length e))) (omega (arith, ap length e))
first_worker k w ws (job ∷ rest) e h later = record {
  turn = 0;
  worker = w;
  job = job;
  rest = rest;
  at = refl;
  first = e;
  left = omega (arith, h, ap length e);
}

some_job : (k : ℕ) (ws : List Worker) → jobs_left ws ≡ suc k → HasJob k ws
some_job k [] h = absurd (omega (arith, h))
some_job k (w ∷ ws) h = first_worker k w ws w.jobs refl h (some_job k ws)

module _ (env : Env) (r : Registrar) (broker : Broker) where
  drain :
      (k : ℕ) (t v : Consumer) (done : List Delivery)
      → Reach env r broker t [] done v
      → jobs_left v.group.workers ≡ k
      → (u : Consumer) × (all : List Delivery) × Reach env r broker t [] all u
        × (deliveries_taken u.group.workers ≡ 0)
  drain zero t v done reach h =
      (v, done, reach, omega (arith, h, deliveries_taken-le v.group.workers))
  drain (suc k) t v done reach h =
      let j = some_job k v.group.workers h in
      drain k t _ _ (next reach (do_job j.turn j.worker j.job j.rest j.at j.first)) j.left

  -- From whatever has been reached over a ready group, the workers can go through their jobs with no
  -- delivery arriving. Then none waits: the deliveries done before and by then are, as often each,
  -- those that have arrived and those that the workers had at first, and there is exactly one answer
  -- for each.
  pub Reach-drained :
      (s t : Consumer) (came done : List Delivery)
      → IsReady s.group
      → Reach env r broker s came done t
      → (u : Consumer) × (rest : List Delivery) × Reach env r broker t [] rest u
        × (deliveries_taken u.group.workers ≡ 0)
        × ((p : Delivery → Bool)
            → among p rest + among p done ≡ taken_among p s.group.workers + among p came)
        × (length u.world.settled ≡ length s.world.settled + length done + length rest)
  Reach-drained s t came done ready reach =
      let (u, rest, more, none_left) = drain (jobs_left t.group.workers) t t [] here refl in
      let before = Reach-Balanced env r broker ready reach in
      let after = Reach-Balanced env r broker before.ready more in
      (
        u,
        rest,
        more,
        none_left,
        λ p.
            omega (arith, before.each p, after.each p, none_left, taken_among-le p u.group.workers),
        omega (arith, before.settled, after.settled),
      )
