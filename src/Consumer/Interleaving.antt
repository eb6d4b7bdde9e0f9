-- ===== src/Consumer/Interleaving.antt =====
-- The loop of the consumer and the workers at the same time: deliveries arrive and jobs are done in
-- any order. The jobs of a worker are here those that it has not done yet.
use paota.Common.{
  Bool, ◌++◌, length-append, refl, ℕ, zero, suc, ◌+◌, ◌-◌, ◌≤◌, ◌≡◌, ap, subst, ◌∙◌, Option, some,
  List, [], ◌∷◌, length, get_elem?, All, false, arith,
}
use paota.Schema.{Error}
use paota.World.{Env, World, nack}
use paota.Registrar.Settling.{settle-settled, settle-sent}
use paota.Interface.{Broker}
use paota.Registrar.{Registrar, Delivery, Job, delivery, unsupported_job, processor}
use paota.WorkerGroup.{Worker, WorkerGroup, update_at}
use paota.WorkerGroup.Assignment.{
  IsReady, IsServing, length-update_at, deliveries, among, jobs_among, jobs_among-append,
  taken_among, assign_job-Assigned,
}
use paota.WorkerGroup.Answers.{longer, processor-Answered}
use paota.Consumer.{
  arrival, Consumer, goes_on, returns, handle_event, process_delivery, process_body,
}

-- A worker is through with its first job.
abbrev pub job_done : List Job → Worker → Worker
job_done rest w = record w { jobs = rest }

abbrev pub with_jobs : ℕ → List Job → WorkerGroup → WorkerGroup
with_jobs i rest wg = record wg { workers = update_at i (job_done rest) wg.workers }

-- The delivery that a job is.
abbrev pub delivered_by : Job → List Delivery
delivered_by (delivery d) = d ∷ []
delivered_by (unsupported_job n) = []

module _ (env : Env) (r : Registrar) (broker : Broker) where
  -- With the deliveries that arrive, and those that are answered. `refuse` ends `StartConsumer`, which
  -- is called again over the same workers. `elsewhere` is what is done between: connections and
  -- channels are opened and closed.
  pub data Step (s : Consumer) : List Delivery → List Delivery → Consumer → Type 0 where
    arrive :
        (d : Delivery) {t : Consumer}
        → handle_event env s (arrival d) ≡ goes_on t
        → Step s (d ∷ []) [] t
    refuse :
        (d : Delivery) {o : Option Error} {t : Consumer}
        → handle_event env s (arrival d) ≡ returns o t
        → Step s (d ∷ []) (d ∷ []) t
    do_job :
        (i : ℕ) (w : Worker) (job : Job) (rest : List Job)
        → get_elem? s.group.workers i ≡ some w
        → w.jobs ≡ job ∷ rest
        → Step s [] (delivered_by job) (record s {
          world = (processor env r broker job s.world).1;
          group = with_jobs i rest s.group;
        })
    elsewhere :
        (v : World)
        → v.settled ≡ s.world.settled
        → v.sent ≡ s.world.sent
        → Step s [] [] (record s { world = v })

  -- The latest delivery stands first.
  pub data Reach (s : Consumer) : List Delivery → List Delivery → Consumer → Type 0 where
    here : Reach s [] [] s
    next :
        {came done more now : List Delivery} {t u : Consumer}
        → Reach s came done t
        → Step t more now u
        → Reach s (more ++ came) (now ++ done) u

among-append :
    (p : Delivery → Bool) (xs ys : List Delivery) → among p (xs ++ ys) ≡ among p xs + among p ys
among-append p [] ys = omega arith
among-append p (x ∷ xs) ys = omega (arith, among-append p xs ys)

among-delivered_by :
    (p : Delivery → Bool) (job : Job) → jobs_among p (job ∷ []) ≡ among p (delivered_by job)
among-delivered_by p (delivery d) = refl
among-delivered_by p (unsupported_job n) = refl

length-delivered_by : (job : Job) → deliveries (job ∷ []) ≡ length (delivered_by job)
length-delivered_by (delivery d) = refl
length-delivered_by (unsupported_job n) = refl

taken_among-with_jobs :
    (p : Delivery → Bool) (ws : List Worker) (i : ℕ) (w : Worker) (job : Job) (rest : List Job)
    → get_elem? ws i ≡ some w
    → w.jobs ≡ job ∷ rest
    → taken_among p ws ≡ jobs_among p (job ∷ []) + taken_among p (update_at i (job_done rest) ws)
taken_among-with_jobs p [] i w job rest e h = cc
taken_among-with_jobs p (v ∷ ws) zero w job rest e h =
    let same : v ≡ w = cc in
    let jobs : v.jobs ≡ job ∷ rest = ap (λ (u : Worker). u.jobs) same ∙ h in
    omega (arith, ap (jobs_among p) jobs, jobs_among-append p (job ∷ []) rest)
taken_among-with_jobs p (v ∷ ws) (suc i) w job rest e h =
    omega (arith, taken_among-with_jobs p ws i w job rest e h)

IsServing-with_jobs :
    (ws : List Worker) (i : ℕ) (rest : List Job)
    → All IsServing ws
    → All IsServing (update_at i (job_done rest) ws)
IsServing-with_jobs [] i rest a = a
IsServing-with_jobs (w ∷ ws) zero rest (a, more) = (a, more)
IsServing-with_jobs (w ∷ ws) (suc i) rest (a, more) = (a, IsServing-with_jobs ws i rest more)

IsReady-with_jobs :
    (i : ℕ) (rest : List Job) (wg : WorkerGroup) → IsReady wg → IsReady (with_jobs i rest wg)
IsReady-with_jobs i rest wg ready = record {
  some_worker = rw (length-update_at i (job_done rest) wg.workers) ready.some_worker;
  serving = IsServing-with_jobs wg.workers i rest ready.serving;
}

-- From `s` to `t`, while some deliveries came and some were done: those done and those still with the
-- workers are, each as often, those that were with the workers and those that came. There is one answer
-- more for each that is done, and at most one confirmed message more.
pub record Balanced (came done : List Delivery) (s t : Consumer) : Type 0 where
  pub each :
      (p : Delivery → Bool)
      → among p done + taken_among p t.group.workers ≡ taken_among p s.group.workers + among p came
  pub settled : length t.world.settled ≡ length s.world.settled + length done
  pub sent : length t.world.sent ≤ length s.world.sent + length done
  pub ready : IsReady t.group

Balanced-trans :
    (came done more now : List Delivery) (s t u : Consumer)
    → Balanced came done s t
    → Balanced more now t u
    → Balanced (more ++ came) (now ++ done) s u
Balanced-trans came done more now s t u a b = record {
  each = λ p. omega (arith, a.each p, b.each p, among-append p more came, among-append p now done);
  settled = omega (arith, a.settled, b.settled, length-append now done);
  sent = omega (arith, a.sent, b.sent, length-append now done);
  ready = b.ready;
}

pub goes_on_inj : (t u : Consumer) → goes_on u ≡ goes_on t → u ≡ t
goes_on_inj t u e = cc

pub returns_inj : (o p : Option Error) (t u : Consumer) → returns o u ≡ returns p t → u ≡ t
returns_inj o p t u e = cc

module _ (env : Env) (r : Registrar) (broker : Broker) where
  arrived-Balanced :
      (s : Consumer) (d : Delivery) (t : Consumer) (body : List ℕ)
      → IsReady s.group
      → process_body env (record s { waiting = s.waiting + 1 }) d body ≡ goes_on t
      → Balanced (d ∷ []) [] s t
  arrived-Balanced s d t [] ready e = absurd (cc)
  arrived-Balanced s d t (b ∷ bs) ready e =
      let a = assign_job-Assigned s.group (delivery d) ready in
      let u : Consumer = record s { group = a.group; waiting = s.waiting + 1 - 1 } in
      subst (Balanced (d ∷ []) [] s) (goes_on_inj t u (rw a.returned at e)) (record {
        each = λ p. omega (arith, a.picked p);
        settled = omega arith;
        sent = omega arith;
        ready = a.ready;
      })

  refused-Balanced :
      (s : Consumer) (d : Delivery) (o : Option Error) (t : Consumer) (body : List ℕ)
      → IsReady s.group
      → process_body env (record s { waiting = s.waiting + 1 }) d body ≡ returns o t
      → Balanced (d ∷ []) (d ∷ []) s t
  refused-Balanced s d o t [] ready e =
      subst (Balanced (d ∷ []) (d ∷ []) s) (returns_inj _ o t _ e) (record {
        each = λ p. omega arith;
        settled =
            omega (arith, longer _ _ _ (settle-settled env r broker (nack false false) s.world));
        sent = omega (arith, ap length (settle-sent env r broker (nack false false) s.world));
        ready = ready;
      })
  refused-Balanced s d o t (b ∷ bs) ready e =
      let a = assign_job-Assigned s.group (delivery d) ready in absurd (cc (rw a.returned at e))

  Step-Balanced :
      {s t : Consumer} {more now : List Delivery}
      → Step env r broker s more now t
      → IsReady s.group
      → Balanced more now s t
  unfolding handle_event process_delivery
  Step-Balanced {s} {t} (arrive d e) ready = arrived-Balanced s d t d.body ready e
  Step-Balanced {s} {t} (refuse d {o} e) ready = refused-Balanced s d o t d.body ready e
  Step-Balanced {s} (do_job i w job rest at first) ready =
      let a = processor-Answered env r broker job s.world in
      record {
        each = λ p. omega (
          arith,
          taken_among-with_jobs p s.group.workers i w job rest at first,
          among-delivered_by p job,
        );
        settled = omega (arith, a.settled, length-delivered_by job);
        sent = omega (arith, a.sent, length-delivered_by job);
        ready = IsReady-with_jobs i rest s.group ready;
      }
  Step-Balanced {s} (elsewhere v e h) ready = record {
    each = λ p. omega arith;
    settled = omega (arith, ap length e);
    sent = omega (arith, ap length h);
    ready = ready;
  }

  -- In whichever order deliveries arrive and workers do their jobs, over a ready group: the deliveries
  -- that are done and those that wait with a worker are, as often each, those that have arrived and
  -- those that the workers had before. There is exactly one answer for each that is done and at most
  -- one confirmed message. The group stays ready.
  pub Reach-Balanced :
      {s t : Consumer} {came done : List Delivery}
      → IsReady s.group
      → Reach env r broker s came done t
      → Balanced came done s t
  Reach-Balanced {s} ready here = record {
    each = λ p. omega arith;
    settled = omega arith;
    sent = omega arith;
    ready = ready;
  }
  Reach-Balanced {s} ready (next {came} {done} {more} {now} {t} {u} so_far st) =
      let b = Reach-Balanced ready so_far in
      Balanced-trans came done more now s t u b (Step-Balanced st b.ready)
