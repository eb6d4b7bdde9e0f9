-- ===== src/WorkerGroup/Assignment.antt =====
-- `AssignJob` of a group that is running, and of one that has been stopped.
use native.Mathlib.Nat.{mod-lt}
use paota.Common.{
  Bool, if◌then◌else◌, Bool-cases, inl, inr, ◌≤◌, ℕ, zero, suc, ◌+◌, ◌%◌, ◌<◌, ◌≡◌, ◌≢◌, refl, ap,
  true, false, Option, none, some, List, [], ◌∷◌, String, ◌==◌, length, ◌++◌, get_elem?, All, arith,
}
use paota.Registrar.{Job, Delivery, delivery, unsupported_job}
use paota.WorkerGroup.{
  start, new_worker_group, start_workers, new_workers, close_workers, Worker, WorkerGroup, Call,
  done, panics, update_at, take_job, assign_job, stop,
}

abbrev pub IsServing : Worker → Type 0
IsServing w = (w.running ≡ true) × (w.closed ≡ false)

-- There is a worker, and each of them receives.
pub record IsReady (wg : WorkerGroup) : Type 0 where
  pub some_worker : 0 < length wg.workers
  pub serving : All IsServing wg.workers

abbrev map_option : (Worker → Worker) → Option Worker → Option Worker
map_option f none = none
map_option f (some w) = some (f w)

get_elem?-update_at :
    (i : ℕ) (f : Worker → Worker) (ws : List Worker)
    → get_elem? (update_at i f ws) i ≡ map_option f (get_elem? ws i)
get_elem?-update_at i f [] = refl
get_elem?-update_at zero f (w ∷ ws) = refl
get_elem?-update_at (suc i) f (w ∷ ws) = get_elem?-update_at i f ws

get_elem?-update_at_other :
    (i j : ℕ) (f : Worker → Worker) (ws : List Worker)
    → j ≢ i
    → get_elem? (update_at i f ws) j ≡ get_elem? ws j
get_elem?-update_at_other i j f [] h = refl
get_elem?-update_at_other zero zero f (w ∷ ws) h = absurd (h refl)
get_elem?-update_at_other zero (suc j) f (w ∷ ws) h = refl
get_elem?-update_at_other (suc i) zero f (w ∷ ws) h = refl
get_elem?-update_at_other (suc i) (suc j) f (w ∷ ws) h =
    get_elem?-update_at_other i j f ws (λ e. h (ap suc e))

pub length-update_at :
    (i : ℕ) (f : Worker → Worker) (ws : List Worker) → length (update_at i f ws) ≡ length ws
length-update_at i f [] = refl
length-update_at zero f (w ∷ ws) = refl
length-update_at (suc i) f (w ∷ ws) = ap suc (length-update_at i f ws)

IsServing-update_at :
    (i : ℕ) (job : Job) (ws : List Worker)
    → All IsServing ws
    → All IsServing (update_at i (take_job job) ws)
IsServing-update_at i job [] a = a
IsServing-update_at zero job (w ∷ ws) (a, rest) = (a, rest)
IsServing-update_at (suc i) job (w ∷ ws) (a, rest) = (a, IsServing-update_at i job ws rest)

IsServing-at :
    (ws : List Worker) (i : ℕ)
    → All IsServing ws
    → i < length ws
    → (w : Worker) × (get_elem? ws i ≡ some w) × IsServing w
IsServing-at [] i a h = absurd (omega arith)
IsServing-at (w ∷ ws) zero (a, rest) h = (w, refl, a)
IsServing-at (w ∷ ws) (suc i) (a, rest) h = IsServing-at ws i rest (omega arith)

nonzero : (n : ℕ) → 0 < n → (n == 0) ≡ false
nonzero n h = ground arith

-- The deliveries among some jobs.
abbrev pub deliveries : List Job → ℕ
deliveries [] = 0
deliveries (delivery d ∷ jobs) = suc (deliveries jobs)
deliveries (unsupported_job n ∷ jobs) = deliveries jobs

pub deliveries-append : (xs ys : List Job) → deliveries (xs ++ ys) ≡ deliveries xs + deliveries ys
deliveries-append [] ys = omega arith
deliveries-append (delivery d ∷ xs) ys = omega (arith, deliveries-append xs ys)
deliveries-append (unsupported_job n ∷ xs) ys = deliveries-append xs ys

-- The deliveries that the workers have been handed, in all.
abbrev pub deliveries_taken : List Worker → ℕ
deliveries_taken [] = 0
deliveries_taken (w ∷ ws) = deliveries w.jobs + deliveries_taken ws

deliveries_taken-update_at :
    (i : ℕ) (job : Job) (ws : List Worker)
    → i < length ws
    → deliveries_taken (update_at i (take_job job) ws) ≡ deliveries_taken ws + deliveries (job ∷ [])
deliveries_taken-update_at i job [] h = absurd (omega arith)
deliveries_taken-update_at zero job (w ∷ ws) h = omega (arith, deliveries-append w.jobs (job ∷ []))
deliveries_taken-update_at (suc i) job (w ∷ ws) h =
    omega (arith, deliveries_taken-update_at i job ws (omega arith))

-- Those of some deliveries that a test picks: with every test, which they are and how often.
abbrev pub among : (Delivery → Bool) → List Delivery → ℕ
among p [] = 0
among p (d ∷ ds) = (if p d then 1 else 0) + among p ds

abbrev pub jobs_among : (Delivery → Bool) → List Job → ℕ
jobs_among p [] = 0
jobs_among p (delivery d ∷ jobs) = (if p d then 1 else 0) + jobs_among p jobs
jobs_among p (unsupported_job n ∷ jobs) = jobs_among p jobs

pub jobs_among-append :
    (p : Delivery → Bool) (xs ys : List Job)
    → jobs_among p (xs ++ ys) ≡ jobs_among p xs + jobs_among p ys
jobs_among-append p [] ys = omega arith
jobs_among-append p (delivery d ∷ xs) ys = omega (arith, jobs_among-append p xs ys)
jobs_among-append p (unsupported_job n ∷ xs) ys = jobs_among-append p xs ys

abbrev pub taken_among : (Delivery → Bool) → List Worker → ℕ
taken_among p [] = 0
taken_among p (w ∷ ws) = jobs_among p w.jobs + taken_among p ws

jobs_among-le : (p : Delivery → Bool) (jobs : List Job) → jobs_among p jobs ≤ deliveries jobs
jobs_among-le p [] = omega arith
jobs_among-le p (delivery d ∷ jobs) = elim (Bool-cases (p d)) [
  | inl picked ↦ rw picked (omega (arith, jobs_among-le p jobs))
  | inr other ↦ rw other (omega (arith, jobs_among-le p jobs))
]
jobs_among-le p (unsupported_job n ∷ jobs) = jobs_among-le p jobs

pub taken_among-le :
    (p : Delivery → Bool) (ws : List Worker) → taken_among p ws ≤ deliveries_taken ws
taken_among-le p [] = omega arith
taken_among-le p (w ∷ ws) = omega (arith, jobs_among-le p w.jobs, taken_among-le p ws)

taken_among-update_at :
    (p : Delivery → Bool) (i : ℕ) (job : Job) (ws : List Worker)
    → i < length ws
    → taken_among p (update_at i (take_job job) ws) ≡ taken_among p ws + jobs_among p (job ∷ [])
taken_among-update_at p i job [] h = absurd (omega arith)
taken_among-update_at p zero job (w ∷ ws) h = omega (arith, jobs_among-append p w.jobs (job ∷ []))
taken_among-update_at p (suc i) job (w ∷ ws) h =
    omega (arith, taken_among-update_at p i job ws (omega arith))

-- The job goes to the next worker in turn and to no other, and the group is ready again.
pub record Assigned (wg : WorkerGroup) (job : Job) (r : Call WorkerGroup) : Type 0 where
  pub group : WorkerGroup
  pub returned : r ≡ done group
  pub turn :
      group.last_assigned_worker_index ≡ (wg.last_assigned_worker_index + 1) % length wg.workers
  pub handed :
      (w : Worker) × (get_elem? wg.workers group.last_assigned_worker_index ≡ some w)
      × (get_elem? group.workers group.last_assigned_worker_index ≡ some (take_job job w))
  pub others :
      (j : ℕ)
      → j ≢ group.last_assigned_worker_index
      → get_elem? group.workers j ≡ get_elem? wg.workers j
  pub counted : deliveries_taken group.workers ≡ deliveries_taken wg.workers + deliveries (job ∷ [])
  pub picked :
      (p : Delivery → Bool)
      → taken_among p group.workers ≡ taken_among p wg.workers + jobs_among p (job ∷ [])
  pub same_size : length group.workers ≡ length wg.workers
  pub ready : IsReady group

-- A group with a worker, all of whose workers receive, hands each job to the next worker in turn.
pub assign_job-Assigned :
    (wg : WorkerGroup) (job : Job) → IsReady wg → Assigned wg job (assign_job wg job)
unfolding assign_job
assign_job-Assigned wg job ready =
    let i = (wg.last_assigned_worker_index + 1) % length wg.workers in
    let (w, at_turn, (runs, open_)) =
      IsServing-at wg.workers i ready.serving
        (mod-lt (wg.last_assigned_worker_index + 1) ready.some_worker) in
    record {
      group = record wg {
        workers = update_at i (take_job job) wg.workers;
        last_assigned_worker_index = i;
      };
      returned = rw (nonzero (length wg.workers) ready.some_worker, at_turn, open_, runs) refl;
      turn = refl;
      handed = (w, at_turn, rw (get_elem?-update_at i (take_job job) wg.workers, at_turn) refl);
      others = λ j h. get_elem?-update_at_other i j (take_job job) wg.workers h;
      counted =
          deliveries_taken-update_at i job wg.workers
            (mod-lt (wg.last_assigned_worker_index + 1) ready.some_worker);
      picked = λ p.
          taken_among-update_at p i job wg.workers
            (mod-lt (wg.last_assigned_worker_index + 1) ready.some_worker);
      same_size = length-update_at i (take_job job) wg.workers;
      ready = record {
        some_worker = rw (length-update_at i (take_job job) wg.workers) ready.some_worker;
        serving = IsServing-update_at i job wg.workers ready.serving;
      };
    }

closed_at :
    (ws : List Worker) (i : ℕ)
    → i < length ws
    → All (λ w. w.closed ≡ true) ws
    → (w : Worker) × (get_elem? ws i ≡ some w) × (w.closed ≡ true)
closed_at [] i h a = absurd (omega arith)
closed_at (w ∷ ws) zero h (a, rest) = (w, refl, a)
closed_at (w ∷ ws) (suc i) h (a, rest) = closed_at ws i (omega arith) rest

-- After `Stop` every channel is closed.
record Closed (ws vs : List Worker) : Type 0 where
  closed : close_workers ws ≡ done vs
  size : length vs ≡ length ws
  all : All (λ w. w.closed ≡ true) vs

close_workers-Closed : (ws : List Worker) → All IsServing ws → (vs : List Worker) × Closed ws vs
close_workers-Closed [] a = ([], record { closed = refl; size = refl; all = tt })
close_workers-Closed (w ∷ ws) ((_, open_), rest) =
    let (vs, c) = close_workers-Closed ws rest in
    (
      record w { closed = true } ∷ vs,
      record { closed = rw (open_, c.closed) refl; size = ap suc c.size; all = (refl, c.all) },
    )

abbrev pub IsClosed : Worker → Type 0
IsClosed w = w.closed ≡ true

-- There is a worker, and the channel of each is closed.
pub record IsShut (wg : WorkerGroup) : Type 0 where
  pub some_worker : 0 < length wg.workers
  pub shut : All IsClosed wg.workers

pub IsShut-assign_job : (wg : WorkerGroup) (job : Job) → IsShut wg → assign_job wg job ≡ panics
unfolding assign_job
IsShut-assign_job wg job s =
    let i = (wg.last_assigned_worker_index + 1) % length wg.workers in
    let (w, at_turn, closed) =
      closed_at wg.workers i (mod-lt (wg.last_assigned_worker_index + 1) s.some_worker) s.shut in
    rw (nonzero (length wg.workers) s.some_worker, at_turn, closed) refl

-- `Stop` of a running group.
pub stop-IsShut :
    (wg : WorkerGroup)
    → IsReady wg
    → (stopped : WorkerGroup) × (stop wg ≡ done stopped) × IsShut stopped
unfolding stop
stop-IsShut wg ready =
    let (vs, c) = close_workers-Closed wg.workers ready.serving in
    (
      record wg { workers = vs },
      rw c.closed refl,
      record { some_worker = rw c.size ready.some_worker; shut = c.all },
    )

-- Once a running group has been stopped, a job that is still assigned to it panics: the channels are
-- closed before the consumer that assigns the jobs is stopped.
pub stop-assign_job :
    (wg : WorkerGroup) (job : Job)
    → IsReady wg
    → (stopped : WorkerGroup) × (stop wg ≡ done stopped) × (assign_job stopped job ≡ panics)
stop-assign_job wg job ready =
    let (stopped, done_, shut) = stop-IsShut wg ready in
    (stopped, done_, IsShut-assign_job stopped job shut)

started-IsServing :
    (n i : ℕ)
    → (ws : List Worker) × (start_workers n (new_workers n i) ≡ done ws)
      × (length ws ≡ n)
      × All IsServing ws
started-IsServing zero i = ([], refl, refl, tt)
started-IsServing (suc n) i =
    let (ws, e, size, all) = started-IsServing n (suc i) in
    (
      record { id = i; jobs = []; running = true; closed = false } ∷ ws,
      rw e refl,
      ap suc size,
      ((refl, refl), all),
    )

-- A new group of at least one worker is ready once it has been started, with that many workers.
pub new_worker_group-IsReady :
    (concurrency : ℕ) (namespace : String)
    → 0 < concurrency
    → (wg : WorkerGroup) × (start (new_worker_group concurrency namespace) ≡ done wg)
      × (length wg.workers ≡ concurrency)
      × IsReady wg
unfolding start new_worker_group
new_worker_group-IsReady concurrency namespace some_worker =
    let (ws, e, size, all) = started-IsServing concurrency 0 in
    (
      record {
        namespace = namespace;
        concurrency = concurrency;
        workers = ws;
        last_assigned_worker_index = 0;
      },
      rw e refl,
      size,
      record { some_worker = rw size some_worker; serving = all },
    )
