-- ===== src/WorkerGroup.antt =====
-- internal/workergroup/workergroup.go. A job channel has no buffer: a send ends when the worker
-- receives, so that the jobs that have been sent are those that the worker was handed.
pub mod Assignment
pub mod Survival
pub mod Answers
pub mod Fairness
use paota.Common.{
  ℕ, zero, suc, ◌+◌, ◌%◌, String, Bool, true, false, Option, none, some, List, [], ◌∷◌, ◌++◌, ◌==◌,
  if◌then◌else◌, length, get_elem?,
}
use paota.World.{Env, Exec, pure, ◌>>=◌, ◌>>◌, ignore}
use paota.Interface.{Broker}
use paota.Registrar.{Registrar, Job, processor}

-- `running`: a goroutine ranges over the channel. `closed`: the channel is.
pub record Worker : Type 0 where
  pub id : ℕ
  pub jobs : List Job
  pub running : Bool
  pub closed : Bool

pub record WorkerGroup : Type 0 where
  pub namespace : String
  pub concurrency : ℕ
  pub workers : List Worker
  pub last_assigned_worker_index : ℕ

-- A call ends, waits for ever, or panics.
pub data Call (A : Type 0) : Type 0 where
  done : A → Call A
  blocked panics : Call A

abbrev pub new_workers : ℕ → ℕ → List Worker
new_workers zero i = []
new_workers (suc n) i =
    record { id = i; jobs = []; running = false; closed = false } ∷ new_workers n (suc i)

unfoldable pub new_worker_group : ℕ → String → WorkerGroup
new_worker_group concurrency namespace = record {
  namespace = namespace;
  concurrency = concurrency;
  workers = new_workers concurrency 0;
  last_assigned_worker_index = 0;
}

abbrev on_workers : WorkerGroup → Call (List Worker) → Call WorkerGroup
on_workers wg (done ws) = done (record wg { workers = ws })
on_workers wg blocked = blocked
on_workers wg panics = panics

abbrev before : Worker → Call (List Worker) → Call (List Worker)
before w (done ws) = done (w ∷ ws)
before w blocked = blocked
before w panics = panics

-- `wg.Workers[i]` for each i below the concurrency.
abbrev pub start_workers : ℕ → List Worker → Call (List Worker)
start_workers zero ws = done ws
start_workers (suc n) [] = panics
start_workers (suc n) (w ∷ ws) = before (record w { running = true }) (start_workers n ws)

unfoldable pub start : WorkerGroup → Call WorkerGroup
start wg = on_workers wg (start_workers wg.concurrency wg.workers)

-- Closing a closed channel panics.
abbrev pub close_workers : List Worker → Call (List Worker)
close_workers [] = done []
close_workers (w ∷ ws) =
    let rest = close_workers ws in
    if w.closed then panics else before (record w { closed = true }) rest

unfoldable pub stop : WorkerGroup → Call WorkerGroup
stop wg = on_workers wg (close_workers wg.workers)

abbrev pub take_job : Job → Worker → Worker
take_job job w = record w { jobs = w.jobs ++ job ∷ [] }

abbrev pub update_at : ℕ → (Worker → Worker) → List Worker → List Worker
update_at i f [] = []
update_at zero f (w ∷ ws) = f w ∷ ws
update_at (suc i) f (w ∷ ws) = w ∷ update_at i f ws

-- A send on a closed channel panics, one that nobody receives blocks.
abbrev send_job : WorkerGroup → Job → ℕ → Option Worker → Call WorkerGroup
send_job wg job i none = panics
send_job wg job i (some w) =
    if w.closed
    then panics
    else if w.running
    then done (record wg {
      workers = update_at i (take_job job) wg.workers;
      last_assigned_worker_index = i;
    })
    else blocked

-- With no workers the remainder is a division by zero. The index is below the number of workers, so
-- the sum does not overflow.
unfoldable pub assign_job : WorkerGroup → Job → Call WorkerGroup
assign_job wg job =
    let i = (wg.last_assigned_worker_index + 1) % length wg.workers in
    if length wg.workers == 0 then panics else send_job wg job i (get_elem? wg.workers i)

-- The loop of a worker over the jobs that it was handed; errors are logged.
unfoldable pub work : Env → Registrar → Broker → List Job → Exec (Unit {0})
work env r broker [] = pure tt
work env r broker (job ∷ jobs) = do ignore (processor env r broker job); work env r broker jobs

unfoldable pub get_worker_group_name : WorkerGroup → String
get_worker_group_name wg = wg.namespace
