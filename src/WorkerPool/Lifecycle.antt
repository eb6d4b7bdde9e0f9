-- ===== src/WorkerPool/Lifecycle.antt =====
-- `Start` and `Stop` of a pool, up to their goroutines.
use paota.Common.{ℕ, String, ◌<◌, ◌≡◌, refl, true, false, ◌==◌}
use paota.Registrar.{Job, get_registered_task_count}
use paota.WorkerGroup.{done, panics, new_worker_group, assign_job}
use paota.WorkerGroup.Assignment.{IsReady, new_worker_group-IsReady, stop-assign_job}
use paota.WorkerPool.{WorkerPool, start_pool, stop_pool}

-- A new pool of at least one worker, with a task: `Start` makes its workers receive and a second one
-- changes nothing; `Stop` then closes their channels, so that a job that is still assigned panics, and
-- a second one changes nothing.
pub start_pool-stop_pool :
    (wp : WorkerPool) (n : ℕ) (name_space : String) (job : Job)
    → wp.started ≡ false
    → wp.worker_group ≡ new_worker_group n name_space
    → 0 < n
    → (get_registered_task_count wp.task_registrar == 0) ≡ false
    → (on : WorkerPool) × (off : WorkerPool) × (start_pool wp ≡ done on)
      × (start_pool on ≡ done on)
      × IsReady on.worker_group
      × (stop_pool on ≡ done off)
      × (stop_pool off ≡ done off)
      × (assign_job off.worker_group job ≡ panics)
unfolding start_pool stop_pool
start_pool-stop_pool wp n name_space job idle fresh some_worker some_task =
    let (wg, begun, _, ready) = new_worker_group-IsReady n name_space some_worker in
    let (shut, ended, refused) = stop-assign_job wg job ready in
    (
      record wp { started = true; worker_group = wg },
      record wp { started = false; worker_group = shut },
      rw (idle, fresh, begun) refl,
      refl,
      ready,
      rw (some_task, ended) refl,
      refl,
      refused,
    )
