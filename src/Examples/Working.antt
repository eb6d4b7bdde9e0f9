-- ===== src/Examples/Working.antt =====
-- The worker group at concrete inputs.
use paota.Common.{ℕ, zero, suc, ◌+◌, ◌<◌, ◌≤◌, ◌≡◌, refl, true, false, [], ◌∷◌, arith}
use paota.Registrar.{Job, delivery}
use paota.WorkerGroup.{WorkerGroup, done}
use paota.WorkerGroup.Assignment.{IsReady}
use paota.WorkerGroup.Fairness.{jobs_at, assign_all, assign_all-le}

abbrev pub two_workers : WorkerGroup
two_workers = record {
  namespace = "paota";
  concurrency = 2;
  workers =
      record { id = 0; jobs = []; running = true; closed = false }
      ∷ record { id = 1; jobs = []; running = true; closed = false }
      ∷ [];
  last_assigned_worker_index = 1;
}

abbrev pub letter : Job
letter = delivery (record { headers = []; body = b'x' ∷ [] })

pub two-IsReady : IsReady two_workers
two-IsReady = record { some_worker = omega arith; serving = ((refl, refl), ((refl, refl), tt)) }

unused_workers : (k : ℕ) → k < 2 → jobs_at k two_workers ≡ 0
unused_workers zero h = refl
unused_workers (suc zero) h = refl
unused_workers (suc (suc k)) h = absurd (omega arith)

assign_all-le_example :
    (wg : WorkerGroup) × (assign_all (letter ∷ letter ∷ letter ∷ []) two_workers ≡ done wg)
    × (jobs_at 0 wg ≤ jobs_at 1 wg + 1)
assign_all-le_example =
    assign_all-le (letter ∷ letter ∷ letter ∷ []) two_workers 0 1 two-IsReady (omega arith)
      unused_workers (omega arith) (omega arith)
