-- ===== src/WorkerPool/Fits.antt =====
-- The state of the workers of a pool that runs, and `Start` and `Stop` as steps of the protocol.
use paota.Common.{
  ℕ, zero, suc, String, ◌<◌, ◌≡◌, ◌≢◌, refl, sym, ◌∙◌, ap, subst, true, false, List, [], ◌∷◌,
  length, All, ◌==◌, arith,
}
use paota.World.{Env}
use paota.Registrar.{get_registered_task_count}
use paota.WorkerGroup.{Worker, WorkerGroup, done, new_worker_group, new_workers}
use paota.WorkerGroup.Assignment.{
  IsServing, IsReady, IsClosed, IsShut, stop-IsShut, new_worker_group-IsReady,
}
use paota.WorkerPool.{WorkerPool, start_pool, stop_pool}
use paota.WorkerPool.Protocol.{
  Phase, idle, connecting, looping, busy, confirming, returned, sleeping, exited, crashed, Stage,
  running, closing, sending, waiting, collecting, finished, alive, Life, Step, take, hand_over,
  crash, refuse, break_off, signal, close, Reach, here, next, new_life,
}
use paota.WorkerPool.Protocol as P
use paota.WorkerPool.Running.{Running, all_open, life}

pub IsServing-all_open : (ws : List Worker) → All IsServing ws → all_open ws ≡ true
IsServing-all_open [] a = refl
IsServing-all_open (w ∷ ws) ((_, open_), rest) = rw open_ (IsServing-all_open ws rest)

pub IsShut-all_open : (ws : List Worker) → 0 < length ws → All IsClosed ws → all_open ws ≡ false
IsShut-all_open [] h a = absurd (omega (arith, h))
IsShut-all_open (w ∷ ws) h (shut, rest) = rw shut refl

pub new_workers-all_open : (n i : ℕ) → all_open (new_workers n i) ≡ true
new_workers-all_open zero i = refl
new_workers-all_open (suc n) i = new_workers-all_open n (suc i)

-- The workers have not been started, or they receive, or their channels are closed.
pub data Fits (s : Running) : Type 0 where
  fresh :
      (n : ℕ) (name_space : String)
      → s.phase ≡ idle
      → s.stage ≡ running
      → s.pool.started ≡ false
      → s.pool.worker_group ≡ new_worker_group n name_space
      → 0 < n
      → Fits s
  serving : s.phase ≢ idle → s.stage ≡ running → IsReady s.pool.worker_group → Fits s
  shut : s.phase ≢ idle → s.stage ≢ running → IsShut s.pool.worker_group → Fits s

done_inj : (p q : WorkerPool) → done q ≡ done p → q ≡ p
done_inj p q e = cc

pub record Refines (s t : Running) : Type 0 where
  pub fits : Fits t
  pub steps : Reach (life s) (life t)

-- A step of the loop that changes the group and the counter in no way that the protocol sees.
pub Fits-same :
    (s t : Running)
    → Fits s
    → s.phase ≢ idle
    → t.phase ≢ idle
    → s.stage ≡ t.stage
    → s.pool.worker_group ≡ t.pool.worker_group
    → Fits t
Fits-same s t (fresh n name p at_rest f e h) a b g w = absurd (a p)
Fits-same s t (serving p g' r) a b g w = serving b (sym g ∙ g') (subst IsReady w r)
Fits-same s t (shut p g' r) a b g w = shut b (λ h. g' (g ∙ h)) (subst IsShut w r)

module _ (env : Env) where
  pub by_start :
      (s : Running) (p : WorkerPool)
      → Fits s
      → s.phase ≡ idle
      → s.stage ≡ running
      → start_pool s.pool ≡ done p
      → Refines s (record s { pool = p; phase = connecting })
  unfolding start_pool new_worker_group
  by_start s p (serving a b c) i g e = absurd (a i)
  by_start s p (shut a b c) i g e = absurd (a i)
  by_start s p (fresh n name_space a at_rest unstarted same some_worker) i g e =
      let (wg, begun, _, ready) = new_worker_group-IsReady n name_space some_worker in
      let q : WorkerPool = record s.pool { started = true; worker_group = wg } in
      let made : start_pool s.pool ≡ done q = rw (unstarted, same, begun) refl in
      let before : all_open s.pool.worker_group.workers ≡ true =
        ap (λ (g : WorkerGroup). all_open g.workers) same ∙ new_workers-all_open n 0 in
      let after : all_open wg.workers ≡ true = IsServing-all_open wg.workers ready.serving in
      subst (λ x. Refines s (record s { pool = x; phase = connecting }))
        (done_inj p q (sym made ∙ e))
        (record {
          fits = serving (λ h. cc) g ready;
          steps = next here (P.start i g (rw (after, before) refl));
        })

  pub by_stop :
      (s : Running) (p : WorkerPool)
      → Fits s
      → alive s.phase ≡ true
      → s.stage ≡ running
      → s.pool.started ≡ true
      → get_registered_task_count s.pool.task_registrar ≢ 0
      → stop_pool s.pool ≡ done p
      → Refines s (record s { pool = p; stage = sending })
  unfolding stop_pool
  by_stop s p (fresh n name_space a at_rest unstarted same some_worker) i g f m e =
      absurd (cc (unstarted, f))
  by_stop s p (shut a b c) i g f m e = absurd (b g)
  by_stop s p (serving a b c) i g f m e =
      let (stopped, ended, closed) = stop-IsShut s.pool.worker_group c in
      let q : WorkerPool = record s.pool { started = false; worker_group = stopped } in
      let some_task : (get_registered_task_count s.pool.task_registrar == 0) ≡ false =
        ground arith in
      let made : stop_pool s.pool ≡ done q = rw (f, some_task, ended) refl in
      let after : all_open stopped.workers ≡ false =
        IsShut-all_open stopped.workers closed.some_worker closed.shut in
      subst (λ x. Refines s (record s { pool = x; stage = sending })) (done_inj p q (sym made ∙ e))
        (record {
          fits = shut a (λ h. cc) closed;
          steps = next (next here (signal i g f m refl)) (close i refl (rw after refl));
        })
