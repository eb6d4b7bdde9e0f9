-- ===== src/WorkerPool/Refinement.antt =====
-- A pool that runs keeps to the protocol of its two goroutines.
use paota.Common.{ℕ, String, ◌<◌, ◌≡◌, ◌≢◌, refl, sym, ◌∙◌, ap, subst, true, false}
use paota.World.{Env}
use paota.Registrar.{get_registered_task_count}
use paota.WorkerGroup.{WorkerGroup, new_worker_group}
use paota.WorkerGroup.Assignment.{IsShut}
use paota.WorkerPool.Protocol.{
  Phase, idle, connecting, looping, busy, confirming, leaving, returned, sleeping, exited, crashed,
  Stage, running, closing, sending, waiting, collecting, finished, alive, Life, Step, take,
  hand_over, crash, refuse, break_off, signal, close, Reach, here, next, new_life,
}
use paota.WorkerPool.Protocol as P
use paota.WorkerPool.Running.{Running, consumer_of, with_consumer, Run, Runs, all_open, life}
use paota.WorkerPool.Running as R
use paota.WorkerPool.Fits.{
  Fits, fresh, serving, shut, Refines, Fits-same, by_start, by_stop, new_workers-all_open,
}
use paota.WorkerPool.Events.{handled_event, ended_event, panicked_event, requested}

module _ (env : Env) where
  -- A change of the phase or of the stage of `Stop` alone.
  same_phase :
      (s t : Running)
      → Fits s
      → s.phase ≢ idle
      → t.phase ≢ idle
      → s.stage ≢ running
      → t.stage ≢ running
      → s.pool.worker_group ≡ t.pool.worker_group
      → Fits t
  same_phase s t (fresh n name a at_rest unstarted w x) p q g h e = absurd (p a)
  same_phase s t (serving a b ready) p q g h e = absurd (g b)
  same_phase s t (shut a b closed) p q g h e = shut q h (subst IsShut e closed)

  not_idle : (s : Running) (a : Phase) → s.phase ≡ a → a ≢ idle → s.phase ≢ idle
  not_idle s a e h k = h (sym e ∙ k)

  waited :
      (s : Running)
      → Fits s
      → alive s.phase ≡ true
      → s.stage ≡ waiting
      → s.in_progress ≡ 0
      → Refines s (record s { stage = collecting })
  waited s (fresh n name_space a at_rest unstarted same some_worker) i g e =
      absurd (cc (at_rest, g))
  waited s (serving a b ready) i g e = absurd (cc (b, g))
  waited s (shut a b closed) i g e = record {
    fits = shut a (λ h. cc) closed;
    steps = next here (P.wait i g e refl);
  }

  Run-Refines : {s t : Running} → Run env s t → Fits s → Refines s t
  Run-Refines {s} (R.start {p} i g e) f = by_start env s p f i g e
  Run-Refines {s} (R.opened c i e) f = record {
    fits = Fits-same s _ f (λ h. cc) (λ h. cc) refl refl;
    steps = next here (P.opened i refl);
  }
  Run-Refines {s} (R.not_opened e i h) f = record {
    fits = Fits-same s _ f (λ h. cc) (λ h. cc) refl refl;
    steps = next here (P.not_opened i refl);
  }
  Run-Refines {s} (R.handled e {c} i h) f = handled_event env s e c f i h
  Run-Refines {s} (R.ended e {o} {c} other i h) f = ended_event env s e o c f i h
  Run-Refines {s} (R.panicked e {c} i h) f = panicked_event env s e c f i h
  Run-Refines {s} (R.pause i e) f = record {
    fits = Fits-same s _ f (λ h. cc) (λ h. cc) refl refl;
    steps = next here (P.pause i e refl);
  }
  Run-Refines {s} (R.exit i e) f = record {
    fits = Fits-same s _ f (λ h. cc) (λ h. cc) refl refl;
    steps = next here (P.exit i e refl);
  }
  Run-Refines {s} (R.wake i) f = record {
    fits = Fits-same s _ f (λ h. cc) (λ h. cc) refl refl;
    steps = next here (P.wake i refl);
  }
  Run-Refines {s} (R.stop {p} a g b m e) f = by_stop env s p f a g b m e
  Run-Refines {s} (R.request {o} {c} i g h) f = requested env s o c f i g h
  Run-Refines {s} (R.wait a g n) f = waited s f a g n
  Run-Refines {s} (R.confirm i g) f = record {
    fits = same_phase s _ f (λ h. cc) (λ h. cc) (λ h. cc) (λ h. cc) refl;
    steps = next here (P.confirm i g refl);
  }
  Run-Refines {s} (R.leave i) f = record {
    fits = Fits-same s _ f (λ h. cc) (λ h. cc) refl refl;
    steps = next here (P.leave i refl);
  }

  Reach-append : {x y z : Life} → Reach x y → Reach y z → Reach x z
  Reach-append r here = r
  Reach-append r (next more st) = next (Reach-append r more) st

  Runs-Refines : {s t : Running} → Runs env s t → Fits s → Refines s t
  Runs-Refines R.here f = record { fits = f; steps = here }
  Runs-Refines (R.next more st) f =
      let a = Runs-Refines more f in
      let b = Run-Refines st a.fits in
      record { fits = b.fits; steps = Reach-append a.steps b.steps }

  -- A new pool: no worker has been started, and no goroutine.
  pub record IsNew (s : Running) : Type 0 where
    pub size : ℕ
    pub name_space : String
    pub some_worker : 0 < size
    pub group : s.pool.worker_group ≡ new_worker_group size name_space
    pub unstarted : s.pool.started ≡ false
    pub phase : s.phase ≡ idle
    pub stage : s.stage ≡ running
    pub nothing : s.in_progress ≡ 0

  -- The functions of the pool, of the consumer and of the worker group, called as the two goroutines
  -- call them, over whatever the server does and whichever events come, each event and the part of `Stop`
  -- before `StopConsumer` being one step: from a new pool on, what they do is a run of the protocol.
  pub Runs-Reach :
      (s t : Running)
      → IsNew s
      → Runs env s t
      → Reach (new_life (get_registered_task_count s.pool.task_registrar)) (life t)
  unfolding new_worker_group
  Runs-Reach s t new runs =
      let open_ : all_open s.pool.worker_group.workers ≡ true =
        ap (λ (g : WorkerGroup). all_open g.workers) new.group ∙ new_workers-all_open new.size 0 in
      let first : life s ≡ new_life (get_registered_task_count s.pool.task_registrar) = λ i.
        record {
          phase = new.phase i;
          stage = new.stage i;
          started = new.unstarted i;
          open_channels = open_ i;
          in_progress = new.nothing i;
          tasks = get_registered_task_count s.pool.task_registrar;
        } in
      subst (λ x. Reach x (life t)) first
        (Runs-Refines runs (
          fresh new.size new.name_space new.phase new.stage new.unstarted new.group
            new.some_worker)).steps
