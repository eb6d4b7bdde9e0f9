-- ===== src/WorkerPool/Running.antt =====
-- A pool that runs: the functions of the pool, of the consumer and of the workers, in the order in which
-- the consuming and the stopping goroutine call them.
use paota.Common.{ℕ, Bool, true, false, ◌&&◌, not, ◌≡◌, ◌≢◌, Option, List, [], ◌∷◌}
use paota.Schema.{Error}
use paota.World.{Env, World, Outcome, ok, err}
use paota.Registrar.{get_registered_task_count}
use paota.WorkerGroup.{Worker, done, get_worker_group_name}
use paota.Consumer.{
  Event, stop_request, Consumer, goes_on, returns, crashed as broken_down, handle_event,
  open_consumer, closing,
}
use paota.WorkerPool.{WorkerPool, start_pool, stop_pool}
use paota.WorkerPool.Protocol.{
  Phase, idle, connecting, looping, confirming, leaving, returned, sleeping, exited, crashed, Stage,
  running, sending, waiting, collecting, finished, alive, Life,
}

-- `connection` is that of the consumer, `in_progress` the counter of `processingWG`.
pub record Running : Type 0 where
  pub pool : WorkerPool
  pub world : World
  pub connection : ℕ
  pub in_progress : ℕ
  pub phase : Phase
  pub stage : Stage

abbrev pub consumer_of : Running → Consumer
consumer_of s = record { world = s.world; group = s.pool.worker_group; waiting = s.in_progress }

abbrev pub with_consumer : Running → Phase → Consumer → Running
with_consumer s p c = record s {
  pool = record s.pool { worker_group = c.group };
  world = c.world;
  in_progress = c.waiting;
  phase = p;
}

module _ (env : Env) where
  abbrev pub opening : Running → Outcome ℕ × World
  opening s = open_consumer env s.pool.broker (get_worker_group_name s.pool.worker_group) s.world

  abbrev pub deferred : Running → Consumer → Consumer
  deferred s c = closing env s.pool.broker s.connection c

  -- `stop` is `Stop` up to `StopConsumer`, whose three lines are `request`, `wait` and `confirm`; `leave`
  -- is what `StartConsumer` does after its send on `doneStopChannel`. An event is handled in one step, and
  -- so is `stop`: the runs in which `Stop` comes during `AssignJob` are left to the protocol.
  pub data Run (s : Running) : Running → Type 0 where
    start :
        {p : WorkerPool}
        → s.phase ≡ idle
        → s.stage ≡ running
        → start_pool s.pool ≡ done p
        → Run s (record s { pool = p; phase = connecting })
    opened :
        (c : ℕ)
        → s.phase ≡ connecting
        → (opening s).0 ≡ ok c
        → Run s (record s { world = (opening s).1; connection = c; phase = looping })
    not_opened :
        (e : Error)
        → s.phase ≡ connecting
        → (opening s).0 ≡ err e
        → Run s (record s { world = (opening s).1; phase = returned })
    handled :
        (e : Event) {c : Consumer}
        → s.phase ≡ looping
        → handle_event env (consumer_of s) e ≡ goes_on c
        → Run s (with_consumer s looping c)
    ended :
        (e : Event) {o : Option Error} {c : Consumer}
        → e ≢ stop_request
        → s.phase ≡ looping
        → handle_event env (consumer_of s) e ≡ returns o c
        → Run s (with_consumer s returned (deferred s c))
    panicked :
        (e : Event) {c : Consumer}
        → s.phase ≡ looping
        → handle_event env (consumer_of s) e ≡ broken_down c
        → Run s (with_consumer s crashed (deferred s c))
    pause : s.phase ≡ returned → s.pool.started ≡ true → Run s (record s { phase = sleeping })
    exit : s.phase ≡ returned → s.pool.started ≡ false → Run s (record s { phase = exited })
    wake : s.phase ≡ sleeping → Run s (record s { phase = connecting })
    stop :
        {p : WorkerPool}
        → alive s.phase ≡ true
        → s.stage ≡ running
        → s.pool.started ≡ true
        → get_registered_task_count s.pool.task_registrar ≢ 0
        → stop_pool s.pool ≡ done p
        → Run s (record s { pool = p; stage = sending })
    request :
        {o : Option Error} {c : Consumer}
        → s.phase ≡ looping
        → s.stage ≡ sending
        → handle_event env (consumer_of s) stop_request ≡ returns o c
        → Run s (record (with_consumer s confirming c) { stage = waiting })
    wait :
        alive s.phase ≡ true
        → s.stage ≡ waiting
        → s.in_progress ≡ 0
        → Run s (record s { stage = collecting })
    confirm :
        s.phase ≡ confirming
        → s.stage ≡ collecting
        → Run s (record s { phase = leaving; stage = finished })
    leave : s.phase ≡ leaving → Run s (with_consumer s returned (deferred s (consumer_of s)))

  pub data Runs (s : Running) : Running → Type 0 where
    here : Runs s s
    next : {t u : Running} → Runs s t → Run t u → Runs s u

-- What the protocol knows of it.
abbrev pub all_open : List Worker → Bool
all_open [] = true
all_open (w ∷ ws) = not w.closed && all_open ws

abbrev pub life : Running → Life
life s = record {
  phase = s.phase;
  stage = s.stage;
  started = s.pool.started;
  open_channels = all_open s.pool.worker_group.workers;
  in_progress = s.in_progress;
  tasks = get_registered_task_count s.pool.task_registrar;
}
