-- ===== src/Examples/Living.antt =====
-- The worker pool at concrete inputs.
use paota.Common.{◌≢◌, arith, ℕ, ◌≡◌, refl, false, true}
use paota.Config.{ConfigProvider, get_config, is_empty}
use paota.World.{ok, ◌>>=◌}
use paota.Broker.{new_amqp_broker, setup_exchange_queue_binding, declare_topology}
use paota.Provider.{
  create_connection_pool, make_connections, create_connection, install_pool,
  get_connection_from_pool, create_amqp_channel,
}
use paota.WorkerPool.{
  start_pool, stop_pool, WorkerPool, struct_context, create_worker_pool, validate_context_type,
  create_broker, create_store, assemble,
}
use paota.WorkerPool.Protocol.{
  Step, busy, Phase, looping, crashed, Stage, running, closing, sending, Life, start, opened, take,
  hand_over, signal, close, Reach, here, next, new_life, Reach-crashes,
}
use paota.WorkerPool.Progress.{CanEnd, Reach-CanEnd}
use paota.WorkerPool.Creation.{Created, create_worker_pool-Created}
use paota.WorkerPool.Lifecycle.{start_pool-stop_pool}
use paota.WorkerGroup.{done, panics, assign_job}
use paota.WorkerGroup.Assignment.{IsReady}
use paota.Registrar.{unsupported_job}
use paota.Broker.Starting.{IsServed}
use paota.WorkerPool.Starting.{IsReadyPool, create_worker_pool-IsReadyPool}
use paota.Examples.Sharing.{sample_healthy}
use paota.Samples.{
  sample_amqp, sample_registrar, sample_env, sample_config, sample_amqp_broker, sample_world,
}

-- The pool of one task, as it is stopped.
abbrev life : Phase → Stage → ℕ → Life
life p running n = record {
  phase = p;
  stage = running;
  started = true;
  open_channels = true;
  in_progress = n;
  tasks = 1;
}
life p closing n = record {
  phase = p;
  stage = closing;
  started = false;
  open_channels = true;
  in_progress = n;
  tasks = 1;
}
life p g n = record {
  phase = p;
  stage = g;
  started = false;
  open_channels = false;
  in_progress = n;
  tasks = 1;
}

started_life : Reach (new_life 1) (life looping running 0)
started_life = next (next here (start refl refl refl)) (opened refl refl)

sending_life : Reach (new_life 1) (life looping sending 0)
sending_life =
    next
      (next
        (next (next started_life (take refl refl)) (signal refl refl refl (λ h. absurd (cc)) refl))
        (hand_over refl refl refl))
      (close refl refl refl)

Reach-CanEnd_example : CanEnd (life looping sending 0)
Reach-CanEnd_example = Reach-CanEnd 1 (life looping sending 0) sending_life (λ h. absurd (cc))

Reach-crashes_example :
    ((u : Life) × Step (life looping sending 0) u
      × (u.phase ≡ busy)
      × (t : Life) × Step u t
      × (t.phase ≡ crashed))
    × ((u t : Life)
        → Reach (life looping sending 0) u
        → u.phase ≡ busy
        → Step u t
        → t.phase ≢ looping)
Reach-crashes_example = Reach-crashes 1 (life looping sending 0) sending_life refl refl

abbrev sample_provider : ConfigProvider
sample_provider = record { application_config = sample_config }

abbrev sample_pool : WorkerPool
sample_pool = assemble 2 "paota" "42" sample_amqp_broker

sample_created :
    (create_worker_pool sample_env (struct_context 0) 2 "paota" sample_provider sample_world).0
    ≡ ok sample_pool
unfolding create_worker_pool validate_context_type create_broker create_store get_config is_empty
    ◌>>=◌ new_amqp_broker create_connection_pool make_connections create_connection install_pool
    setup_exchange_queue_binding get_connection_from_pool create_amqp_channel declare_topology
sample_created = refl

create_worker_pool-Created_example :
    Created sample_env (struct_context 0) 2 "paota" sample_provider sample_pool
create_worker_pool-Created_example =
    create_worker_pool-Created sample_env (struct_context 0) 2 "paota" sample_provider sample_world
      sample_pool sample_created

abbrev tasked_pool : WorkerPool
tasked_pool = record (assemble 2 "paota" "42" sample_amqp_broker) {
  task_registrar = sample_registrar;
}

start_pool-stop_pool_example :
    (on : WorkerPool) × (off : WorkerPool) × (start_pool tasked_pool ≡ done on)
    × (start_pool on ≡ done on)
    × IsReady on.worker_group
    × (stop_pool on ≡ done off)
    × (stop_pool off ≡ done off)
    × (assign_job off.worker_group (unsupported_job 7) ≡ panics)
start_pool-stop_pool_example =
    start_pool-stop_pool tasked_pool 2 "paota" (unsupported_job 7) refl refl (omega arith) refl

pub sample_served : IsServed sample_env
sample_served = record { opens = λ i c. refl; grants = λ i d. refl }

create_worker_pool-IsReadyPool_example :
    IsReadyPool sample_env sample_served sample_healthy sample_pool 2
      (create_worker_pool sample_env (struct_context 0) 2 "paota" sample_provider sample_world)
unfolding get_config is_empty
create_worker_pool-IsReadyPool_example =
    create_worker_pool-IsReadyPool sample_env sample_served sample_healthy 0 2 "paota"
      sample_provider sample_config sample_amqp 1 sample_world refl refl refl refl refl
