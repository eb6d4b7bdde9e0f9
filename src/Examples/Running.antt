-- ===== src/Examples/Running.antt =====
-- The consumer and its workers at the same time, and a pool that runs, at concrete inputs.
use paota.Common.{Bool, List, ◌+◌, ◌≡◌, refl, true, false, [], ◌∷◌, length, arith}
use paota.World.{ok, ◌>>=◌}
use paota.Registrar.{Delivery, delivery, processor}
use paota.WorkerGroup.{Worker, assign_job}
use paota.WorkerGroup.Assignment.{deliveries_taken, among, taken_among}
use paota.Consumer.{arrival, Consumer, goes_on, handle_event, process_delivery}
use paota.Consumer.Interleaving.{arrive, do_job, Reach, here, next, Balanced, Reach-Balanced}
use paota.Consumer.Draining.{Reach-drained}
use paota.Consumer.{open_consumer}
use paota.Provider.{get_connection_from_pool, create_amqp_channel, set_channel_qos, create_consumer}
use paota.WorkerGroup.{done, new_worker_group, start as start_group, stop as stop_group}
use paota.WorkerPool.{WorkerPool, assemble, start_pool, stop_pool}
use paota.WorkerPool.Protocol
use paota.WorkerPool.Protocol.{idle, connecting, looping, running, sending, new_life}
use paota.WorkerPool.Running
use paota.WorkerPool.Running.{Running, Runs, opening, life}
use paota.WorkerPool.Refinement.{IsNew, Runs-Reach}
use paota.Samples.{sample_amqp_broker, sample_env, sample_registrar, sample_broker, sample_world}
use paota.Examples.Working.{two_workers, two-IsReady}
use paota.Examples.Consuming.{two_consumers, parcel_of}

abbrev with_parcel : Worker
with_parcel = record { id = 0; jobs = delivery parcel_of ∷ []; running = true; closed = false }

-- The first worker has got a delivery.
abbrev one_arrived : Consumer
one_arrived = record {
  world = sample_world;
  group = record two_workers {
    workers = with_parcel ∷ record { id = 1; jobs = []; running = true; closed = false } ∷ [];
    last_assigned_worker_index = 0;
  };
  waiting = 0;
}

-- It has gone through it.
abbrev one_answered : Consumer
one_answered = record {
  world = (processor sample_env sample_registrar sample_broker (delivery parcel_of) sample_world).1;
  group = record two_workers { last_assigned_worker_index = 0 };
  waiting = 0;
}

arrives : handle_event sample_env two_consumers (arrival parcel_of) ≡ goes_on one_arrived
unfolding handle_event process_delivery assign_job
arrives = refl

one_waits :
    Reach sample_env sample_registrar sample_broker two_consumers (parcel_of ∷ []) [] one_arrived
one_waits = next here (arrive parcel_of arrives)

one_done :
    Reach sample_env sample_registrar sample_broker two_consumers
      (parcel_of ∷ [])
      (parcel_of ∷ [])
      one_answered
one_done = next one_waits (do_job 0 with_parcel (delivery parcel_of) [] refl refl)

Reach-Balanced_example : Balanced (parcel_of ∷ []) (parcel_of ∷ []) two_consumers one_answered
Reach-Balanced_example =
    Reach-Balanced sample_env sample_registrar sample_broker two-IsReady one_done

Reach-drained_example :
    (u : Consumer) × (rest : List Delivery) × Reach sample_env sample_registrar sample_broker
      one_arrived [] rest u
    × (deliveries_taken u.group.workers ≡ 0)
    × ((p : Delivery → Bool)
        → among p rest + among p [] ≡ taken_among p two_workers.workers + among p (parcel_of ∷ []))
    × (length u.world.settled ≡ length sample_world.settled + 0 + length rest)
Reach-drained_example =
    Reach-drained sample_env sample_registrar sample_broker two_consumers one_arrived
      (parcel_of ∷ []) [] two-IsReady one_waits

-- A pool with a task: it is started, its consumer opened, a delivery taken, and `Stop` called.
abbrev new_pool : WorkerPool
new_pool = record (assemble 2 "paota" "42" sample_amqp_broker) { task_registrar = sample_registrar }

abbrev new_run : Running
new_run = record {
  pool = new_pool;
  world = sample_world;
  connection = 0;
  in_progress = 0;
  phase = idle;
  stage = running;
}

new_run-IsNew : IsNew sample_env new_run
new_run-IsNew = record {
  size = 2;
  name_space = "paota";
  some_worker = omega arith;
  group = refl;
  unstarted = refl;
  phase = refl;
  stage = refl;
  nothing = refl;
}

abbrev open_pool : WorkerPool
open_pool = record new_pool {
  started = true;
  worker_group = record two_workers { last_assigned_worker_index = 0 };
}

begins : start_pool new_pool ≡ done open_pool
unfolding start_pool new_worker_group start_group
begins = refl

abbrev connecting_run : Running
connecting_run = record new_run { pool = open_pool; phase = connecting }

opens : (opening sample_env connecting_run).0 ≡ ok 900
unfolding open_consumer ◌>>=◌ get_connection_from_pool create_amqp_channel set_channel_qos
    create_consumer
opens = refl

abbrev looping_run : Running
looping_run = record connecting_run {
  world = (opening sample_env connecting_run).1;
  connection = 900;
  phase = looping;
}

abbrev shut_pool : WorkerPool
shut_pool = record open_pool {
  started = false;
  worker_group = record two_workers {
    workers =
        record { id = 0; jobs = []; running = true; closed = true }
        ∷ record { id = 1; jobs = []; running = true; closed = true }
        ∷ [];
    last_assigned_worker_index = 0;
  };
}

ends : stop_pool open_pool ≡ done shut_pool
unfolding stop_pool stop_group
ends = refl

abbrev stopping_run : Running
stopping_run = record looping_run { pool = shut_pool; stage = sending }

one_run : Runs sample_env new_run stopping_run
one_run =
    Running.next
      (Running.next (Running.next Running.here (Running.start refl refl begins))
        (Running.opened 900 refl opens))
      (Running.stop refl refl refl (λ h. absurd (omega (arith, h))) ends)

Runs-Reach_example : Protocol.Reach (new_life 1) (life stopping_run)
Runs-Reach_example = Runs-Reach sample_env new_run stopping_run new_run-IsNew one_run
