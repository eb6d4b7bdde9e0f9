-- ===== src/Programs/Serving.antt =====
-- What example/consumer/main.go comes to: its start, and the fate of its task.
use paota.Common.{◌≡◌, ◌⊎◌, true, false, [], ◌∷◌, ◌++◌, length}
use paota.Common.Int.{pos}
use paota.Config.{AmqpConfig, Config}
use paota.World.{World, Sent, nack, ok, Outcome}
use paota.Interface.{Broker}
use paota.Broker.{AmqpBroker}
use paota.Registrar.{Registrar, func, get_registered_task}
use paota.WorkerGroup.{Call, done}
use paota.WorkerGroup.Assignment.{IsReady}
use paota.WorkerPool.{WorkerPool}
use paota.Programs.Values.{print_type}
use paota.Programs.Consumer.{consumer_config, print}

abbrev config : Config
config = record consumer_config { max_task_execution_duration = pos 10 }

abbrev broker_of : AmqpConfig → AmqpBroker
broker_of a = record { config = config; amqp = a }

-- The pool serves: its workers receive, its task can be looked up, its connections are there.
pub record IsUp (r : Outcome (Call WorkerPool)) (w : World) : Type 0 where
  pub pool : WorkerPool
  pub result : r ≡ ok (done pool)
  pub is_started : pool.started ≡ true
  pub ready : IsReady pool.worker_group
  pub task : get_registered_task pool.task_registrar "Print" ≡ ok (func print_type print)
  pub connections : length w.pool ≡ 10

-- An answer that is not the one of a completed task: the task has been passed on, or its delivery goes
-- back to its queue, or no queue is configured for it.
pub data Unserved (r : Registrar) (w w' : World) : Type 0 where
  forwarded : (m : Sent) → w'.sent ≡ w.sent ++ m ∷ [] → Unserved r w w'
  back : w'.settled ≡ w.settled ++ nack false true ∷ [] → Unserved r w w'
  nowhere : (r.amqp.failed_queue ≡ "") ⊎ (r.amqp.timeout_queue ≡ "") → Unserved r w w'
