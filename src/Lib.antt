-- ===== src/Lib.antt =====
-- Verification of paota, a task queue over RabbitMQ.
--
-- A client sends a task, a `schema.Signature`, through the worker pool to the task registrar
-- (internal/task/memory/task.go), which completes it and gives it to the broker
-- (internal/broker/amqp/broker.go). The broker makes a message of it and publishes it over a
-- connection of the provider's pool (internal/provider/amqp.go). The worker pool
-- (workerpool/workerpool.go) starts a consumer, whose loop in the broker hands each delivery to a
-- worker of its group (internal/workergroup/workergroup.go), and the worker to the registrar. That
-- decodes the signature, runs the task that is registered under its name, and acknowledges the
-- delivery, returns it to the queue or rejects it; a failed task is published again over the delayed
-- queue until its retries are exhausted, and then to the failed queue.
--
-- The files, and the code that they are about:
--   Common      Boolean tests, lists, integers over the native naturals with 64-bit wrap-around.
--   Schema      schema/task.go and schema/errors; Schema/Times is package time, in nanoseconds.
--   Logger      logger/logger_interface.go and logger/logger.go, the default logger.
--   Utils       internal/utils/signature_helper.go; Utils/Fibonacci is internal/utils/fibonacci.go.
--   Config      config/config.go, config/amqp.go, config/mongodb.go; Config/Reading is
--               about a configuration that was set or read.
--   World       The state of the program (`published`: the messages that have gone out, `sent`: those
--               that the server has confirmed) and the answers of what is outside it; the monad of the
--               definitions, whose results are a value, an error or a panic; what keeps the frame
--               (Frame), what does not panic (Total), what a success says of its parts (Inversion),
--               and where the connections are before and after (Moves).
--   Provider    internal/provider/amqp.go: Dialing, Channels, Pool and Confirm, and in Effects,
--               Delivery, Total and Rotation what the calls change, deliver, return and do to
--               the pool; Parts, Ownership, Sharing and Growth are about a pool with many callers.
--   Interface   internal/broker/broker_interface.go: a broker with the laws that the registrar uses.
--   Broker      internal/broker/amqp/broker.go: Defs, Message, Publish and Setup; Contract is about
--               the laws of the interface, Topology about what the setup declares, Expiry about
--               the time to live and the key of a message, Starting about a new broker over a server
--               that accepts what it is asked, Routing about the keys that lead to a queue.
--   Registrar   internal/task/memory/task.go and internal/validation/validation.go: Tasks, Headers,
--               Send, Retry and Process, and the proofs on registering (Registration, Order), sending
--               (Sending, Routing), retries (Retries, Intervals, Progress, FailedQueue), deliveries
--               (Settling, Handling, Receiving), headers (RoundTrip), and the life of a task that
--               fails each time (Lifecycle, Burial, Endless, Redelivery);
--               Published, Json and Transport are about a task on its way from the send to a worker.
--   WorkerGroup internal/workergroup/workergroup.go; Assignment is about the turn of the workers and
--               the stop, Fairness about many jobs, Survival about the loop of a worker, Answers about
--               what it answers.
--   Consumer    StartConsumer and processDelivery of internal/broker/amqp/broker.go, over the events
--               that the select takes; Loop is about the loop, Opening about its start, Service
--               about a stream of deliveries on its way to the workers' answers, Interleaving and
--               Draining about the loop and the workers at the same time.
--   MongoDb     internal/provider/mongodb.go, which nothing of the program uses yet; Retries is about
--               what an operation does over a lost connection.
--   WorkerPool  workerpool/workerpool.go and internal/factory/factory.go; Creation is about the
--               construction and the sending, Starting about it over a server that
--               accepts what it is asked, Lifecycle about Start and Stop up to their goroutines,
--               Protocol about these with StopConsumer, and Progress about the way to their end.
--               Running puts the functions of the pool, the consumer and the workers into the order
--               in which the goroutines call them, and Fits, Events and Refinement relate its runs to
--               the Protocol.
--   Programs    The programs: Publisher is example/publisher/main.go, Consumer is
--               example/consumer/main.go, SelfFeeding is example/consumer_publisher/main.go, Benchmark
--               is bench/amqpnostorage/setup.go; SameId is about the first, Serving about the second.
--   Samples     Concrete data; Examples has the theorems at them.
-- A function of the code has the same name here in lower case with underscores; a part of one that
-- is a function of its own here is named for what it does. A struct is a record of its fields, the
-- pointer to a signature is the field `signature` of the world, and a pointer that may be nil is an
-- Option.
--
-- What is not under the repository is a parameter: the AMQP client and the server (dial, channels,
-- declarations, confirms, Ack and Nack), the MongoDB driver, the clock, the uuid generator, JSON,
-- conversions of floats, the validator of the configuration and the reader of the environment. Each
-- call of a client, of the clock and of the generator has a number, and its answer is an arbitrary
-- function of the number and the arguments, so that a theorem holds for every sequence of answers. A
-- task is an arbitrary function of its signature.
--
-- An `int` and a `time.Duration` wrap at 64 bits where the code computes with them; times are
-- unbounded numbers of nanoseconds in UTC. Every definition is structurally recursive: a loop over
-- connections runs on its count, the loop of the consumer on the events that come, and the five
-- attempts to connect again on their number. No fuel is used.
--
-- What several goroutines do is a step relation: Provider/Sharing over the methods that hold the
-- mutex of the pool, each of them one step of the same functions as in Provider/Pool,
-- Consumer/Interleaving over the events of the consumer and the jobs of the workers, a job being one
-- step, WorkerPool/Protocol over the places of the consuming and the stopping goroutine, whose channels
-- have no buffer, and WorkerPool/Running over the same places with the state of the functions. The
-- steps come in any order. In Running, an event with what the consumer does about it is one step, and
-- so is the part of Stop up to the call of StopConsumer; Protocol has the assignment of a job as steps
-- of its own, so that Stop may come while it waits.
--
-- Not modelled: the functions of Running with a Stop that comes during AssignJob, which only Protocol
-- has; the limit of the handler in nanoseconds, which is compared in seconds, and a task that takes
-- exactly as long; the writes of a task that goes on after its deadline, which race with the retry; the
-- write of `started` without a lock; a task that sends further tasks while it runs; two sends of one
-- signature at the same time, which the publisher's list of acts takes one after the other; and the
-- log lines of the parts, which change nothing that another part reads.
pub mod Common
pub mod Schema
pub mod Logger
pub mod Utils
pub mod Config
pub mod World
pub mod Provider
pub mod Broker
pub mod Interface
pub mod MongoDb
pub mod Registrar
pub mod WorkerGroup
pub mod Consumer
pub mod WorkerPool
pub mod Programs
mod Samples
mod Examples
