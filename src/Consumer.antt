-- ===== src/Consumer.antt =====
-- internal/broker/amqp/broker.go, `StartConsumer` and `processDelivery`: the consumer's loop over the
-- events that its `select` takes, in the order in which it takes them.
pub mod Loop
pub mod Opening
pub mod Service
pub mod Interleaving
pub mod Draining
use paota.Common.{ℕ, ◌+◌, ◌-◌, String, true, false, Option, none, some, List, [], ◌∷◌}
use paota.Schema.{Error, empty_message, consumer_cancelled, closed_gracefully, external}
use paota.World.{
  Env, World, Outcome, ok, err, panic, Exec, pure, raise, ◌>>=◌, ◌>>◌, on_error, ignore, nack,
}
use paota.Provider.{
  get_amqp_connection, release_connection_to_pool, create_amqp_channel, close_amqp_channel,
  set_channel_qos, create_consumer,
}
use paota.Broker.{AmqpBroker, get_task_queue, get_queue_prefetch_count}
use paota.Registrar.{Delivery, delivery, settle}
use paota.WorkerGroup.{WorkerGroup, Call, done, blocked, panics, assign_job, get_worker_group_name}

-- `cancelled`, `amqpErrorChannel` and `errorsChan`, `connClosed`, `chClosed`, a delivery, the end of
-- the deliveries, `stopChannel`. A channel of close notifications gives nil when it is closed.
pub data Event : Type 0 where
  cancelled : String → Event
  failed : Error → Event
  connection_closed channel_closed : Option Error → Event
  arrival : Delivery → Event
  deliveries_closed stop_request : Event

-- `waiting` is the counter of `processingWG`.
pub record Consumer : Type 0 where
  pub world : World
  pub group : WorkerGroup
  pub waiting : ℕ

-- After an event the loop goes on, returns, waits for ever for a worker, or panics.
pub data Turn : Type 0 where
  goes_on : Consumer → Turn
  returns : Option Error → Consumer → Turn
  stuck crashed : Consumer → Turn

-- `return err` of a `*amqp.Error`, which is not a nil error even when it is a nil pointer.
abbrev pub close_error : Option Error → Error
close_error none = closed_gracefully
close_error (some e) = e

-- The error of `Nack`, and else the one of an empty message.
abbrev pub empty_error : Outcome (Unit {0}) → Error
empty_error (err e) = e
empty_error _ = empty_message

-- The deferred `Done`.
abbrev pub leave : Consumer → Consumer
leave s = record s { waiting = s.waiting - 1 }

abbrev pub assigned : Consumer → Call WorkerGroup → Turn
assigned s (done wg) = goes_on (leave (record s { group = wg }))
assigned s blocked = stuck s
assigned s panics = crashed (leave s)

module _ (env : Env) where
  abbrev pub refuse_empty : Consumer → Turn
  refuse_empty s =
      let (r, w) = settle env (nack false false) s.world in
      returns (some (empty_error r)) (leave (record s { world = w }))

  abbrev pub process_body : Consumer → Delivery → List ℕ → Turn
  process_body s d [] = refuse_empty s
  process_body s d (b ∷ bs) = assigned s (assign_job s.group (delivery d))

  unfoldable pub process_delivery : Consumer → Delivery → Turn
  process_delivery s d = process_body s d d.body

  unfoldable pub handle_event : Consumer → Event → Turn
  unfolding process_delivery
  handle_event s (cancelled tag) = returns (some (consumer_cancelled tag)) s
  handle_event s (failed e) = returns (some e) s
  handle_event s (connection_closed o) = returns (some (close_error o)) s
  handle_event s (channel_closed o) = returns (some (close_error o)) s
  handle_event s (arrival d) = process_delivery (record s { waiting = s.waiting + 1 }) d
  handle_event s deliveries_closed = returns (some empty_message) s
  handle_event s stop_request = returns none s

  abbrev pub and_then : Turn → (Consumer → Turn) → Turn
  and_then (goes_on s) k = k s
  and_then (returns o s) k = returns o s
  and_then (stuck s) k = stuck s
  and_then (crashed s) k = crashed s

  -- The loop, over the events that come while it runs.
  unfoldable pub consume : List Event → Consumer → Turn
  unfolding handle_event
  consume [] s = goes_on s
  consume (e ∷ es) s = and_then (handle_event s e) (λ t. consume es t)

  module _ (b : AmqpBroker) where
    -- From the connection to the consumer; what is open is closed again on an error.
    abbrev pub on_channel : String → Exec (Unit {0})
    on_channel name =
        on_error
          (do
            set_channel_qos env (get_queue_prefetch_count b)
            create_consumer env (get_task_queue b) name)
          (λ e. do close_amqp_channel env; raise e)

    unfoldable pub open_consumer : String → Exec ℕ
    open_consumer name = do
      conn ← get_amqp_connection env (some b.amqp)
      on_error (do create_amqp_channel env conn false; on_channel name)
          (λ e. do ignore (release_connection_to_pool env (some b.amqp) (some conn)); raise e)
      pure conn

    -- The deferred calls.
    unfoldable pub close_consumer : ℕ → Exec (Unit {0})
    close_consumer conn = do
      close_amqp_channel env
      ignore (release_connection_to_pool env (some b.amqp) (some conn))

    abbrev pub closing : ℕ → Consumer → Consumer
    closing conn s = record s { world = (close_consumer conn s.world).1 }

    abbrev pub finish : ℕ → Turn → Turn
    finish conn (goes_on s) = goes_on s
    finish conn (returns o s) = returns o (closing conn s)
    finish conn (stuck s) = stuck s
    finish conn (crashed s) = crashed (closing conn s)

    abbrev pub started : List Event → Consumer → Outcome ℕ → Turn
    started es s (ok conn) = finish conn (consume es s)
    started es s (err e) = returns (some e) s
    started es s panic = crashed s

    unfoldable pub start_consumer : List Event → Consumer → Turn
    start_consumer es s =
        let (r, w) = open_consumer (get_worker_group_name s.group) s.world in
        started es (record s { world = w }) r
