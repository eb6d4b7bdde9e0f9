-- ===== src/Examples/Consuming.antt =====
-- The consumer at concrete inputs.
use paota.Common.{Bool, ◌≡◌, refl, List, [], ◌∷◌, map, All}
use paota.Registrar.{Delivery}
use paota.Consumer.{Event, arrival, stop_request, Consumer, goes_on, consume, start_consumer}
use paota.Consumer.Loop.{IsFull, Consumed, consume-Consumed}
use paota.Consumer.Opening.{Survives, start_consumer-Survives}
use paota.Samples.{
  sample_env, sample_amqp_broker, sample_registrar, sample_broker, sample_size, sample_world,
}
use paota.Consumer.Service.{consume-Answered}
use paota.WorkerGroup.Assignment.{among, taken_among}
use paota.WorkerGroup.Answers.{Answered, serve}
use paota.Examples.Working.{two_workers, two-IsReady}

abbrev pub two_consumers : Consumer
two_consumers = record { world = sample_world; group = two_workers; waiting = 0 }

abbrev pub parcel_of : Delivery
parcel_of = record { headers = []; body = b'x' ∷ [] }

-- Two deliveries, an empty one, and a request to stop that is not taken any more.
abbrev mixed : List Event
mixed =
    arrival parcel_of
    ∷ arrival parcel_of
    ∷ arrival (record parcel_of { body = [] })
    ∷ stop_request
    ∷ []

consume-Consumed_example : Consumed two_consumers mixed (consume sample_env mixed two_consumers)
consume-Consumed_example = consume-Consumed sample_env mixed two_consumers two-IsReady

start_consumer-Survives_example :
    Survives (start_consumer sample_env sample_amqp_broker mixed two_consumers)
start_consumer-Survives_example =
    start_consumer-Survives sample_env sample_amqp_broker mixed two_consumers sample_size
      two-IsReady

parcels-IsFull : All IsFull (parcel_of ∷ parcel_of ∷ parcel_of ∷ [])
parcels-IsFull = ((λ h. cc), ((λ h. cc), ((λ h. cc), tt)))

consume-Answered_example :
    (t : Consumer) × (consume sample_env
        (map arrival (parcel_of ∷ parcel_of ∷ parcel_of ∷ []))
        two_consumers
      ≡ goes_on t)
    × ((p : Delivery → Bool)
        → taken_among p t.group.workers ≡ among p (parcel_of ∷ parcel_of ∷ parcel_of ∷ []))
    × Answered 3 sample_world
        (serve sample_env sample_registrar sample_broker t.group.workers t.world).1
consume-Answered_example =
    consume-Answered sample_env sample_registrar sample_broker
      (parcel_of ∷ parcel_of ∷ parcel_of ∷ []) two_consumers parcels-IsFull two-IsReady refl
