-- ===== src/Examples/Publishing.antt =====
-- The broker and the provider at concrete inputs.
use paota.Common.{
  String, str_eq, ◌*◌, ◌^◌, ◌≡◌, ◌≢◌, refl, false, none, some, [], ◌∷◌, ◌++◌, inr, arith, eq_iff,
}
use paota.Common.Int.{pos}
use paota.Schema.Times.{unix, from_unix}
use paota.Schema.{Value, string, bool, int, int64}
use paota.World.{on_error, modify_signature, next_call, gets, ◌>>=◌, ok, Sent}
use paota.Provider.{
  amqp_publish_with_confirm, get_connection_from_pool, create_amqp_channel, publish_on_channel,
}
use paota.Provider.Delivery.{IsDelivery, amqp_publish_with_confirm-IsDelivery}
use paota.Provider.Total.{amqp_publish_with_confirm-Total}
use paota.World.Total.{Total}
use paota.Interface.{IsPublish}
use paota.Broker.{
  build_headers_from_signature, publish, prepare_message_body_and_headers, has_raw_args,
  publish_parts, publish_keyed, get_task_ttl,
}
use paota.Broker.Contract.{Published, publish_lem, publish-IsPublish}
use paota.Registrar.{
  retries_exhausted, push_to_failed_queue, send_task, send_task_with_context, complete_signature,
  retry_task, signature_from_amqp_headers_and_body,
}
use paota.Registrar.RoundTrip.{IsWire, carried, signature_from-build_headers}
use paota.Registrar.FailedQueue.{failed_task_expires}
use paota.Samples.{
  sample_env, sample_floats, sample_registrar, sample_broker, sample_amqp_broker, sample_size,
  sample_world, world_with, sample_signature, exhausted_signature, sample_amqp,
}

abbrev pub parcel : Sent
parcel = record {
  exchange = "paota_task_exchange";
  routing_key = "failed_test";
  message = record {
    content_type = "application/json";
    priority = 1;
    body = b'7' ∷ [];
    delivery_mode = 2;
    headers = [];
    expiration = none;
  };
}

amqp_publish_with_confirm-IsDelivery_example :
    IsDelivery parcel sample_world
      (amqp_publish_with_confirm sample_env
        (some sample_amqp)
        "failed_test"
        parcel.message
        "paota_task_exchange"
        sample_world).0
      (amqp_publish_with_confirm sample_env
        (some sample_amqp)
        "failed_test"
        parcel.message
        "paota_task_exchange"
        sample_world).1
amqp_publish_with_confirm-IsDelivery_example =
    amqp_publish_with_confirm-IsDelivery sample_env (some sample_amqp) "failed_test" parcel.message
      "paota_task_exchange" sample_world

amqp_publish_with_confirm-Total_example : Total (
    amqp_publish_with_confirm sample_env
      (some sample_amqp)
      "failed_test"
      parcel.message
      "paota_task_exchange")
amqp_publish_with_confirm-Total_example =
    amqp_publish_with_confirm-Total sample_env sample_amqp "failed_test" parcel.message
      "paota_task_exchange" sample_size

publish-IsPublish_example :
    IsPublish sample_world
      (publish sample_env sample_amqp_broker sample_world).0
      (publish sample_env sample_amqp_broker sample_world).1
publish-IsPublish_example = publish-IsPublish sample_env sample_amqp_broker sample_world

publish_lem_example :
    Published sample_env sample_amqp_broker sample_world
      (b'7' ∷ [], build_headers_from_signature sample_signature)
      (publish sample_env sample_amqp_broker sample_world).0
      (publish sample_env sample_amqp_broker sample_world).1
unfolding prepare_message_body_and_headers has_raw_args
publish_lem_example =
    publish_lem sample_env sample_amqp_broker
      (b'7' ∷ [], build_headers_from_signature sample_signature) sample_world refl

published : (publish sample_env sample_amqp_broker sample_world).0 ≡ ok tt
unfolding publish ◌>>=◌ prepare_message_body_and_headers has_raw_args publish_parts get_task_ttl
    publish_keyed amqp_publish_with_confirm get_connection_from_pool create_amqp_channel
    publish_on_channel
published = refl

-- A wire on which each int arrives as an int64.
abbrev pub widened : Value → Value
widened (string s) = string s
widened (bool b) = bool b
widened (int i) = int64 i
widened v = v

pub widened-IsWire : IsWire widened
widened-IsWire = record {
  strings = λ s. refl;
  bools = λ b. refl;
  longs = λ i. refl;
  ints = λ i h. inr refl;
}

pub text-ne-nil : (s : String) → str_eq s "" ≡ false → s ≢ ""
text-ne-nil s other e = cc (other, (eq_iff s "").1 e)

signature_from-build_headers_example :
    signature_from_amqp_headers_and_body sample_floats
      (carried widened (build_headers_from_signature sample_signature))
      sample_signature.raw_args
    ≡ sample_signature
unfolding from_unix unix
signature_from-build_headers_example =
    signature_from-build_headers sample_floats widened widened-IsWire sample_signature (record {
      retry_count = record { above = omega arith; below = omega arith };
      retry_timeout = record { above = omega arith; below = omega arith };
      wait_time = record { above = omega arith; below = omega arith };
      retries_done = record { above = omega arith; below = omega arith };
      task_time_out = record { above = omega arith; below = omega arith };
    })

failed_task_expires_example :
    (m : Sent) × ((retry_task sample_env sample_registrar sample_broker
        (world_with exhausted_signature)).1.sent
      ≡ [] ++ m ∷ [])
    × (m.routing_key ≡ "failed_test")
    × (m.message.expiration ≡ some (pos 5))
unfolding retries_exhausted retry_task push_to_failed_queue send_task send_task_with_context
    complete_signature on_error modify_signature next_call gets publish ◌>>=◌
    prepare_message_body_and_headers has_raw_args publish_parts get_task_ttl publish_keyed
    amqp_publish_with_confirm get_connection_from_pool create_amqp_channel publish_on_channel
failed_task_expires_example =
    failed_task_expires sample_env sample_amqp_broker sample_size sample_registrar
      (world_with exhausted_signature) (pos (995 * 10 ^ 9)) refl (text-ne-nil "failed_test" refl)
      refl (record { priority = refl; timed = refl }) refl
