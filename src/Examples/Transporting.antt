-- ===== src/Examples/Transporting.antt =====
-- A task sent as JSON, at a concrete input.
use paota.Common.{◌≡◌, refl, some, [], ◌∷◌, ◌++◌, arith}
use paota.Schema.{Signature}
use paota.World.{Env, World, Sent, ok, ◌>>=◌, on_error, modify_signature, next_call, gets}
use paota.Interface.{Broker}
use paota.Provider.{
  amqp_publish_with_confirm, get_connection_from_pool, create_amqp_channel, publish_on_channel,
}
use paota.Broker.{
  has_raw_args, publish, publish_keyed, publish_parts, prepare_message_body_and_headers,
  get_task_ttl,
}
use paota.Broker.Contract.{amqp_broker}
use paota.Registrar.{
  send_task, send_task_with_context, complete_signature, processor, delivery,
  amqp_process_signature,
}
use paota.Registrar.RoundTrip.{IsSmall}
use paota.Registrar.Redelivery.{arrived}
use paota.Registrar.Json.{IsReadable, json_image}
use paota.Registrar.Transport.{Preserved, send_task-processor}
use paota.Samples.{
  sample_env, sample_registrar, sample_amqp_broker, sample_size, sample_signature, world_with,
}
use paota.Examples.Publishing.{widened, widened-IsWire}

-- With no raw arguments.
abbrev plain : Signature
plain = record sample_signature { raw_args = [] }

-- The one signature that is written is read again.
abbrev json_env : Env
json_env = record sample_env { unmarshal = λ body. some (json_image (λ a. a) plain) }

abbrev json_broker : Broker
json_broker = amqp_broker json_env sample_amqp_broker sample_size

plain-IsSmall : IsSmall plain
plain-IsSmall = record {
  retry_count = record { above = omega arith; below = omega arith };
  retry_timeout = record { above = omega arith; below = omega arith };
  wait_time = record { above = omega arith; below = omega arith };
  retries_done = record { above = omega arith; below = omega arith };
  task_time_out = record { above = omega arith; below = omega arith };
}

plain-IsReadable :
    IsReadable json_env
      (λ a. a)
      (complete_signature json_env json_broker (world_with plain)).1.signature
unfolding complete_signature modify_signature next_call gets ◌>>=◌
plain-IsReadable = record { full = λ e. cc; read = λ body written. refl }

plain_sent : (send_task json_env json_broker (world_with plain)).0 ≡ ok tt
unfolding send_task send_task_with_context complete_signature on_error modify_signature next_call
    gets publish ◌>>=◌ prepare_message_body_and_headers has_raw_args publish_parts get_task_ttl
    publish_keyed amqp_publish_with_confirm get_connection_from_pool create_amqp_channel
    publish_on_channel
plain_sent = refl

send_task-processor_example :
    (m : Sent) × ((send_task json_env json_broker (world_with plain)).1.sent ≡ [] ++ m ∷ [])
    × (t : Signature) × Preserved
        (complete_signature json_env json_broker (world_with plain)).1.signature
        t
    × ((v : World)
        → processor json_env sample_registrar json_broker
            (delivery (
              arrived json_env sample_registrar sample_amqp_broker sample_size widened
                widened-IsWire m))
            v
          ≡ amqp_process_signature json_env sample_registrar json_broker
              (record v { signature = t }))
send_task-processor_example =
    send_task-processor json_env sample_registrar sample_amqp_broker sample_size widened
      widened-IsWire (λ a. a) (world_with plain) plain-IsSmall (λ _. plain-IsReadable) plain_sent
