-- ===== src/Examples/Handling.antt =====
-- The registrar at concrete inputs.
use paota.Common.{[], ◌∷◌, refl, arith}
use paota.Registrar.{retry_task, send_task, amqp_process_signature, retries_exhausted}
use paota.Broker.{build_headers_from_signature}
use paota.Registrar.{Delivery, amqp_msg_processor}
use paota.Registrar.Receiving.{Received, amqp_msg_processor-Received}
use paota.Registrar.Settling.{Handled}
use paota.Registrar.Handling.{is_late, amqp_process_signature-Handled}
use paota.Registrar.Progress.{Rescheduled, retry_task-Rescheduled}
use paota.Registrar.Sending.{Sends, send_task-Sends}
use paota.Samples.{sample_env, sample_registrar, sample_broker, sample_world, sample_signature}

amqp_process_signature-Handled_example :
    Handled sample_env sample_registrar sample_broker
      (is_late sample_env sample_registrar sample_broker sample_world.signature sample_world)
      sample_world
      (amqp_process_signature sample_env sample_registrar sample_broker sample_world).1
amqp_process_signature-Handled_example =
    amqp_process_signature-Handled sample_env sample_registrar sample_broker sample_world

retry_task-Rescheduled_example :
    Rescheduled sample_env sample_registrar sample_broker sample_world 3
      (retry_task sample_env sample_registrar sample_broker sample_world).1
unfolding retries_exhausted
retry_task-Rescheduled_example =
    retry_task-Rescheduled sample_env sample_registrar sample_broker sample_world 3 refl refl
      (omega arith)

send_task-Sends_example :
    Sends sample_world
      (send_task sample_env sample_broker sample_world).0
      (send_task sample_env sample_broker sample_world).1
send_task-Sends_example = send_task-Sends sample_env sample_broker sample_world

abbrev letter : Delivery
letter = record { headers = build_headers_from_signature sample_signature; body = b'7' ∷ [] }

amqp_msg_processor-Received_example :
    Received sample_env sample_registrar sample_broker letter sample_world
      (amqp_msg_processor sample_env sample_registrar sample_broker letter sample_world).1
amqp_msg_processor-Received_example =
    amqp_msg_processor-Received sample_env sample_registrar sample_broker letter sample_world
