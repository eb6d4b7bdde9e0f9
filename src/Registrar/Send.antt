-- ===== src/Registrar/Send.antt =====
-- `SendTask` and `SendTaskWithContext`.
use paota.Common.{Option, none, some, str_eq, if◌then◌else◌}
use paota.Schema.{Time, task_id, publish_message}
use paota.World.{Env, Exec, pure, raise, ◌>>=◌, ◌>>◌, on_error, gets, next_call, modify_signature}
use paota.Interface.{Broker}

module _ (env : Env) (broker : Broker) where
  abbrev pub generate_uuid : Exec (Unit {0})
  generate_uuid = do
    i ← next_call
    modify_signature (λ s. record s { uuid = task_id (env.new_uuid i) })

  abbrev pub stamp : Exec (Unit {0})
  stamp = do i ← next_call; modify_signature (λ s. record s { created_at = some (env.now i) })

  abbrev pub stamp_if_missing : Option Time → Exec (Unit {0})
  stamp_if_missing none = stamp
  stamp_if_missing (some _) = pure tt

  -- The fields that are filled in before the publish.
  unfoldable pub complete_signature : Exec (Unit {0})
  complete_signature = do
    id ← gets (λ w. w.signature.uuid)
    if str_eq id "" then generate_uuid else pure tt
    created ← gets (λ w. w.signature.created_at)
    stamp_if_missing created

  unfoldable pub send_task_with_context : Exec (Unit {0})
  send_task_with_context = do
    complete_signature
    on_error broker.publish (λ e. raise (publish_message e))

  unfoldable pub send_task : Exec (Unit {0})
  unfolding send_task_with_context
  send_task = send_task_with_context
