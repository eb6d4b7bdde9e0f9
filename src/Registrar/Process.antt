-- ===== src/Registrar/Process.antt =====
-- `Processor`, `amqpMsgProcessor` and `amqpProcessSignature`.
use paota.Common.{ℕ, Bool, true, false, Option, none, some, List, [], ◌∷◌, ◌++◌, if◌then◌else◌}
use paota.Common.Int.{ltb_ℤ}
use paota.Schema.{Bytes, Signature, Error, empty_message, task_must_be_func}
use paota.Config.{Table}
use paota.World.{
  Settlement, ack, nack, Env, Outcome, ok, err, panic, Exec, pure, raise, die, ◌>>=◌, ◌>>◌, ignore,
  fail_if, modify, gets, next_call, attempt, recovering,
}
use paota.Interface.{Broker}
use paota.Registrar.Tasks.{
  TypeName, signature_pointer, error_interface, Finish, returned, panicked, running, takes,
  TaskFunc, Task, func, Registrar, get_registered_task,
}
use paota.Registrar.Headers.{has_header, signature_from_amqp_headers_and_body, bytes_to_signature}
use paota.Registrar.Retry.{check_task_timeout, push_to_timeout_amqp_queue, retry_task}

pub record Delivery : Type 0 where
  pub headers : Table
  pub body : Bytes

pub data Job : Type 0 where
  delivery : Delivery → Job
  unsupported_job : ℕ → Job

-- The type assertion `.(func(*schema.Signature) error)`.
abbrev pub is_task_type : List TypeName → List TypeName → Bool → Bool → Bool
is_task_type (signature_pointer ∷ []) (error_interface ∷ []) false false = true
is_task_type _ _ _ _ = false

unfoldable pub as_task_func : Task → Option TaskFunc
as_task_func (func t f) = if is_task_type t.ins t.outs t.variadic t.named then some f else none
as_task_func _ = none

module _ (env : Env) where
  -- `Ack` and `Nack` of the delivery.
  unfoldable pub settle : Settlement → Exec (Unit {0})
  settle s = do
    i ← next_call
    modify (λ w. record w { settled = w.settled ++ s ∷ [] })
    fail_if (env.settle i s)

  unfoldable pub reject : Error → Exec (Unit {0})
  reject e = do ignore (settle (nack false false)); raise e

module _ (env : Env) (r : Registrar) (broker : Broker) where
  abbrev pub settle_retry : Option Error → Exec (Unit {0})
  settle_retry none = ignore (settle env (ack false))
  settle_retry (some e) = do ignore (settle env (nack false true)); raise e

  -- After a failure: acknowledged once the retry is on its way, and else returned to the queue.
  unfoldable pub retry_and_settle : Exec (Unit {0})
  retry_and_settle = do e ← attempt (retry_task env r broker); settle_retry e

  abbrev pub settle_quietly : Option Error → Exec (Unit {0})
  settle_quietly none = ignore (settle env (ack false))
  settle_quietly (some _) = ignore (settle env (nack false true))

  unfoldable pub expire : Exec (Unit {0})
  expire = do e ← attempt (push_to_timeout_amqp_queue env r broker); settle_quietly e

  -- The `select`: the deadline of the handler comes first if the call takes longer.
  abbrev pub conclude : Finish → Exec (Unit {0})
  conclude (returned none) = settle env (ack false)
  conclude (returned (some _)) = retry_and_settle
  conclude panicked = retry_and_settle
  conclude running = retry_and_settle
  conclude (takes seconds end) =
      if ltb_ℤ r.config.max_task_execution_duration seconds then retry_and_settle else conclude end

  -- The task runs on the shared signature; its own panic is an error on the channel.
  unfoldable pub run_task : TaskFunc → Exec (Unit {0})
  run_task f w = let (end, s) = f w.signature in conclude end (record w { signature = s })

  abbrev pub run_if_func : Option TaskFunc → Exec (Unit {0})
  run_if_func none = reject env task_must_be_func
  run_if_func (some f) = run_task f

  abbrev pub run_registered : Outcome Task → Exec (Unit {0})
  run_registered (ok t) = run_if_func (as_task_func t)
  run_registered _ = reject env task_must_be_func

  unfoldable pub execute : Signature → Exec (Unit {0})
  execute s = run_registered (get_registered_task r s.name)

  -- A panic of the handler itself.
  unfoldable pub after_panic : Exec (Unit {0})
  after_panic = do e ← attempt (retry_task env r broker); settle_quietly e

  unfoldable pub amqp_process_signature : Exec (Unit {0})
  amqp_process_signature = recovering after_panic (do
    s ← gets (λ w. w.signature)
    late ← check_task_timeout env s
    if late then expire else execute s)

  abbrev pub decoded : Delivery → Outcome Signature
  decoded d =
      if has_header "task_name" d.headers
      then ok (signature_from_amqp_headers_and_body env.floats d.headers d.body)
      else bytes_to_signature env d.body

  abbrev pub process_decoded : Outcome Signature → Exec (Unit {0})
  process_decoded (ok s) = do modify (λ w. record w { signature = s }); amqp_process_signature
  process_decoded (err e) = reject env e
  process_decoded panic = die

  abbrev pub process_body : Delivery → Bytes → Exec (Unit {0})
  process_body d [] = reject env empty_message
  process_body d (b ∷ bs) = process_decoded (decoded d)

  unfoldable pub amqp_msg_processor : Delivery → Exec (Unit {0})
  amqp_msg_processor d = process_body d d.body

  -- Other jobs are logged and dropped.
  unfoldable pub processor : Job → Exec (Unit {0})
  processor (delivery d) = amqp_msg_processor d
  processor (unsupported_job _) = pure tt
