-- ===== src/Registrar/Retry.antt =====
-- `checkTaskTimeout`, `pushToTimeoutAmqpQueue`, `retryTask` and `getRetryInterval`.
use paota.Common.{◌*◌, Bool, false, ◌||◌, none, some, str_eq, if◌then◌else◌}
use paota.Common.Int.{ℤ, pos, ◌+ℤ◌, ◌-ℤ◌, ◌*ℤ◌, wrap64, ltb_ℤ, eqb_ℤ}
use paota.Schema.{Time, Duration, Signature, second}
use paota.Schema.Times.{time_sub, time_add}
use paota.Utils.Fibonacci.{fibonacci}
use paota.World.{Env, Exec, pure, ◌>>=◌, ◌>>◌, gets, next_call, modify_signature}
use paota.Interface.{Broker}
use paota.Registrar.Tasks.{Registrar}
use paota.Registrar.Send.{send_task}

abbrev max_delay : Duration
max_delay = pos (10 * second)

-- The product is an int64 and may wrap.
unfoldable pub get_retry_interval : ℤ → Duration
get_retry_interval retry_count =
    let delay = wrap64 (fibonacci retry_count *ℤ second) in
    if ltb_ℤ max_delay delay then max_delay else delay

-- `signature.RetryCount < 1 || signature.RetriesDone > (signature.RetryCount-1)`
unfoldable pub retries_exhausted : Signature → Bool
unfolding ◌-ℤ◌ wrap64
retries_exhausted s =
    ltb_ℤ s.retry_count (pos 1) || ltb_ℤ (wrap64 (s.retry_count -ℤ pos 1)) s.retries_done

module _ (env : Env) where
  -- `elapsed >= float64(signature.TaskTimeOut)`
  abbrev pub is_overdue : Time → ℤ → Time → Bool
  is_overdue created limit now =
      env.floats.le (env.floats.from_int limit) (env.floats.seconds (time_sub now created))

  abbrev older_than : Time → ℤ → Exec Bool
  older_than created limit = do i ← next_call; pure (is_overdue created limit (env.now i))

  unfoldable pub check_task_timeout : Signature → Exec Bool
  unfolding time_sub
  check_task_timeout s = elim s.created_at [
    | none ↦ pure false
    | some created ↦
        if eqb_ℤ s.task_time_out (pos 0) then pure false else older_than created s.task_time_out
  ]

module _ (env : Env) (r : Registrar) (broker : Broker) where
  unfoldable pub push_to_timeout_amqp_queue : Exec (Unit {0})
  push_to_timeout_amqp_queue = if str_eq r.amqp.timeout_queue "" then pure tt else (do
    modify_signature (λ s. record s { task_time_out = pos 0; routing_key = r.amqp.timeout_queue })
    send_task env broker)

  -- The last attempt is over.
  unfoldable pub push_to_failed_queue : Exec (Unit {0})
  push_to_failed_queue = if str_eq r.amqp.failed_queue "" then pure tt else (do
    modify_signature (λ s. record s { routing_key = r.amqp.failed_queue })
    send_task env broker)

  abbrev pub delayed : Time → Signature → Signature
  delayed eta s = record s {
    retries_done = wrap64 (s.retries_done +ℤ pos 1);
    routing_key = r.amqp.delayed_queue;
    eta = some eta;
  }

  abbrev pub schedule : Duration → Exec (Unit {0})
  schedule interval = do i ← next_call; modify_signature (delayed (time_add (env.now i) interval))

  unfoldable pub schedule_retry : Signature → Exec (Unit {0})
  schedule_retry s =
      let interval = get_retry_interval (wrap64 (s.retries_done +ℤ pos 1)) in
      do if ltb_ℤ (pos 0) interval then schedule interval else pure tt; send_task env broker

  unfoldable pub retry_task : Exec (Unit {0})
  retry_task = do
    s ← gets (λ w. w.signature)
    if retries_exhausted s then push_to_failed_queue else schedule_retry s
