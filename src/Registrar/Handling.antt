-- ===== src/Registrar/Handling.antt =====
-- `amqpProcessSignature` as a whole: how a delivery is settled.
use paota.Common.{
  String, ℕ, ◌+◌, ◌≡◌, ◌≢◌, refl, sym, ◌∙◌, subst, if◌then◌else◌, inl, inr, Bool, true, false,
  Option, none, some, arith, Bool-cases, Option-cases,
}
use paota.Common.Int.{pos, eqb_ℤ, ltb_ℤ}
use paota.World.Total.{Total, Total-bind, Total-if, Total-attempt, total_rules}
use paota.Schema.{Signature, Error}
use paota.World.{
  Settlement, ack, Env, World, Outcome, ok, err, panic, Exec, ◌>>=◌, attempt, gets, recovering,
  recovered,
}
use paota.Interface.{Broker}
use paota.Registrar.Tasks.{
  Registrar, Task, TaskFunc, Finish, returned, panicked, running, takes, get_registered_task,
}
use paota.Registrar.Retry.{retry_task, push_to_timeout_amqp_queue, check_task_timeout, is_overdue}
use paota.Registrar.Process.{
  as_task_func, settle, reject, settle_retry, retry_and_settle, settle_quietly, expire, conclude,
  run_task, run_if_func, run_registered, execute, amqp_process_signature,
}
use paota.Registrar.Settling.{
  Completes, at_once, in_time, in_time-end, returned_error, panicked_call, endless_call, Handled,
  Unfinished, overdue, unsuccessful, completed, passed_on, dropped, requeued, rejected, by-Handover,
  retry_task-Handover, push_to_timeout-Handover, settle-settled, settle-sent, reject-settled,
  reject-sent, retry_and_settle-Handled, expire-Handled,
}

module _ (env : Env) (r : Registrar) (broker : Broker) where
  run_task-Handled :
      (w : World) (t : Task) (f : TaskFunc)
      → get_registered_task r w.signature.name ≡ ok t
      → as_task_func t ≡ some f
      → Handled env r broker false w (run_task env r broker f w).1
  unfolding run_task
  run_task-Handled w t f found typed =
      by_finish (f w.signature).0 (f w.signature).1 (λ c. c) (λ c. c)
    where
      by_finish :
          (end : Finish) (s : Signature)
          → (Completes r.config.max_task_execution_duration end
              → Completes r.config.max_task_execution_duration (f w.signature).0)
          → (Completes r.config.max_task_execution_duration (f w.signature).0
              → Completes r.config.max_task_execution_duration end)
          → Handled env r broker false w (conclude env r broker end (record w { signature = s })).1
      by_finish (returned none) s up down =
          completed t f refl found typed (up at_once)
            (settle-settled env r broker (ack false) (record w { signature = s }))
            (settle-sent env r broker (ack false) (record w { signature = s }))
      by_finish (returned (some x)) s up down =
          retry_and_settle-Handled env r broker w s
            (unsuccessful t f refl found typed (λ c. returned_error _ x (down c)) refl)
      by_finish panicked s up down =
          retry_and_settle-Handled env r broker w s
            (unsuccessful t f refl found typed (λ c. panicked_call _ (down c)) refl)
      by_finish running s up down =
          retry_and_settle-Handled env r broker w s
            (unsuccessful t f refl found typed (λ c. endless_call _ (down c)) refl)
      by_finish (takes d end) s up down =
          elim (Bool-cases (ltb_ℤ r.config.max_task_execution_duration d)) [
            | inl over ↦ rw over (
                retry_and_settle-Handled env r broker w s (
                  unsuccessful t f refl found typed
                    (λ c. cc (over, (in_time-end _ d end (down c)).0)) refl))
            | inr soon ↦ rw soon (
                by_finish end s (λ c. up (in_time d end soon c))
                  (λ c. (in_time-end _ d end (down c)).1))
          ]

  run_if_func-Handled :
      (w : World) (t : Task) (o : Option TaskFunc)
      → get_registered_task r w.signature.name ≡ ok t
      → as_task_func t ≡ o
      → Handled env r broker false w (run_if_func env r broker o w).1
  run_if_func-Handled w t (some f) found typed = run_task-Handled w t f found typed
  run_if_func-Handled w t none found untyped =
      rejected refl (λ u p. subst (λ v. as_task_func v ≡ none) (ok_inj t u (sym found ∙ p)) untyped)
        (reject-settled env r broker _ w) (reject-sent env r broker _ w)
    where
      ok_inj : (t u : Task) → ok t ≡ ok u → t ≡ u
      ok_inj t u e = cc

  run_registered-Handled :
      (w : World) (o : Outcome Task)
      → get_registered_task r w.signature.name ≡ o
      → Handled env r broker false w (run_registered env r broker o w).1
  run_registered-Handled w (ok t) found = run_if_func-Handled w t (as_task_func t) found refl
  run_registered-Handled w (err e) found =
      rejected refl (λ t p. absurd (cc)) (reject-settled env r broker _ w)
        (reject-sent env r broker _ w)
  run_registered-Handled w panic found =
      rejected refl (λ t p. absurd (cc)) (reject-settled env r broker _ w)
        (reject-sent env r broker _ w)

  execute-Handled :
      (w : World) → Handled env r broker false w (execute env r broker w.signature w).1
  unfolding execute
  execute-Handled w = run_registered-Handled w _ refl

  forget-calls-Unfinished :
      (late : Bool) (w : World) (n : ℕ) (queue : String)
      → Unfinished env r broker late (record w { calls = n }) queue
      → Unfinished env r broker late w queue
  forget-calls-Unfinished late w n queue (overdue a b) = overdue a b
  forget-calls-Unfinished late w n queue (unsuccessful t f a b c d e) = unsuccessful t f a b c d e

  forget-calls :
      (late : Bool) (w w' : World) (n : ℕ)
      → Handled env r broker late (record w { calls = n }) w'
      → Handled env r broker late w w'
  forget-calls late w w' n (completed t f a b c d e g) = completed t f a b c d e g
  forget-calls late w w' n (passed_on q m u a b) =
      passed_on q m (forget-calls-Unfinished late w n q u) a b
  forget-calls late w w' n (dropped u a b) = dropped (forget-calls-Unfinished late w n "" u) a b
  forget-calls late w w' n (requeued q u a b) =
      requeued q (forget-calls-Unfinished late w n q u) a b
  forget-calls late w w' n (rejected a b c d) = rejected a b c d

  -- The signature counts as late, at the clock's next reading.
  abbrev pub is_late : Signature → World → Bool
  is_late s w = elim s.created_at [
    | none ↦ false
    | some created ↦
        if eqb_ℤ s.task_time_out (pos 0)
        then false
        else is_overdue env created s.task_time_out (env.now w.calls)
  ]

  pub check_task_timeout_lem :
      (s : Signature) (w : World)
      → (n : ℕ) × (check_task_timeout env s w ≡ (ok (is_late s w), record w { calls = n }))
  unfolding check_task_timeout ◌>>=◌
  check_task_timeout_lem s w = elim (Option-cases s.created_at) [
    | inl missing ↦ (w.calls, ground arith)
    | inr (created, stamped) ↦ elim (Bool-cases (eqb_ℤ s.task_time_out (pos 0))) [
      | inl unlimited ↦ (w.calls, ground arith)
      | inr limited ↦ (w.calls + 1, ground arith)
    ]
  ]

  handle : Exec (Unit {0})
  handle = do
    s ← gets (λ w. w.signature)
    late ← check_task_timeout env s
    if late then expire env r broker else execute env r broker s

  handle-Handled : (w : World) → Handled env r broker (is_late w.signature w) w (handle w).1
  unfolding handle ◌>>=◌
  handle-Handled w =
      let (n, checked) = check_task_timeout_lem w.signature w in
      rw checked (forget-calls _ w _ n (branch (is_late w.signature w) (record w { calls = n })))
    where
      branch :
          (late : Bool) (v : World)
          → Handled env r broker late v
              ((if late then expire env r broker else execute env r broker v.signature) v).1
      branch true v = expire-Handled env r broker v
      branch false v = execute-Handled v

  retry_task-Total : Total (retry_task env r broker)
  retry_task-Total = record { at = λ w. by-Handover (retry_task-Handover env r broker w) }

  settle-Total : (s : Settlement) → Total (settle env s)
  unfolding settle
  settle-Total s = search total_rules depth 9

  pub reject-Total : (e : Error) → Total (reject env e)
  unfolding reject
  reject-Total e = search (total_rules, settle-Total) depth 9

  settle_quietly-Total : (o : Option Error) → Total (settle_quietly env r broker o)
  settle_quietly-Total none = search (total_rules, settle-Total)
  settle_quietly-Total (some e) = search (total_rules, settle-Total)

  settle_retry-Total : (o : Option Error) → Total (settle_retry env r broker o)
  settle_retry-Total none = search (total_rules, settle-Total)
  settle_retry-Total (some e) = search (total_rules, settle-Total) depth 9

  expire-Total : Total (expire env r broker)
  unfolding expire
  expire-Total =
      Total-bind (attempt (push_to_timeout_amqp_queue env r broker)) _
        (Total-attempt _
          (record { at = λ w. by-Handover (push_to_timeout-Handover env r broker w) }))
        settle_quietly-Total

  retry_and_settle-Total : Total (retry_and_settle env r broker)
  unfolding retry_and_settle
  retry_and_settle-Total =
      Total-bind (attempt (retry_task env r broker)) _ (Total-attempt _ retry_task-Total)
        settle_retry-Total

  conclude-Total : (end : Finish) → Total (conclude env r broker end)
  conclude-Total (returned none) = settle-Total _
  conclude-Total (returned (some e)) = retry_and_settle-Total
  conclude-Total panicked = retry_and_settle-Total
  conclude-Total running = retry_and_settle-Total
  conclude-Total (takes d end) =
      Total-if (ltb_ℤ r.config.max_task_execution_duration d) _ _ retry_and_settle-Total
        (conclude-Total end)

  run_if_func-Total : (o : Option TaskFunc) → Total (run_if_func env r broker o)
  unfolding run_task
  run_if_func-Total none = reject-Total _
  run_if_func-Total (some f) = record {
    at = λ w. (conclude-Total (f w.signature).0).at (record w { signature = (f w.signature).1 });
  }

  run_registered-Total : (o : Outcome Task) → Total (run_registered env r broker o)
  run_registered-Total (ok t) = run_if_func-Total (as_task_func t)
  run_registered-Total (err e) = reject-Total _
  run_registered-Total panic = reject-Total _

  execute-Total : (s : Signature) → Total (execute env r broker s)
  unfolding execute
  execute-Total s = run_registered-Total _

  check_task_timeout-Total : (s : Signature) → Total (check_task_timeout env s)
  check_task_timeout-Total s = record { at = λ w. rw (check_task_timeout_lem s w).1 (λ h. cc) }

  handle-Total : Total handle
  unfolding handle
  handle-Total = search (total_rules, check_task_timeout-Total, expire-Total, execute-Total) depth 9

  recovered_id :
      (h : Exec (Unit {0})) (o : Outcome (Unit {0})) (w : World)
      → o ≢ panic
      → recovered o h w ≡ (o, w)
  recovered_id h (ok x) w n = refl
  recovered_id h (err e) w n = refl
  recovered_id h panic w n = absurd (n refl)

  -- The deferred `recover` has nothing to do: a task's panic does not reach it.
  amqp_process_signature-handle : (w : World) → amqp_process_signature env r broker w ≡ handle w
  unfolding amqp_process_signature handle recovering
  amqp_process_signature-handle w = recovered_id _ (handle w).0 (handle w).1 (handle-Total.at w)

  -- Whatever the task does (return, fail, panic, take longer than the handler's limit), and whatever
  -- the broker and the clock answer, a delivery is settled exactly once. Acknowledged with no message
  -- confirmed: the task was not late and has returned no error within the limit, or the timeout queue
  -- (for a late task) or the failed queue (for one that was run in vain) has no name. Acknowledged
  -- with one message confirmed, or returned to its queue with none confirmed: a task that was late or
  -- was run in vain. Rejected: its name stands for no task function.
  pub amqp_process_signature-Handled :
      (w : World)
      → Handled env r broker (is_late w.signature w) w (amqp_process_signature env r broker w).1
  amqp_process_signature-Handled w = rw (amqp_process_signature-handle w) (handle-Handled w)

  -- The handler of a delivery never panics.
  pub amqp_process_signature-ne-panic :
      (w : World) → (amqp_process_signature env r broker w).0 ≢ panic
  amqp_process_signature-ne-panic w = rw (amqp_process_signature-handle w) (handle-Total.at w)
