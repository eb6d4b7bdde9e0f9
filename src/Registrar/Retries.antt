-- ===== src/Registrar/Retries.antt =====
-- What a call of `retryTask` comes to, on each of its branches.
use paota.Common.{
  some, ◌^◌, ◌*◌, if◌then◌else◌, ◌+◌, String, ◌≡◌, ◌≢◌, inl, inr, true, false, arith, eq_iff,
  Bool-cases, str_eq,
}
use paota.Common.Int.{ℤ, pos, ltb_ℤ, wrap64, ◌+ℤ◌, ◌*ℤ◌}
use paota.Utils.Fibonacci.{fibonacci}
use paota.Schema.{Signature}
use paota.Schema.Times.{time_add}
use paota.World.{Env, World, Outcome, ok, ◌>>=◌}
use paota.Interface.{Broker}
use paota.Registrar.Tasks.{Registrar}
use paota.Registrar.Retry.{
  get_retry_interval, retries_exhausted, push_to_failed_queue, schedule_retry, retry_task,
}
use paota.Registrar.Sending.{Sends, send_task-Sends}

-- The interval before the next attempt: the Fibonacci number in seconds, on 64 bits, and ten seconds at
-- most.
abbrev pub next_interval : Signature → ℤ
next_interval s =
    let delay = wrap64 (fibonacci (wrap64 (s.retries_done +ℤ pos 1)) *ℤ (10 ^ 9)) in
    if ltb_ℤ (pos (10 * 10 ^ 9)) delay then pos (10 * 10 ^ 9) else delay

module _ (env : Env) (r : Registrar) (broker : Broker) where
  -- The signature with another key, or as it is scheduled at the clock's reading.
  abbrev pub with_key : String → World → World
  with_key key w = record w { signature = record w.signature { routing_key = key } }

  abbrev pub scheduled : World → World
  scheduled w = record w {
    calls = w.calls + 1;
    signature = record w.signature {
      retries_done = wrap64 (w.signature.retries_done +ℤ pos 1);
      routing_key = r.amqp.delayed_queue;
      eta = some (time_add (env.now w.calls) (next_interval w.signature));
    };
  }

  pub data RetryCase (w : World) (o : Outcome (Unit {0})) (w' : World) : Type 0 where
    skipped :
        retries_exhausted w.signature ≡ true
        → r.amqp.failed_queue ≡ ""
        → o ≡ ok tt
        → w' ≡ w
        → RetryCase w o w'
    buried :
        retries_exhausted w.signature ≡ true
        → r.amqp.failed_queue ≢ ""
        → Sends (with_key r.amqp.failed_queue w) o w'
        → RetryCase w o w'
    delayed_again :
        retries_exhausted w.signature ≡ false
        → ltb_ℤ (pos 0) (next_interval w.signature) ≡ true
        → Sends (scheduled w) o w'
        → RetryCase w o w'
    sent_at_once :
        retries_exhausted w.signature ≡ false
        → ltb_ℤ (pos 0) (next_interval w.signature) ≡ false
        → Sends w o w'
        → RetryCase w o w'

  pub retry_task-RetryCase :
      (w : World) → RetryCase w (retry_task env r broker w).0 (retry_task env r broker w).1
  unfolding retry_task push_to_failed_queue schedule_retry get_retry_interval ◌>>=◌
  retry_task-RetryCase w = elim (Bool-cases (retries_exhausted w.signature)) [
    | inl over ↦ elim (Bool-cases (str_eq r.amqp.failed_queue "")) [
      | inl missing ↦
          skipped over ((eq_iff r.amqp.failed_queue "").0 missing) (rw (over, missing))
            (rw (over, missing))
      | inr there ↦
          buried over (λ e. ground (arith, eq_iff r.amqp.failed_queue ""))
            (rw (over, there) (send_task-Sends env broker (with_key r.amqp.failed_queue w)))
    ]
    | inr left ↦ elim (Bool-cases (ltb_ℤ (pos 0) (next_interval w.signature))) [
      | inl later ↦
          delayed_again left later (rw (left, later) (send_task-Sends env broker (scheduled w)))
      | inr now ↦ sent_at_once left now (rw (left, now) (send_task-Sends env broker w))
    ]
  ]
