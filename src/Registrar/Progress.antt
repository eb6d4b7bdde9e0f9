-- ===== src/Registrar/Progress.antt =====
-- How often a task is retried.
use paota.Common.{ℕ, suc, ◌*◌, ◌^◌, ◌≤◌, ◌<◌, ◌≡◌, ◌≢◌, sym, ◌∙◌, ap, true, false, some, arith, leb}
use paota.Common.Int.{pos, ◌+ℤ◌, ltb_ℤ, wrap64}
use paota.Schema.{Signature, second}
use paota.Schema.Times.{time_add}
use paota.World.{Env, World, Outcome}
use paota.Interface.{Broker}
use paota.Utils.Fibonacci.{fib, fib_mono, fib_one}
use paota.Registrar.Tasks.{Registrar}
use paota.Registrar.Retry.{get_retry_interval, retries_exhausted, retry_task}
use paota.Registrar.Retries.{
  RetryCase, skipped, buried, delayed_again, sent_at_once, retry_task-RetryCase, next_interval,
}
use paota.Registrar.Intervals.{get_retry_interval-fib, get_retry_interval-overflow, capped_delay}

-- With a retry count in the range of an int, the retries are exhausted exactly when as many are
-- done.
pub retries_exhausted-leb :
    (s : Signature) (c n : ℕ)
    → s.retry_count ≡ pos c
    → s.retries_done ≡ pos n
    → c < 2 ^ 63
    → retries_exhausted s ≡ leb c n
unfolding retries_exhausted
retries_exhausted-leb s c n count done fits = rw (count, done) (ground arith)

next_count : (n : ℕ) → n < 2 ^ 62 → wrap64 (pos n +ℤ pos 1) ≡ pos (suc n)
unfolding wrap64 ◌+ℤ◌
next_count n h = ground arith

capped_pos : (f : ℕ) → 1 ≤ f → ltb_ℤ (pos 0) (pos (capped_delay f * second)) ≡ true
capped_pos f h = ground arith

module _ (env : Env) (r : Registrar) (broker : Broker) where
  interval_value :
      (s : Signature) (n : ℕ)
      → s.retries_done ≡ pos n
      → n < 49
      → next_interval s ≡ pos (capped_delay (fib (suc n)) * second)
  unfolding get_retry_interval
  interval_value s n done h =
      rw (done, next_count n (omega arith)) (get_retry_interval-fib (suc n) (omega arith))

  interval_negative :
      (s : Signature) → s.retries_done ≡ pos 49 → ltb_ℤ (pos 0) (next_interval s) ≡ false
  unfolding get_retry_interval
  interval_negative s done = rw (done, next_count 49 (omega arith)) get_retry_interval-overflow

  -- What a retry leaves behind: one more retry done, and the time of the next attempt.
  pub record Rescheduled (w : World) (n : ℕ) (w' : World) : Type 0 where
    pub counted : w'.signature.retries_done ≡ pos (suc n)
    pub due :
        w'.signature.eta
        ≡ some (time_add (env.now w.calls) (pos (capped_delay (fib (suc n)) * second)))
    pub keyed : r.amqp.delayed_queue ≢ "" → w'.signature.routing_key ≡ r.amqp.delayed_queue

  -- A retry that is left, up to the 49th, is counted, and is due after the Fibonacci delay, ten seconds
  -- at most, on the delayed queue if there is one: whatever the task's RetryTimeout and WaitTime are,
  -- which are not read.
  pub retry_task-Rescheduled :
      (w : World) (n : ℕ)
      → retries_exhausted w.signature ≡ false
      → w.signature.retries_done ≡ pos n
      → n < 49
      → Rescheduled w n (retry_task env r broker w).1
  retry_task-Rescheduled w n left done h =
      by_case (retry_task-RetryCase env r broker w) (interval_value w.signature n done h)
    where
      by_case :
          {o : Outcome (Unit {0})} {w' : World}
          → RetryCase env r broker w o w'
          → next_interval w.signature ≡ pos (capped_delay (fib (suc n)) * second)
          → Rescheduled w n w'
      by_case (skipped over a b c) v = absurd (cc)
      by_case (buried over a b) v = absurd (cc)
      by_case (sent_at_once a now s) v = absurd (
          cc (
            sym now
            ∙ ap (ltb_ℤ (pos 0)) v
            ∙ capped_pos (fib (suc n)) (omega (arith, fib_mono (suc n) 1, fib_one))))
      by_case (delayed_again a later s) v = record {
        counted =
            ap (λ (t : Signature). t.retries_done) s.signature_sent
            ∙ rw done (next_count n (omega arith));
        due =
            ap (λ (t : Signature). t.eta) s.signature_sent
            ∙ ap (λ i. some (time_add (env.now w.calls) i)) v;
        keyed = s.key_kept;
      }

  -- The 50th retry of a task that may have it is not counted and sets no time: its interval has
  -- overflowed. A routing key that is not empty stays too.
  pub retry_task-stuck :
      (w : World)
      → retries_exhausted w.signature ≡ false
      → w.signature.retries_done ≡ pos 49
      → let w' = (retry_task env r broker w).1 in
        (w'.signature.retries_done ≡ pos 49)
        × (w'.signature.eta ≡ w.signature.eta)
        × (w.signature.routing_key ≢ "" → w'.signature.routing_key ≡ w.signature.routing_key)
  retry_task-stuck w left done = by_case (retry_task-RetryCase env r broker w)
    where
      negative : ltb_ℤ (pos 0) (next_interval w.signature) ≡ false
      negative = interval_negative w.signature done

      by_case :
          {o : Outcome (Unit {0})} {w' : World}
          → RetryCase env r broker w o w'
          → (w'.signature.retries_done ≡ pos 49)
            × (w'.signature.eta ≡ w.signature.eta)
            × (w.signature.routing_key ≢ "" → w'.signature.routing_key ≡ w.signature.routing_key)
      by_case (skipped over a b c) = absurd (cc)
      by_case (buried over a b) = absurd (cc)
      by_case (delayed_again a later s) = absurd (cc negative)
      by_case (sent_at_once a now s) = (
        ap (λ (t : Signature). t.retries_done) s.signature_sent ∙ done,
        ap (λ (t : Signature). t.eta) s.signature_sent,
        s.key_kept,
      )
