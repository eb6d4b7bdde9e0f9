-- ===== src/Registrar/Lifecycle.antt =====
-- A task that fails each time, from its first attempt on: what a consumer retries is delivered again
-- with the signature that its headers carry.
use paota.Common.{
  List, Bool-cases, Option-cases, inl, inr, ◌⊎◌, ℕ, zero, suc, ◌+◌, ◌^◌, ◌≤◌, ◌<◌, ◌≡◌, refl, sym,
  ◌∙◌, ap, subst, false, arith, leb,
}
use paota.Common.Int.{pos, pos_part}
use paota.Schema.{Arg, Bytes, Signature, Value}
use paota.Config.{Table}
use paota.World.{Env, World, Outcome, ok}
use paota.Interface.{Broker}
use paota.Broker.{build_headers_from_signature, has_raw_args, prepare_message_body_and_headers}
use paota.Registrar.Tasks.{Registrar}
use paota.Registrar.Headers.{has_header, bytes_to_signature, signature_from_amqp_headers_and_body}
use paota.Registrar.Process.{decoded}
use paota.Registrar.Json.{json_image, IsReadable}
use paota.Registrar.Retry.{retries_exhausted, retry_task}
use paota.Registrar.Sending.{Sends}
use paota.Registrar.Retries.{
  RetryCase, skipped, buried, delayed_again, sent_at_once, retry_task-RetryCase,
}
use paota.Registrar.Progress.{retry_task-Rescheduled, retries_exhausted-leb}
use paota.Registrar.RoundTrip.{IsWire, IsInt32, IsSmall, carried, signature_from-build_headers}

-- The fields that no retry changes.
pub record SameTask (s t : Signature) : Type 0 where
  pub name : t.name ≡ s.name
  pub raw_args : t.raw_args ≡ s.raw_args
  pub retry_count : t.retry_count ≡ s.retry_count
  pub retry_timeout : t.retry_timeout ≡ s.retry_timeout
  pub wait_time : t.wait_time ≡ s.wait_time
  pub task_time_out : t.task_time_out ≡ s.task_time_out

-- A task that may be tried `c` times again and has been `n` times.
pub record Trying (c n : ℕ) (s : Signature) : Type 0 where
  pub count : s.retry_count ≡ pos c
  pub done : s.retries_done ≡ pos n
  pub small : IsSmall s

module _ (env : Env) (r : Registrar) (broker : Broker) where
  pub retry_task-SameTask :
      (w : World) → SameTask w.signature (retry_task env r broker w).1.signature
  retry_task-SameTask w = by_case (retry_task-RetryCase env r broker w)
    where
      sends :
          (u w' : World) {o : Outcome (Unit {0})}
          → SameTask w.signature u.signature
          → Sends u o w'
          → SameTask w.signature w'.signature
      sends u w' k s = record {
        name = ap (λ (t : Signature). t.name) s.signature_sent ∙ k.name;
        raw_args = ap (λ (t : Signature). t.raw_args) s.signature_sent ∙ k.raw_args;
        retry_count = ap (λ (t : Signature). t.retry_count) s.signature_sent ∙ k.retry_count;
        retry_timeout = ap (λ (t : Signature). t.retry_timeout) s.signature_sent ∙ k.retry_timeout;
        wait_time = ap (λ (t : Signature). t.wait_time) s.signature_sent ∙ k.wait_time;
        task_time_out = ap (λ (t : Signature). t.task_time_out) s.signature_sent ∙ k.task_time_out;
      }

      same : SameTask w.signature w.signature
      same = record {
        name = refl;
        raw_args = refl;
        retry_count = refl;
        retry_timeout = refl;
        wait_time = refl;
        task_time_out = refl;
      }

      by_case :
          {o : Outcome (Unit {0})} {w' : World}
          → RetryCase env r broker w o w'
          → SameTask w.signature w'.signature
      by_case (skipped over a b e) = subst (λ v. SameTask w.signature v.signature) (sym e) same
      by_case (buried over a s) =
          sends _ _
            (record {
              name = refl;
              raw_args = refl;
              retry_count = refl;
              retry_timeout = refl;
              wait_time = refl;
              task_time_out = refl;
            })
            s
      by_case (delayed_again left a s) =
          sends _ _
            (record {
              name = refl;
              raw_args = refl;
              retry_count = refl;
              retry_timeout = refl;
              wait_time = refl;
              task_time_out = refl;
            })
            s
      by_case (sent_at_once left a s) = sends _ _ same s

  Trying-fits : (c n : ℕ) (s : Signature) → Trying c n s → c < 2 ^ 31
  Trying-fits c n s t = subst (λ i. pos_part i < 2 ^ 31) t.count t.small.retry_count.above

  pub Trying-exhausted : (c n : ℕ) (s : Signature) → Trying c n s → retries_exhausted s ≡ leb c n
  Trying-exhausted c n s t =
      retries_exhausted-leb s c n t.count t.done (omega (arith, Trying-fits c n s t))

  pub Trying-left : (c n : ℕ) (s : Signature) → Trying c n s → n < c → retries_exhausted s ≡ false
  Trying-left c n s t left = Trying-exhausted c n s t ∙ ground arith

  pub Trying-retry :
      (c n : ℕ) (w : World)
      → Trying c n w.signature
      → (m : ℕ) → m < 2 ^ 31
      → (retry_task env r broker w).1.signature.retries_done ≡ pos m
      → Trying c m (retry_task env r broker w).1.signature
  Trying-retry c n w t m fits done =
      let k = retry_task-SameTask w in
      record {
        count = k.retry_count ∙ t.count;
        done = done;
        small = record {
          retry_count = subst IsInt32 (sym k.retry_count) t.small.retry_count;
          retry_timeout = subst IsInt32 (sym k.retry_timeout) t.small.retry_timeout;
          wait_time = subst IsInt32 (sym k.wait_time) t.small.wait_time;
          retries_done = subst IsInt32 (sym done) (record { above = fits; below = omega arith });
          task_time_out = subst IsInt32 (sym k.task_time_out) t.small.task_time_out;
        };
      }

  module _ (wire : Value → Value) (lossless : IsWire wire) where
    -- What a consumer reads from the message that a signature was published in.
    abbrev pub redelivered : Signature → Signature
    redelivered s =
        signature_from_amqp_headers_and_body env.floats
          (carried wire (build_headers_from_signature s)) s.raw_args

    pub Trying-redelivered : (c n : ℕ) (s : Signature) → Trying c n s → Trying c n (redelivered s)
    Trying-redelivered c n s t =
        subst (Trying c n) (sym (signature_from-build_headers env.floats wire lossless s t.small))
          (record {
            count = t.count;
            done = t.done;
            small = record {
              retry_count = t.small.retry_count;
              retry_timeout = t.small.retry_timeout;
              wait_time = t.small.wait_time;
              retries_done = t.small.retries_done;
              task_time_out = t.small.task_time_out;
            };
          })

    module _ (reread : List Arg → List Arg)
        (codec : (s : Signature) → has_raw_args s.raw_args ≡ false → IsReadable env reread s) where
      abbrev decoded_or : Signature → Outcome Signature → Signature
      decoded_or s (ok t) = t
      decoded_or s _ = s

      abbrev read_back : Signature → Outcome (Bytes × Table) → Signature
      read_back s (ok (body, headers)) =
          decoded_or s
            (decoded env r broker (record { headers = carried wire headers; body = body }))
      read_back s _ = s

      -- The signature that a consumer decodes from the body and the headers that a signature is
      -- published with, be they raw arguments with headers or JSON.
      unfoldable pub delivered_again : Signature → Signature
      delivered_again s = read_back s (prepare_message_body_and_headers env s)

      delivered_again-cases :
          (s : Signature)
          → (delivered_again s ≡ redelivered s)
            ⊎ ((delivered_again s ≡ json_image reread s) ⊎ (delivered_again s ≡ s))
      unfolding delivered_again prepare_message_body_and_headers has_header
          build_headers_from_signature bytes_to_signature
      delivered_again-cases s = elim (Bool-cases (has_raw_args s.raw_args)) [
        | inl raw ↦ inl (rw raw refl)
        | inr whole ↦ elim (Option-cases (env.marshal s)) [
          | inl failed ↦ inr (inr (rw (whole, failed) refl))
          | inr (body, written) ↦ inr (
              inl (rw (whole, written, bytes_to_signature, (codec s whole).read body written) refl))
        ]
      ]

      pub Trying-delivered_again :
          (c n : ℕ) (s : Signature) → Trying c n s → Trying c n (delivered_again s)
      Trying-delivered_again c n s t = elim (delivered_again-cases s) [
        | inl e ↦ subst (Trying c n) (sym e) (Trying-redelivered c n s t)
        | inr (inl e) ↦ subst (Trying c n) (sym e) (record {
          count = t.count;
          done = t.done;
          small = record {
            retry_count = t.small.retry_count;
            retry_timeout = t.small.retry_timeout;
            wait_time = t.small.wait_time;
            retries_done = t.small.retries_done;
            task_time_out = t.small.task_time_out;
          };
        })
        | inr (inr e) ↦ subst (Trying c n) (sym e) t
      ]

      -- The task has failed, is retried, and is delivered again.
      abbrev pub failed_once : World → World
      failed_once w =
          let v = (retry_task env r broker w).1 in
          record v { signature = delivered_again v.signature }

      unfoldable pub failed_often : ℕ → World → World
      failed_often zero w = w
      failed_often (suc k) w = failed_often k (failed_once w)

      pub failed_once-Trying :
          (c n : ℕ) (w : World)
          → Trying c n w.signature
          → n < c
          → n < 49
          → Trying c (suc n) (failed_once w).signature
      failed_once-Trying c n w t left early = Trying-delivered_again c (suc n) _ (
          Trying-retry c n w t (suc n) (omega arith)
            (retry_task-Rescheduled env r broker w n (Trying-left c n w.signature t left) t.done
              early).counted)

      -- Up to 49 each failure is counted.
      pub failed_often-Trying :
          (c n k : ℕ) (w : World)
          → Trying c n w.signature
          → n + k ≤ c
          → n + k ≤ 49
          → Trying c (n + k) (failed_often k w).signature
      unfolding failed_often
      failed_often-Trying c n zero w t left early =
          subst (λ m. Trying c m w.signature) (omega arith) t
      failed_often-Trying c n (suc k) w t left early =
          subst (λ m. Trying c m (failed_often k (failed_once w)).signature) (omega arith)
            (failed_often-Trying c (suc n) k (failed_once w)
              (failed_once-Trying c n w t (omega arith) (omega arith)) (omega arith) (omega arith))
