-- ===== src/Examples/Failing.antt =====
-- The life of a failing task at concrete inputs.
use paota.Common.{◌^◌, ◌<◌, ◌≤◌, ◌≡◌, ◌≢◌, refl, true, false, none, [], ◌∷◌, ◌++◌, ℕ, arith}
use paota.Common.Int.{pos}
use paota.Schema.{Signature}
use paota.World.{Env, panic, Sent, World, ok, Exec}
use paota.Interface.{Broker, IsPublish}
use paota.Broker.{has_raw_args, publish}
use paota.Registrar.{retries_exhausted, retry_task}
use paota.Registrar.Lifecycle.{Trying, failed_often}
use paota.Registrar.Json.{IsReadable}
use paota.Registrar.Burial.{keys, failed_task-buried}
use paota.Registrar.Endless.{failed_task-endless}
use paota.Samples.{
  sample_env, sample_registrar, sample_broker, sample_signature, sample_world, world_with,
}
use paota.Examples.Publishing.{widened, widened-IsWire, text-ne-nil}

-- A broker that takes each publish.
abbrev posted : Signature → Sent
posted s = record {
  exchange = "";
  routing_key = s.routing_key;
  message = record {
    content_type = "";
    priority = s.priority;
    body = [];
    delivery_mode = 1;
    headers = [];
    expiration = none;
  };
}

abbrev post : Exec (Unit {0})
post w = (ok tt, record w { sent = w.sent ++ posted w.signature ∷ [] })

pub post-IsPublish : (w : World) → IsPublish w (post w).0 (post w).1
post-IsPublish w = record {
  settled_kept = refl;
  signature_kept = refl;
  key_kept = λ _. refl;
  delivered = λ _. (posted w.signature, refl, refl);
  refused = λ e h. cc;
}

pub post-ne-panic : (w : World) → (post w).0 ≢ panic
post-ne-panic w h = cc

abbrev pub post_office : Broker
post_office = record {
  publish = post;
  publish_lem = post-IsPublish;
  publish-ne-panic = post-ne-panic;
}

-- A task with two retries, and one with sixty.
abbrev new_task : ℕ → Signature
new_task c = record sample_signature { retry_count = pos c; retries_done = pos 0 }

new_task-Trying : (c : ℕ) → c < 2 ^ 31 → Trying c 0 (new_task c)
new_task-Trying c h = record {
  count = refl;
  done = refl;
  small = record {
    retry_count = record { above = h; below = omega arith };
    retry_timeout = record { above = omega arith; below = omega arith };
    wait_time = record { above = omega arith; below = omega arith };
    retries_done = record { above = omega arith; below = omega arith };
    task_time_out = record { above = omega arith; below = omega arith };
  };
}

-- Where no signature can be written as JSON; the task has raw arguments.
abbrev raw_env : Env
raw_env = record sample_env { marshal = λ s. none }

raw_codec : (s : Signature) → has_raw_args s.raw_args ≡ false → IsReadable raw_env (λ a. a) s
raw_codec s whole = record { full = λ e. cc; read = λ body e. absurd (cc) }

failed_task-buried_example :
    (keys
        (retry_task raw_env sample_registrar post_office (
          failed_often raw_env sample_registrar post_office widened widened-IsWire
            (λ a. a)
            raw_codec
            2
            (world_with (new_task 2)))).1
      ≡ "delay_test" ∷ "delay_test" ∷ "failed_test" ∷ [])
    × (retries_exhausted
          (failed_often raw_env sample_registrar post_office widened widened-IsWire
            (λ a. a)
            raw_codec
            2
            (world_with (new_task 2))).signature
        ≡ true)
    × ((k : ℕ)
        → k < 2
        → retries_exhausted
            (failed_often raw_env sample_registrar post_office widened widened-IsWire
              (λ a. a)
              raw_codec
              k
              (world_with (new_task 2))).signature
          ≡ false)
failed_task-buried_example =
    failed_task-buried raw_env sample_registrar post_office (λ w. refl) widened widened-IsWire
      (λ a. a) raw_codec 2 (world_with (new_task 2)) (omega arith) (new_task-Trying 2 (omega arith))
      (text-ne-nil "delay_test" refl) (text-ne-nil "failed_test" refl)

failed_task-endless_example :
    (retries_exhausted
        (failed_often raw_env sample_registrar post_office widened widened-IsWire
          (λ a. a)
          raw_codec
          1000
          (world_with (new_task 60))).signature
      ≡ false)
    × (n : ℕ) × (n ≤ 49)
    × ((failed_often raw_env sample_registrar post_office widened widened-IsWire
          (λ a. a)
          raw_codec
          1000
          (world_with (new_task 60))).signature.retries_done
        ≡ pos n)
failed_task-endless_example =
    failed_task-endless raw_env sample_registrar post_office widened widened-IsWire (λ a. a)
      raw_codec 60 1000 (world_with (new_task 60)) (omega arith) (new_task-Trying 60 (omega arith))

abbrev retried_signature : Signature
retried_signature = (retry_task sample_env sample_registrar sample_broker sample_world).1.signature
