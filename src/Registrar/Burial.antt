-- ===== src/Registrar/Burial.antt =====
-- Where the messages of a task that fails each time go, over a broker that takes each publish.
use mathlib.Core.List.{map-append, append_assoc, append-nil}
use paota.Common.{
  ℕ, zero, suc, ◌+◌, ◌≤◌, ◌<◌, String, ◌≡◌, ◌≢◌, refl, sym, ◌∙◌, ap, inl, inr, true, false,
  Bool-cases, List, [], ◌∷◌, ◌++◌, map, arith, leb, str_eq,
}
use paota.Common.Int.{pos, ltb_ℤ}
use paota.Schema.{Arg, Signature, Value}
use paota.Broker.{has_raw_args}
use paota.World.{Sent, Env, World, Outcome, ok, ◌>>=◌}
use paota.Interface.{Broker}
use paota.Registrar.Tasks.{Registrar}
use paota.Registrar.Retry.{
  get_retry_interval, retries_exhausted, retry_task, push_to_failed_queue, schedule_retry,
}
use paota.Registrar.Sending.{send_task-ok, Sends}
use paota.Registrar.Retries.{
  next_interval, RetryCase, skipped, buried, delayed_again, sent_at_once, retry_task-RetryCase,
}
use paota.Registrar.Progress.{retry_task-Rescheduled}
use paota.Registrar.RoundTrip.{IsWire}
use paota.Registrar.Json.{IsReadable}
use paota.Registrar.Lifecycle.{
  Trying, Trying-left, Trying-exhausted, failed_once, failed_once-Trying, failed_often,
  failed_often-Trying,
}

-- The routing keys of the confirmed messages, in order.
abbrev pub keys : World → List String
keys w = map (λ (m : Sent). m.routing_key) w.sent

abbrev pub times : ℕ → String → List String
times zero key = []
times (suc n) key = key ∷ times n key

leb_self : (c : ℕ) → leb c (0 + c) ≡ true
leb_self c = ground arith

module _ (env : Env) (r : Registrar) (broker : Broker)
    (reliable : (w : World) → (broker.publish w).0 ≡ ok tt) where
  retry_task-ok : (w : World) → (retry_task env r broker w).0 ≡ ok tt
  unfolding retry_task push_to_failed_queue schedule_retry ◌>>=◌ get_retry_interval
  retry_task-ok w = elim (Bool-cases (retries_exhausted w.signature)) [
    | inl over ↦ elim (Bool-cases (str_eq r.amqp.failed_queue "")) [
      | inl missing ↦ rw (over, missing) refl
      | inr there ↦ rw (over, there) (send_task-ok env broker reliable _)
    ]
    | inr left ↦ rw left (elim (Bool-cases (ltb_ℤ (pos 0) (next_interval w.signature))) [
      | inl later ↦ rw later (send_task-ok env broker reliable _)
      | inr now ↦ rw now (send_task-ok env broker reliable _)
    ])
  ]

  Sends-keys :
      (u w' : World) (o : Outcome (Unit {0}))
      → Sends u o w'
      → o ≡ ok tt
      → keys w' ≡ keys u ++ w'.signature.routing_key ∷ []
  Sends-keys u w' o s done =
      let (m, added, key) = s.delivered done in
      ap (map (λ (m : Sent). m.routing_key)) added
      ∙ map-append _ u.sent (m ∷ [])
      ∙ ap (λ k. keys u ++ k ∷ []) key

  retry-keys :
      (w : World)
      → retries_exhausted w.signature ≡ false
      → let w' = (retry_task env r broker w).1 in keys w' ≡ keys w ++ w'.signature.routing_key ∷ []
  retry-keys w left = by_case _ _ (retry_task-RetryCase env r broker w) (retry_task-ok w)
    where
      by_case :
          (o : Outcome (Unit {0})) (w' : World)
          → RetryCase env r broker w o w'
          → o ≡ ok tt
          → keys w' ≡ keys w ++ w'.signature.routing_key ∷ []
      by_case o w' (skipped over a b c) done = absurd (cc)
      by_case o w' (buried over a b) done = absurd (cc)
      by_case o w' (delayed_again a later s) done = Sends-keys _ w' o s done
      by_case o w' (sent_at_once a now s) done = Sends-keys _ w' o s done

  bury-keys :
      (w : World)
      → retries_exhausted w.signature ≡ true
      → r.amqp.failed_queue ≢ ""
      → keys (retry_task env r broker w).1 ≡ keys w ++ r.amqp.failed_queue ∷ []
  bury-keys w over there = by_case _ _ (retry_task-RetryCase env r broker w) (retry_task-ok w)
    where
      by_case :
          (o : Outcome (Unit {0})) (w' : World)
          → RetryCase env r broker w o w'
          → o ≡ ok tt
          → keys w' ≡ keys w ++ r.amqp.failed_queue ∷ []
      by_case o w' (skipped _ a b c) done = absurd (there a)
      by_case o w' (buried _ a s) done =
          Sends-keys _ w' o s done ∙ ap (λ k. keys w ++ k ∷ []) (s.key_kept there)
      by_case o w' (delayed_again a later s) done = absurd (cc)
      by_case o w' (sent_at_once a now s) done = absurd (cc)

  module _ (wire : Value → Value) (lossless : IsWire wire) (reread : List Arg → List Arg)
      (codec : (s : Signature) → has_raw_args s.raw_args ≡ false → IsReadable env reread s) where
    failed_often-keys :
        (c n k : ℕ) (w : World)
        → r.amqp.delayed_queue ≢ ""
        → Trying c n w.signature
        → n + k ≤ c
        → n + k ≤ 49
        → keys (failed_often env r broker wire lossless reread codec k w)
          ≡ keys w ++ times k r.amqp.delayed_queue
    unfolding failed_often
    failed_often-keys c n zero w there t left early = sym (append-nil (keys w))
    failed_often-keys c n (suc k) w there t left early =
        let not_over = Trying-left env r broker c n w.signature t (omega arith) in
        let key =
          (retry_task-Rescheduled env r broker w n not_over t.done (omega arith)).keyed there in
        failed_often-keys c (suc n) k (failed_once env r broker wire lossless reread codec w) there
          (failed_once-Trying env r broker wire lossless reread codec c n w t (omega arith)
            (omega arith))
          (omega arith) (omega arith)
        ∙ ap (λ l. l ++ times k r.amqp.delayed_queue)
            (retry-keys w not_over ∙ ap (λ q. keys w ++ q ∷ []) key)
        ∙ append_assoc (keys w) (r.amqp.delayed_queue ∷ []) (times k r.amqp.delayed_queue)

    -- Over a broker that takes each publish, a task that fails each time, with up to 49 retries, none done
    -- yet, and its numbers within 32 bits, is delivered once more for each retry, over the delayed queue,
    -- and then goes to the failed queue: its retries are exhausted after the last of them and not before.
    -- It is read again from its headers or, without raw arguments, from its JSON, which is to be read
    -- as it was written.
    pub failed_task-buried :
        (c : ℕ) (w : World)
        → c ≤ 49
        → Trying c 0 w.signature
        → r.amqp.delayed_queue ≢ ""
        → r.amqp.failed_queue ≢ ""
        → (keys
              (retry_task env r broker (failed_often env r broker wire lossless reread codec c w)).1
            ≡ keys w ++ (times c r.amqp.delayed_queue ++ r.amqp.failed_queue ∷ []))
          × (retries_exhausted (failed_often env r broker wire lossless reread codec c w).signature
              ≡ true)
          × ((k : ℕ)
              → k < c
              → retries_exhausted
                  (failed_often env r broker wire lossless reread codec k w).signature
                ≡ false)
    failed_task-buried c w few t delay there =
        let v = failed_often env r broker wire lossless reread codec c w in
        let end =
          failed_often-Trying env r broker wire lossless reread codec c 0 c w t (omega arith)
            (omega arith) in
        let over = Trying-exhausted env r broker c (0 + c) v.signature end ∙ leb_self c in
        (
          bury-keys v over there
              ∙ ap (λ l. l ++ r.amqp.failed_queue ∷ [])
                  (failed_often-keys c 0 c w delay t (omega arith) (omega arith))
              ∙ append_assoc (keys w) (times c r.amqp.delayed_queue) (r.amqp.failed_queue ∷ []),
          over,
          λ k h.
              Trying-left env r broker c (0 + k) _
                (failed_often-Trying env r broker wire lossless reread codec c 0 k w t (omega arith)
                  (omega arith))
                (omega arith),
        )
