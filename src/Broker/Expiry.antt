-- ===== src/Broker/Expiry.antt =====
-- The time to live and the routing key of a published task.
use paota.Common.{◌≡◌, refl, subst, inl, inr, true, false, some, [], ◌∷◌, ◌++◌, arith}
use paota.Common.Int.{pos, ltb_ℤ}
use paota.Schema.{Bytes, Time, Signature}
use paota.Config.{Table}
use paota.World.{Sent, Env, World, ok}
use paota.Broker.Defs.{AmqpBroker, get_routing_key}
use paota.Broker.Message.{
  prepare_message_body_and_headers, is_hurried, has_raw_args, build_headers_from_signature,
}
use paota.Broker.Publish.{publish}
use paota.Broker.Contract.{task_ttl, message_of, publish_lem, publish_unprepared, Prepared-cases}

task_ttl_hurried :
    (s : Signature) (t now : Time) → s.eta ≡ some t → is_hurried s ≡ true → task_ttl s now ≡ pos 5
task_ttl_hurried s t now due hurried = ground arith

module _ (env : Env) (b : AmqpBroker) where
  -- The message of a publish that has succeeded.
  pub record Outgoing (w : World) (w' : World) : Type 0 where
    pub parts : Bytes × Table
    pub prepared : prepare_message_body_and_headers env w.signature ≡ ok parts
    pub added :
        w'.sent
        ≡ w.sent ++ message_of env b w.signature parts (task_ttl w.signature (env.now w.calls)) ∷ []

  pub publish-Outgoing : (w : World) → (publish env b w).0 ≡ ok tt → Outgoing w (publish env b w).1
  publish-Outgoing w done = elim (Prepared-cases env b w.signature) [
    | inl (f, e) ↦ absurd (cc (done, publish_unprepared env b f w e))
    | inr (parts, e) ↦ record {
      parts = parts;
      prepared = e;
      added = (publish_lem env b parts w e).delivered done;
    }
  ]

  -- A task with raw arguments is published as those bytes, its metadata in the headers.
  pub publish_raw :
      (w : World)
      → has_raw_args w.signature.raw_args ≡ true
      → (publish env b w).0 ≡ ok tt
      → (m : Sent) × ((publish env b w).1.sent ≡ w.sent ++ m ∷ [])
        × (m.message.body ≡ w.signature.raw_args)
        × (m.message.headers ≡ build_headers_from_signature w.signature)
  unfolding prepare_message_body_and_headers
  publish_raw w raw done =
      let parts : Bytes × Table =
        (w.signature.raw_args, build_headers_from_signature w.signature) in
      (
        message_of env b w.signature parts (task_ttl w.signature (env.now w.calls)),
        (publish_lem env b parts w (rw raw)).delivered done,
        refl,
        refl,
      )

  -- A task with an ETA, a priority above one, a timeout and a time of creation is published with
  -- five milliseconds to live, whichever queue its key names.
  pub publish_hurried :
      (w : World) (t : Time)
      → w.signature.eta ≡ some t
      → is_hurried w.signature ≡ true
      → (publish env b w).0 ≡ ok tt
      → (m : Sent) × ((publish env b w).1.sent ≡ w.sent ++ m ∷ [])
        × (m.message.expiration ≡ some (pos 5))
        × (m.routing_key ≡ w.signature.routing_key)
  publish_hurried w t due hurried done =
      let p = publish-Outgoing w done in
      let ttl = task_ttl_hurried w.signature t (env.now w.calls) due hurried in
      (
        message_of env b w.signature p.parts (pos 5),
        subst
            (λ d. (publish env b w).1.sent ≡ w.sent ++ message_of env b w.signature p.parts d ∷ [])
            ttl p.added,
        refl,
        refl,
      )

  -- A scheduled task with an empty routing key is published under the empty key: the default key is
  -- filled in only when there is no delay.
  pub publish_scheduled-key :
      (w : World)
      → w.signature.routing_key ≡ ""
      → ltb_ℤ (pos 0) (task_ttl w.signature (env.now w.calls)) ≡ true
      → (publish env b w).0 ≡ ok tt
      → (m : Sent) × ((publish env b w).1.sent ≡ w.sent ++ m ∷ []) × (m.routing_key ≡ "")
  publish_scheduled-key w unset later done =
      let p = publish-Outgoing w done in
      (
        message_of env b w.signature p.parts (task_ttl w.signature (env.now w.calls)),
        p.added,
        rw later unset,
      )

  -- A task with no delay and no key goes out under the default key.
  pub publish_default-key :
      (w : World)
      → w.signature.routing_key ≡ ""
      → ltb_ℤ (pos 0) (task_ttl w.signature (env.now w.calls)) ≡ false
      → (publish env b w).0 ≡ ok tt
      → (m : Sent) × ((publish env b w).1.sent ≡ w.sent ++ m ∷ [])
        × (m.routing_key ≡ get_routing_key b)
  publish_default-key w unset now done =
      let p = publish-Outgoing w done in
      (
        message_of env b w.signature p.parts (task_ttl w.signature (env.now w.calls)),
        p.added,
        rw (now, unset),
      )
