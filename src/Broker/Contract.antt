-- ===== src/Broker/Contract.antt =====
-- What a call of `Publish` comes to: which message, under which key, and the laws of `Interface.antt`.
use paota.Common.{
  String, ◌≡◌, ◌≢◌, refl, sym, ◌∙◌, ap, subst, ◌⊎◌, inl, inr, none, some, [], ◌∷◌, ◌++◌, str_eq,
  eq_iff, if◌then◌else◌, Bool-cases, Option-cases, arith,
}
use paota.Common.Int.{ℤ, pos, ◌≤ℤ◌, ltb_ℤ}
use paota.Schema.{Bytes, Time, Signature, Error, json_marshal, external}
use paota.Schema.Times.{after, time_sub, to_milliseconds}
use paota.Config.{Table}
use paota.World.{gets, Sent, Env, World, Outcome, ok, err, panic, ◌>>=◌}
use paota.World.Frame.{IsFrame, Keeps}
use paota.Provider.Delivery.{IsDelivery, amqp_publish_with_confirm-IsDelivery}
use paota.Interface.{IsPublish, Broker}
use paota.World.Total.{Total, Total-bind, Total-gets, total_rules}
use paota.Provider.Total.{amqp_publish_with_confirm-Total}
use paota.Broker.Defs.{AmqpBroker, get_routing_key}
use paota.Broker.Message.{
  prepare_message_body_and_headers, get_task_ttl, has_raw_args, build_headers_from_signature,
  is_hurried,
}
use paota.Broker.Publish.{
  publish, publish_parts, publish_keyed, default_routing_key, persistent, expiration_of,
}

-- The delay at the time that the clock shows.
abbrev pub task_ttl : Signature → Time → ℤ
task_ttl sig now = elim sig.eta [
  | none ↦ pos 0
  | some eta ↦
      if is_hurried sig
      then pos 5
      else if after eta now
      then to_milliseconds (time_sub eta now)
      else pos 0
]

module _ (env : Env) (b : AmqpBroker) where
  -- The key that a message leaves under.
  abbrev pub published_key : ℤ → String → String
  published_key delay key =
      if ltb_ℤ (pos 0) delay then key else if str_eq key "" then get_routing_key b else key

  abbrev pub message_of : Signature → Bytes × Table → ℤ → Sent
  message_of sig parts delay = record {
    exchange = b.amqp.exchange;
    routing_key = published_key delay sig.routing_key;
    message = record {
      content_type = "application/json";
      priority = sig.priority;
      body = parts.0;
      delivery_mode = persistent;
      headers = parts.1;
      expiration = expiration_of delay;
    };
  }

  get_task_ttl-Keeps : (sig : Signature) → Keeps (get_task_ttl env sig)
  unfolding get_task_ttl ◌>>=◌
  get_task_ttl-Keeps sig = record {
    at = λ w. record {
      signature_kept = ground arith;
      settled_kept = ground arith;
      sent_kept = ground arith;
      declared_kept = ground arith;
    };
  }

  pub get_task_ttl_lem :
      (sig : Signature) (w : World)
      → (get_task_ttl env sig w).0 ≡ ok (task_ttl sig (env.now w.calls))
  unfolding get_task_ttl ◌>>=◌
  get_task_ttl_lem sig w = ground arith

  -- The signature once the key is there.
  abbrev pub keyed : ℤ → Signature → Signature
  keyed delay sig = record sig { routing_key = published_key delay sig.routing_key }

  default_routing_key_lem :
      (delay : ℤ) (w : World)
      → default_routing_key env b delay w.signature w
        ≡ (ok tt, record w { signature = keyed delay w.signature })
  unfolding ◌>>=◌
  default_routing_key_lem delay w = ground arith

  -- A publish whose preparation gave `parts`, at the world `w`.
  pub record Published (w : World) (parts : Bytes × Table) (r : Outcome (Unit {0})) (w' : World)
      : Type 0 where
    pub signature_keyed : w'.signature ≡ keyed (task_ttl w.signature (env.now w.calls)) w.signature
    pub settled_kept : w'.settled ≡ w.settled
    pub delivered :
        r ≡ ok tt
        → w'.sent
          ≡ w.sent ++ message_of w.signature parts (task_ttl w.signature (env.now w.calls)) ∷ []
    pub refused : r ≢ ok tt → w'.sent ≡ w.sent

  publish_keyed-IsDelivery :
      (delay : ℤ) (parts : Bytes × Table) (w : World)
      → IsDelivery
          (message_of w.signature parts delay)
          (record w { signature = keyed delay w.signature })
          (publish_keyed env b w.signature parts delay w).0
          (publish_keyed env b w.signature parts delay w).1
  unfolding publish_keyed ◌>>=◌
  publish_keyed-IsDelivery delay parts w = rw (default_routing_key_lem delay w) (
      amqp_publish_with_confirm-IsDelivery env (some b.amqp)
        (published_key delay w.signature.routing_key) _ b.amqp.exchange
        (record w { signature = keyed delay w.signature }))

  publish_parts-Published :
      (parts : Bytes × Table) (w : World)
      → Published w parts
          (publish_parts env b w.signature parts w).0
          (publish_parts env b w.signature parts w).1
  unfolding publish_parts ◌>>=◌
  publish_parts-Published parts w =
      rw (get_task_ttl_lem w.signature w)
        (from_delivery (get_task_ttl env w.signature w).1 ((get_task_ttl-Keeps w.signature).at w))
    where
      from_delivery :
          (w1 : World)
          → IsFrame w w1
          → let d = task_ttl w.signature (env.now w.calls) in
            Published w parts
              (publish_keyed env b w.signature parts d w1).0
              (publish_keyed env b w.signature parts d w1).1
      from_delivery w1 k =
          let d = task_ttl w.signature (env.now w.calls) in
          let p =
            subst
              (λ s.
                IsDelivery (message_of s parts d) (record w1 { signature = keyed d w1.signature })
                  (publish_keyed env b s parts d w1).0 (publish_keyed env b s parts d w1).1)
              k.signature_kept (publish_keyed-IsDelivery d parts w1) in
          record {
            signature_keyed = p.signature_kept ∙ ap (keyed d) k.signature_kept;
            settled_kept = p.settled_kept ∙ k.settled_kept;
            delivered =
                λ e. p.delivered e ∙ ap (λ l. l ++ message_of w.signature parts d ∷ []) k.sent_kept;
            refused = λ e. p.refused e ∙ k.sent_kept;
          }

  -- Once the body and the headers are prepared, the server has confirmed exactly the message made of
  -- them when `Publish` succeeds and none when it fails, nothing is settled, and the key stands in the
  -- signature.
  pub publish_lem :
      (parts : Bytes × Table) (w : World)
      → prepare_message_body_and_headers env w.signature ≡ ok parts
      → Published w parts (publish env b w).0 (publish env b w).1
  unfolding publish ◌>>=◌
  publish_lem parts w e = rw e (publish_parts-Published parts w)

  pub publish_unprepared :
      (f : Error) (w : World)
      → prepare_message_body_and_headers env w.signature ≡ err f
      → publish env b w ≡ (err f, w)
  unfolding publish ◌>>=◌
  publish_unprepared f w e = rw e

  pub Prepared-cases :
      (sig : Signature)
      → ((f : Error) × (prepare_message_body_and_headers env sig ≡ err f))
        ⊎ ((parts : Bytes × Table) × (prepare_message_body_and_headers env sig ≡ ok parts))
  unfolding prepare_message_body_and_headers
  Prepared-cases sig = elim (Bool-cases (has_raw_args sig.raw_args)) [
    | inl raw ↦ inr ((sig.raw_args, build_headers_from_signature sig), rw raw)
    | inr whole ↦ elim (Option-cases (env.marshal sig)) [
      | inl failed ↦ inl (json_marshal (external "json.Marshal"), rw (whole, failed))
      | inr (body, done) ↦ inr ((body, []), rw (whole, done))
    ]
  ]

  published_key_kept : (delay : ℤ) (key : String) → key ≢ "" → published_key delay key ≡ key
  published_key_kept delay key h = ground (arith, eq_iff key "")

  unprepared-IsPublish : (f : Error) (w : World) → IsPublish w (err f) w
  unprepared-IsPublish f w = record {
    settled_kept = refl;
    signature_kept = refl;
    key_kept = λ _. refl;
    delivered = λ e. cc;
    refused = λ _ _. refl;
  }

  prepared-IsPublish :
      (w : World) (parts : Bytes × Table) {r : Outcome (Unit {0})} {w' : World}
      → Published w parts r w'
      → IsPublish w r w'
  prepared-IsPublish w parts p = record {
    settled_kept = p.settled_kept;
    signature_kept =
        ap {A = Signature} {B = Signature} (λ s. record s { routing_key = w.signature.routing_key })
          p.signature_keyed;
    key_kept = λ h.
        p.signature_keyed
        ∙ ap {B = Signature} (λ k. record w.signature { routing_key = k })
            (published_key_kept (task_ttl w.signature (env.now w.calls)) w.signature.routing_key h);
    delivered = λ e. (
      message_of w.signature parts (task_ttl w.signature (env.now w.calls)),
      p.delivered e,
      sym (ap (λ s. s.routing_key) p.signature_keyed),
    );
    refused = λ f e. p.refused (λ h. cc);
  }

  -- Whatever the server and the clock answer, `Publish` keeps the promises of the broker interface:
  -- one confirmed message more on success, under the routing key of the signature, no confirmed
  -- message more on an error, no delivery settled, and no field of the signature changed but an empty
  -- routing key.
  pub publish-IsPublish : (w : World) → IsPublish w (publish env b w).0 (publish env b w).1
  publish-IsPublish w = elim (Prepared-cases w.signature) [
    | inl (f, e) ↦ rw (publish_unprepared f w e) (unprepared-IsPublish f w)
    | inr (parts, e) ↦ prepared-IsPublish w parts (publish_lem parts w e)
  ]

  get_task_ttl-Total : (sig : Signature) → Total (get_task_ttl env sig)
  get_task_ttl-Total sig = record { at = λ w. rw (get_task_ttl_lem sig w) (λ h. cc) }

  publish_keyed-Total :
      pos 1 ≤ℤ b.amqp.connection_pool_size
      → (sig : Signature) (parts : Bytes × Table) (delay : ℤ)
      → Total (publish_keyed env b sig parts delay)
  unfolding publish_keyed
  publish_keyed-Total size sig parts delay =
      Total-bind (default_routing_key env b delay sig) _ (search total_rules depth 9) λ _.
        Total-bind (gets (λ w. w.signature.routing_key)) _ (Total-gets _)
          λ key. amqp_publish_with_confirm-Total env b.amqp key _ b.amqp.exchange size

  publish_parts-Total :
      pos 1 ≤ℤ b.amqp.connection_pool_size
      → (sig : Signature) (parts : Bytes × Table) → Total (publish_parts env b sig parts)
  unfolding publish_parts
  publish_parts-Total size sig parts =
      Total-bind (get_task_ttl env sig) _ (get_task_ttl-Total sig)
        (λ delay. publish_keyed-Total size sig parts delay)

  pub publish-ne-panic :
      pos 1 ≤ℤ b.amqp.connection_pool_size → (w : World) → (publish env b w).0 ≢ panic
  unfolding publish ◌>>=◌
  publish-ne-panic size w = elim (Prepared-cases w.signature) [
    | inl (f, e) ↦ rw e (λ h. cc)
    | inr (parts, e) ↦ rw e ((publish_parts-Total size w.signature parts).at w)
  ]

-- The AMQP broker as the registrar sees it.
abbrev pub amqp_broker :
    (env : Env) (b : AmqpBroker) → pos 1 ≤ℤ b.amqp.connection_pool_size → Broker
amqp_broker env b size = record {
  publish = publish env b;
  publish_lem = publish-IsPublish env b;
  publish-ne-panic = publish-ne-panic env b size;
}
