-- ===== src/Registrar/Transport.antt =====
-- A task on its way from the client that sends it to the worker that handles it, over the AMQP broker, in
-- either form of a message: raw arguments with headers, or the signature as JSON.
use paota.Common.{
  ◌≡◌, ◌≢◌, refl, sym, ◌∙◌, ap, subst, Bool-cases, inl, inr, true, false, Option-cases, some, List,
  [], ◌∷◌, ◌++◌, ◌⊎◌, if◌then◌else◌,
}
use paota.Common.Int.{pos, ◌≤ℤ◌}
use paota.Schema.{Arg, Bytes, Signature, Value, json_marshal, external}
use paota.World.{Sent, Env, World, Outcome, ok, ◌>>=◌}
use paota.Broker.{
  AmqpBroker, publish, has_raw_args, null_bytes, build_headers_from_signature,
  prepare_message_body_and_headers,
}
use paota.Broker.Contract.{amqp_broker, publish_lem, publish_unprepared, message_of, task_ttl}
use paota.Broker.Expiry.{publish_raw}
use paota.Registrar.Tasks.{Registrar}
use paota.Registrar.Headers.{has_header, bytes_to_signature}
use paota.Registrar.Send.{complete_signature, send_task}
use paota.Registrar.Process.{
  Delivery, delivery, decoded, processor, process_body, amqp_msg_processor, amqp_process_signature,
}
use paota.Registrar.Sending.{complete_signature-Completed}
use paota.Registrar.RoundTrip.{IsWire, IsSmall, whole_seconds, signature_from-build_headers}
use paota.Registrar.Lifecycle.{redelivered}
use paota.Registrar.Published.{send_task-publish}
use paota.Registrar.Json.{json_image, IsReadable}
use paota.Registrar.Redelivery.{arrived}

-- What a worker gets of the signature that was sent, whichever form the message has.
pub record Preserved (s t : Signature) : Type 0 where
  pub uuid : t.uuid ≡ s.uuid
  pub name : t.name ≡ s.name
  pub retry_count : t.retry_count ≡ s.retry_count
  pub retry_timeout : t.retry_timeout ≡ s.retry_timeout
  pub wait_time : t.wait_time ≡ s.wait_time
  pub retries_done : t.retries_done ≡ s.retries_done
  pub task_time_out : t.task_time_out ≡ s.task_time_out
  pub ignored : t.ignore_when_task_not_registered ≡ s.ignore_when_task_not_registered
  pub raw : has_raw_args t.raw_args ≡ has_raw_args s.raw_args
  pub created_at : (t.created_at ≡ s.created_at) ⊎ (t.created_at ≡ whole_seconds s.created_at)
  pub eta : (t.eta ≡ s.eta) ⊎ (t.eta ≡ whole_seconds s.eta)

null-raw : has_raw_args null_bytes ≡ false
unfolding has_raw_args
null-raw = refl

module _ (env : Env) (r : Registrar) (b : AmqpBroker) (size : pos 1 ≤ℤ b.amqp.connection_pool_size)
    (wire : Value → Value) (lossless : IsWire wire) (reread : List Arg → List Arg) where
  -- The signature under which a worker handles what was sent as `s`.
  abbrev pub as_read : Signature → Signature
  as_read s =
      if has_raw_args s.raw_args
      then redelivered env r (amqp_broker env b size) wire lossless s
      else json_image reread s

  as_read-Preserved : (s : Signature) → IsSmall s → Preserved s (as_read s)
  as_read-Preserved s small = elim (Bool-cases (has_raw_args s.raw_args)) [
    | inl raw ↦
        rw (raw, signature_from-build_headers env.floats wire lossless s small)
          (record {
            uuid = refl;
            name = refl;
            retry_count = refl;
            retry_timeout = refl;
            wait_time = refl;
            retries_done = refl;
            task_time_out = refl;
            ignored = refl;
            raw = refl;
            created_at = inr refl;
            eta = inr refl;
          })
    | inr whole ↦ rw whole (record {
      uuid = refl;
      name = refl;
      retry_count = refl;
      retry_timeout = refl;
      wait_time = refl;
      retries_done = refl;
      task_time_out = refl;
      ignored = refl;
      raw = null-raw ∙ sym whole;
      created_at = inl refl;
      eta = inl refl;
    })
  ]

  -- One confirmed message more, which a worker can read.
  abbrev Arrives : World → World → Signature → Type 0
  Arrives w w' s =
      (m : Sent) × (w'.sent ≡ w.sent ++ m ∷ [])
      × (m.message.body ≢ [])
      × (decoded env r (amqp_broker env b size) (arrived env r b size wire lossless m)
          ≡ ok (as_read s))

  raw-ne-nil : (raw : Bytes) → has_raw_args raw ≡ true → raw ≢ []
  unfolding has_raw_args
  raw-ne-nil [] h = absurd (cc)
  raw-ne-nil (x ∷ xs) h = λ e. cc

  publish-Arrives :
      (w : World)
      → (has_raw_args w.signature.raw_args ≡ false → IsReadable env reread w.signature)
      → (publish env b w).0 ≡ ok tt
      → Arrives w (publish env b w).1 w.signature
  unfolding has_header build_headers_from_signature prepare_message_body_and_headers
      bytes_to_signature
  publish-Arrives w codec done = elim (Bool-cases (has_raw_args w.signature.raw_args)) [
    | inl raw ↦
        let (m, added, body, headers) = publish_raw env b w raw done in
        (
          m,
          added,
          λ e. raw-ne-nil w.signature.raw_args raw (sym body ∙ e),
          rw (raw, body, headers) refl,
        )
    | inr whole ↦ elim (Option-cases (env.marshal w.signature)) [
      | inl failed ↦ absurd (
          cc (
            done,
            publish_unprepared env b (json_marshal (external "json.Marshal")) w
                (rw (whole, failed) refl),
          ))
      | inr (body, written) ↦ (
        message_of env b w.signature (body, []) (task_ttl w.signature (env.now w.calls)),
        (publish_lem env b (body, []) w (rw (whole, written) refl)).delivered done,
        λ e. (codec whole).full (written ∙ ap some e),
        rw (whole, bytes_to_signature, (codec whole).read body written) refl,
      )
    ]
  ]

  processor-decoded :
      (d : Delivery) (s : Signature) (body : Bytes) (v : World)
      → body ≢ []
      → decoded env r (amqp_broker env b size) d ≡ ok s
      → process_body env r (amqp_broker env b size) d body v
        ≡ amqp_process_signature env r (amqp_broker env b size) (record v { signature = s })
  unfolding ◌>>=◌
  processor-decoded d s [] v full e = absurd (full refl)
  processor-decoded d s (x ∷ xs) v full e = rw e refl

  -- A task that a client has sent with success is one confirmed message. The worker that gets it handles it as a
  -- task of a signature that agrees with the one that the send completed in the identifier, the name
  -- and the retries, with its times in whole seconds at worst, if its numbers are within 32 bits and a
  -- signature with no raw arguments is read from its JSON as it was written.
  pub send_task-processor :
      (w : World)
      → let broker = amqp_broker env b size in
        let s = (complete_signature env broker w).1.signature in
        IsSmall w.signature
        → (has_raw_args s.raw_args ≡ false → IsReadable env reread s)
        → (send_task env broker w).0 ≡ ok tt
        → (m : Sent) × ((send_task env broker w).1.sent ≡ w.sent ++ m ∷ [])
          × (t : Signature) × Preserved s t
          × ((v : World)
              → processor env r broker (delivery (arrived env r b size wire lossless m)) v
                ≡ amqp_process_signature env r broker (record v { signature = t }))
  unfolding processor amqp_msg_processor
  send_task-processor w small codec done =
      let broker = amqp_broker env b size in
      let c = complete_signature-Completed env broker w in
      let w₁ = (complete_signature env broker w).1 in
      let (published, same) = send_task-publish env b size w done in
      let (m, added, full, read) = publish-Arrives w₁ codec published in
      let fits : IsSmall w₁.signature = subst IsSmall (sym c.signature_completed) (record {
        retry_count = small.retry_count;
        retry_timeout = small.retry_timeout;
        wait_time = small.wait_time;
        retries_done = small.retries_done;
        task_time_out = small.task_time_out;
      }) in
      (
        m,
        ap (λ (x : Outcome (Unit {0}) × World). x.1.sent) same
            ∙ added
            ∙ ap (λ l. l ++ m ∷ []) c.sent_kept,
        as_read w₁.signature,
        as_read-Preserved w₁.signature fits,
        λ v.
            processor-decoded (arrived env r b size wire lossless m) (as_read w₁.signature)
              m.message.body v full read,
      )
