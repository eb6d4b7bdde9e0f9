-- ===== src/Registrar/Receiving.antt =====
-- `amqpMsgProcessor`: a delivery from its bytes to its settlement.
use paota.Common.{◌≡◌, ◌≢◌, refl, false, Bool-cases, Option-cases, ◌⊎◌, inl, inr, [], ◌∷◌, ◌++◌}
use paota.Schema.{Bytes, Signature, Error}
use paota.World.{nack, Env, World, Outcome, ok, err, panic, ◌>>=◌}
use paota.Interface.{Broker}
use paota.Registrar.Tasks.{Registrar}
use paota.Registrar.Headers.{has_header, bytes_to_signature}
use paota.Registrar.Process.{Delivery, decoded, process_decoded, process_body, amqp_msg_processor}
use paota.Registrar.Settling.{Handled, reject-settled, reject-sent}
use paota.Registrar.Handling.{is_late, amqp_process_signature-Handled}

module _ (env : Env) (r : Registrar) (broker : Broker) where
  bytes_to_signature-ne-panic : (body : Bytes) → bytes_to_signature env body ≢ panic
  unfolding bytes_to_signature
  bytes_to_signature-ne-panic body = elim (Option-cases (env.unmarshal body)) [
    | inl failed ↦ rw (bytes_to_signature, failed) (λ h. cc)
    | inr (s, read) ↦ rw (bytes_to_signature, read) (λ h. cc)
  ]

  pub decoded-ne-panic : (d : Delivery) → decoded env r broker d ≢ panic
  decoded-ne-panic d = elim (Bool-cases (has_header "task_name" d.headers)) [
    | inl there ↦ rw there (λ h. cc)
    | inr missing ↦ rw missing (bytes_to_signature-ne-panic d.body)
  ]

  pub data Received (d : Delivery) (w : World) (w' : World) : Type 0 where
    unreadable :
        ((d.body ≡ []) ⊎ ((e : Error) × (decoded env r broker d ≡ err e)))
        → w'.settled ≡ w.settled ++ nack false false ∷ []
        → w'.sent ≡ w.sent
        → Received d w w'
    read :
        (s : Signature)
        → d.body ≢ []
        → decoded env r broker d ≡ ok s
        → Handled env r broker (is_late env r broker s w) (record w { signature = s }) w'
        → Received d w w'

  process_decoded-Received :
      (d : Delivery) (w : World) (o : Outcome Signature)
      → d.body ≢ []
      → decoded env r broker d ≡ o
      → Received d w (process_decoded env r broker o w).1
  unfolding ◌>>=◌
  process_decoded-Received d w (ok s) full e =
      read s full e (amqp_process_signature-Handled env r broker (record w { signature = s }))
  process_decoded-Received d w (err f) full e =
      unreadable (inr (f, e)) (reject-settled env r broker f w) (reject-sent env r broker f w)
  process_decoded-Received d w panic full e = absurd (decoded-ne-panic d e)

  process_body-Received :
      (d : Delivery) (w : World) (body : Bytes)
      → d.body ≡ body
      → Received d w (process_body env r broker d body w).1
  process_body-Received d w [] e =
      unreadable (inl e) (reject-settled env r broker _ w) (reject-sent env r broker _ w)
  process_body-Received d w (b ∷ bs) e = process_decoded-Received d w _ (λ h. cc (e, h)) refl

  -- A delivery that is empty or cannot be decoded is rejected, once and with no message confirmed; any
  -- other is handled as the task of its signature, and so settled once too.
  pub amqp_msg_processor-Received :
      (d : Delivery) (w : World) → Received d w (amqp_msg_processor env r broker d w).1
  unfolding amqp_msg_processor
  amqp_msg_processor-Received d w = process_body-Received d w d.body refl
