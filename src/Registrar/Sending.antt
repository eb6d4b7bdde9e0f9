-- ===== src/Registrar/Sending.antt =====
-- What a call of `SendTask` comes to.
use Prim.Native.String.{count, ◌++◌ as str_append}
use text.Mathlib.TextLemmas.{length-append}
use paota.Common.{
  ◌+◌, String, ◌≡◌, ◌≢◌, refl, true, false, sym, ◌∙◌, ap, inl, inr, some, [], ◌∷◌, ◌++◌, arith,
  eq_iff, Bool-cases, Option-cases, str_eq,
}
use paota.Schema.{Time, Signature, Error, publish_message, task_id}
use paota.World.{Sent, Env, World, Outcome, ok, err, panic, ◌>>=◌, caught, on_error, raise}
use paota.Interface.{Broker, IsPublish}
use paota.Registrar.Send.{complete_signature, send_task_with_context, send_task}

-- An identifier has at least the length of its prefix.
task_id-ne-empty : (id : String) → task_id id ≢ ""
task_id-ne-empty id e =
    let size : count (str_append "task_" id) ≡ 0 = ap count e in
    absurd (omega (arith, size, length-append "task_" id))

-- The signature has got an identifier and a time of creation, those it had if any.
pub record Completed (w : World) (r : Outcome (Unit {0})) (w' : World) : Type 0 where
  pub id : String
  pub created : Time
  pub done : r ≡ ok tt
  pub signature_completed :
      w'.signature ≡ record w.signature { uuid = id; created_at = some created }
  pub id_set : id ≢ ""
  pub id_kept : w.signature.uuid ≢ "" → id ≡ w.signature.uuid
  pub created_kept : (t : Time) → w.signature.created_at ≡ some t → created ≡ t
  pub settled_kept : w'.settled ≡ w.settled
  pub sent_kept : w'.sent ≡ w.sent

-- One message more is confirmed on success, none on an error; nothing is settled; and the signature is
-- completed, its routing key filled in if it was empty.
pub record Sends (w : World) (r : Outcome (Unit {0})) (w' : World) : Type 0 where
  pub id : String
  pub created : Time
  pub id_set : id ≢ ""
  pub id_kept : w.signature.uuid ≢ "" → id ≡ w.signature.uuid
  pub created_kept : (t : Time) → w.signature.created_at ≡ some t → created ≡ t
  pub returns : r ≢ panic
  pub settled_kept : w'.settled ≡ w.settled
  pub signature_sent : w'.signature ≡ record w.signature {
    uuid = id;
    created_at = some created;
    routing_key = w'.signature.routing_key;
  }
  pub key_kept : w.signature.routing_key ≢ "" → w'.signature.routing_key ≡ w.signature.routing_key
  pub delivered :
      r ≡ ok tt
      → (m : Sent) × (w'.sent ≡ w.sent ++ m ∷ []) × (m.routing_key ≡ w'.signature.routing_key)
  pub refused : (e : Error) → r ≡ err e → w'.sent ≡ w.sent

module _ (env : Env) (broker : Broker) where
  unnamed-Completed :
      (w : World)
      → str_eq w.signature.uuid "" ≡ true
      → Completed w (complete_signature env broker w).0 (complete_signature env broker w).1
  unfolding complete_signature ◌>>=◌
  unnamed-Completed w empty = elim (Option-cases w.signature.created_at) [
    | inl missing ↦ record {
      id = task_id (env.new_uuid w.calls);
      created = env.now (w.calls + 1);
      done = ground arith;
      signature_completed = ground arith;
      id_set = task_id-ne-empty (env.new_uuid w.calls);
      id_kept = λ h. absurd (h ((eq_iff w.signature.uuid "").0 empty));
      created_kept = λ t h. cc;
      settled_kept = ground arith;
      sent_kept = ground arith;
    }
    | inr (t, stamped) ↦ record {
      id = task_id (env.new_uuid w.calls);
      created = t;
      done = ground arith;
      signature_completed = ground arith;
      id_set = task_id-ne-empty (env.new_uuid w.calls);
      id_kept = λ h. absurd (h ((eq_iff w.signature.uuid "").0 empty));
      created_kept = λ u h. cc;
      settled_kept = ground arith;
      sent_kept = ground arith;
    }
  ]

  named-Completed :
      (w : World)
      → str_eq w.signature.uuid "" ≡ false
      → Completed w (complete_signature env broker w).0 (complete_signature env broker w).1
  unfolding complete_signature ◌>>=◌
  named-Completed w named = elim (Option-cases w.signature.created_at) [
    | inl missing ↦ record {
      id = w.signature.uuid;
      created = env.now w.calls;
      done = ground arith;
      signature_completed = ground arith;
      id_set = λ e. cc (named, (eq_iff w.signature.uuid "").1 e);
      id_kept = λ _. refl;
      created_kept = λ t h. cc;
      settled_kept = ground arith;
      sent_kept = ground arith;
    }
    | inr (t, stamped) ↦ record {
      id = w.signature.uuid;
      created = t;
      done = ground arith;
      signature_completed = ground arith;
      id_set = λ e. cc (named, (eq_iff w.signature.uuid "").1 e);
      id_kept = λ _. refl;
      created_kept = λ u h. cc;
      settled_kept = ground arith;
      sent_kept = ground arith;
    }
  ]

  pub complete_signature-Completed :
      (w : World)
      → Completed w (complete_signature env broker w).0 (complete_signature env broker w).1
  complete_signature-Completed w = elim (Bool-cases (str_eq w.signature.uuid "")) [
    | inl empty ↦ unnamed-Completed w empty
    | inr named ↦ named-Completed w named
  ]

  -- The names of the fields that a publish can change, put back together.
  keyed_signature :
      (s t u : Signature) (id : String) (created : Time)
      → record s { routing_key = t.routing_key } ≡ t
      → t ≡ record u { uuid = id; created_at = some created }
      → s ≡ record u { uuid = id; created_at = some created; routing_key = s.routing_key }
  keyed_signature s t u id created p q = ground arith

  keep_key :
      (u w : World) (r : Outcome (Unit {0})) (w' : World)
      → Completed u (ok tt) w
      → IsPublish w r w'
      → u.signature.routing_key ≢ ""
      → w'.signature.routing_key ≡ u.signature.routing_key
  keep_key u w r w' c p h =
      let k = ap (λ (s : Signature). s.routing_key) c.signature_completed in
      ap (λ (s : Signature). s.routing_key) (p.key_kept (λ e. h (sym k ∙ e))) ∙ k

  wrap-Sends :
      (u w : World) (r : Outcome (Unit {0})) (w' : World)
      → Completed u (ok tt) w
      → IsPublish w r w'
      → r ≢ panic
      → Sends u
          (caught r (λ e. raise (publish_message e)) w').0
          (caught r (λ e. raise (publish_message e)) w').1
  unfolding raise
  wrap-Sends u w panic w' c p n = absurd (n refl)
  wrap-Sends u w (ok x) w' c p n = record {
    id = c.id;
    created = c.created;
    id_set = c.id_set;
    id_kept = c.id_kept;
    created_kept = c.created_kept;
    returns = λ h. cc;
    settled_kept = p.settled_kept ∙ c.settled_kept;
    signature_sent =
        keyed_signature w'.signature w.signature u.signature c.id c.created p.signature_kept
          c.signature_completed;
    key_kept = keep_key u w _ w' c p;
    delivered = λ e.
        let (m, added, key) = p.delivered e in (m, added ∙ ap (λ l. l ++ m ∷ []) c.sent_kept, key);
    refused = λ e h. cc;
  }
  wrap-Sends u w (err e) w' c p n = record {
    id = c.id;
    created = c.created;
    id_set = c.id_set;
    id_kept = c.id_kept;
    created_kept = c.created_kept;
    returns = λ h. cc;
    settled_kept = p.settled_kept ∙ c.settled_kept;
    signature_sent =
        keyed_signature w'.signature w.signature u.signature c.id c.created p.signature_kept
          c.signature_completed;
    key_kept = keep_key u w _ w' c p;
    delivered = λ h. cc;
    refused = λ f h. p.refused e refl ∙ c.sent_kept;
  }

  -- Whatever the broker answers, a task that is sent gets an id and a creation time where they are
  -- missing; exactly one message more is confirmed, under its routing key, if no error comes back, and
  -- none otherwise.
  pub send_task-Sends : (w : World) → Sends w (send_task env broker w).0 (send_task env broker w).1
  unfolding send_task send_task_with_context ◌>>=◌ on_error
  send_task-Sends w =
      let c = complete_signature-Completed w in
      let w₁ = (complete_signature env broker w).1 in
      rw c.done (
        wrap-Sends w w₁ (broker.publish w₁).0 (broker.publish w₁).1 (rw c.done at c)
          (broker.publish_lem w₁) (broker.publish-ne-panic w₁))

  -- Over a broker that takes each publish.
  pub send_task-ok :
      ((w : World) → (broker.publish w).0 ≡ ok tt)
      → (w : World) → (send_task env broker w).0 ≡ ok tt
  unfolding send_task send_task_with_context ◌>>=◌ on_error
  send_task-ok reliable w = rw ((complete_signature-Completed w).done, reliable) refl
