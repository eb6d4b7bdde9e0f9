-- ===== src/Registrar/Settling.antt =====
-- Ways to pass a task on, and how the delivery is answered after each.
use paota.Common.{
  Bool, String, subst, ◌≡◌, ◌≢◌, refl, ◌∙◌, ap, inl, inr, true, false, Option, none, some, [], ◌∷◌,
  ◌++◌, arith, eq_iff, Bool-cases, str_eq,
}
use paota.Schema.{Signature, Error}
use paota.World.{
  Sent, Settlement, ack, nack, Env, World, Outcome, ok, err, panic, Exec, ◌>>=◌, attempted,
  continue, ignore, on_error,
}
use paota.Interface.{Broker}
use paota.Common.Int.{ℤ, ltb_ℤ}
use paota.Registrar.Tasks.{
  Registrar, Task, TaskFunc, Finish, panicked, running, takes, returned, get_registered_task,
}
use paota.Registrar.Retry.{retry_task, push_to_timeout_amqp_queue}
use paota.Registrar.Process.{
  as_task_func, settle, reject, settle_retry, retry_and_settle, settle_quietly, expire,
}
use paota.Registrar.Sending.{Sends, send_task-Sends}
use paota.Registrar.Retries.{
  RetryCase, skipped, buried, delayed_again, sent_at_once, retry_task-RetryCase,
}

-- A call returns with no error before the limit of the handler is over.
pub data Completes (limit : ℤ) : Finish → Type 0 where
  at_once : Completes limit (returned none)
  in_time :
      (seconds : ℤ) (end : Finish)
      → ltb_ℤ limit seconds ≡ false
      → Completes limit end
      → Completes limit (takes seconds end)

pub returned_error : (limit : ℤ) (e : Error) → Completes limit (returned (some e)) → ⊥
returned_error limit e c = elim c [ ]

pub panicked_call : (limit : ℤ) → Completes limit panicked → ⊥
panicked_call limit c = elim c [ ]

pub endless_call : (limit : ℤ) → Completes limit running → ⊥
endless_call limit c = elim c [ ]

pub in_time-end :
    (limit seconds : ℤ) (end : Finish)
    → Completes limit (takes seconds end)
    → (ltb_ℤ limit seconds ≡ false) × Completes limit end
in_time-end limit seconds end (in_time _ _ e c) = (e, c)

-- An attempt to pass a task on: one confirmed message more, or none with an error, or none since no queue is
-- configured for it (`Missing`).
pub data Handover (Missing : Type 0) (w : World) (o : Outcome (Unit {0})) (w' : World)
    : Type 0 where
  moved :
      (m : Sent)
      → o ≡ ok tt
      → w'.sent ≡ w.sent ++ m ∷ []
      → w'.settled ≡ w.settled
      → Handover Missing w o w'
  failed :
      (e : Error) → o ≡ err e → w'.sent ≡ w.sent → w'.settled ≡ w.settled → Handover Missing w o w'
  unwanted :
      Missing → o ≡ ok tt → w'.sent ≡ w.sent → w'.settled ≡ w.settled → Handover Missing w o w'

Sends-Handover :
    (Missing : Type 0) (w w₁ : World) (o : Outcome (Unit {0})) (w' : World)
    → w₁.sent ≡ w.sent
    → w₁.settled ≡ w.settled
    → Sends w₁ o w'
    → Handover Missing w o w'
Sends-Handover Missing w w₁ (ok x) w' p q s =
    let (m, added, _) = s.delivered refl in
    moved m refl (added ∙ ap (λ l. l ++ m ∷ []) p) (s.settled_kept ∙ q)
Sends-Handover Missing w w₁ (err e) w' p q s =
    failed e refl (s.refused e refl ∙ p) (s.settled_kept ∙ q)
Sends-Handover Missing w w₁ panic w' p q s = absurd (s.returns refl)

-- What is handed over does not depend on the signature.
forget-signature :
    {Missing : Type 0} (w : World) (s : Signature) {o : Outcome (Unit {0})} {w' : World}
    → Handover Missing (record w { signature = s }) o w'
    → Handover Missing w o w'
forget-signature w s (moved m a b c) = moved m a b c
forget-signature w s (failed e a b c) = failed e a b c
forget-signature w s (unwanted a b c d) = unwanted a b c d

pub by-Handover :
    {Missing : Type 0} {w : World} {o : Outcome (Unit {0})} {w' : World}
    → Handover Missing w o w'
    → o ≢ panic
by-Handover {o = ok x} h = λ p. cc
by-Handover {o = err e} h = λ p. cc
by-Handover {o = panic} (moved m a b c) = λ p. cc
by-Handover {o = panic} (failed e a b c) = λ p. cc
by-Handover {o = panic} (unwanted a b c d) = λ p. cc

module _ (env : Env) (r : Registrar) (broker : Broker) where
  pub retry_task-Handover :
      (w : World)
      → Handover
          (r.amqp.failed_queue ≡ "")
          w
          (retry_task env r broker w).0
          (retry_task env r broker w).1
  retry_task-Handover w = by_case (retry_task-RetryCase env r broker w)
    where
      by_case :
          {o : Outcome (Unit {0})} {w' : World}
          → RetryCase env r broker w o w'
          → Handover (r.amqp.failed_queue ≡ "") w o w'
      by_case (skipped over none_set done same) =
          unwanted none_set done (ap (λ (v : World). v.sent) same)
            (ap (λ (v : World). v.settled) same)
      by_case (buried over there s) = Sends-Handover _ w _ _ _ refl refl s
      by_case (delayed_again left later s) = Sends-Handover _ w _ _ _ refl refl s
      by_case (sent_at_once left now s) = Sends-Handover _ w _ _ _ refl refl s

  pub push_to_timeout-Handover :
      (w : World)
      → Handover
          (r.amqp.timeout_queue ≡ "")
          w
          (push_to_timeout_amqp_queue env r broker w).0
          (push_to_timeout_amqp_queue env r broker w).1
  unfolding push_to_timeout_amqp_queue ◌>>=◌
  push_to_timeout-Handover w = elim (Bool-cases (str_eq r.amqp.timeout_queue "")) [
    | inl missing ↦
        unwanted ((eq_iff r.amqp.timeout_queue "").0 missing) (rw missing) (rw missing) (rw missing)
    | inr there ↦ rw there (Sends-Handover _ w _ _ _ refl refl (send_task-Sends env broker _))
  ]

  -- Why a task is passed on, and the queue whose name decides whether it can be: it was too late to
  -- start, or it was run and has not returned without an error.
  pub data Unfinished (late : Bool) (w : World) (queue : String) : Type 0 where
    overdue : late ≡ true → queue ≡ r.amqp.timeout_queue → Unfinished late w queue
    unsuccessful :
        (t : Task) (f : TaskFunc)
        → late ≡ false
        → get_registered_task r w.signature.name ≡ ok t
        → as_task_func t ≡ some f
        → (Completes r.config.max_task_execution_duration (f w.signature).0 → ⊥)
        → queue ≡ r.amqp.failed_queue
        → Unfinished late w queue

  -- How the handling of a delivery can end, by whether it is late.
  pub data Handled (late : Bool) (w : World) (w' : World) : Type 0 where
    completed :
        (t : Task) (f : TaskFunc)
        → late ≡ false
        → get_registered_task r w.signature.name ≡ ok t
        → as_task_func t ≡ some f
        → Completes r.config.max_task_execution_duration (f w.signature).0
        → w'.settled ≡ w.settled ++ ack false ∷ []
        → w'.sent ≡ w.sent
        → Handled late w w'
    passed_on :
        (queue : String) (m : Sent)
        → Unfinished late w queue
        → w'.settled ≡ w.settled ++ ack false ∷ []
        → w'.sent ≡ w.sent ++ m ∷ []
        → Handled late w w'
    dropped :
        Unfinished late w ""
        → w'.settled ≡ w.settled ++ ack false ∷ []
        → w'.sent ≡ w.sent
        → Handled late w w'
    requeued :
        (queue : String)
        → Unfinished late w queue
        → w'.settled ≡ w.settled ++ nack false true ∷ []
        → w'.sent ≡ w.sent
        → Handled late w w'
    rejected :
        late ≡ false
        → ((t : Task) → get_registered_task r w.signature.name ≡ ok t → as_task_func t ≡ none)
        → w'.settled ≡ w.settled ++ nack false false ∷ []
        → w'.sent ≡ w.sent
        → Handled late w w'

  pub settle-settled :
      (s : Settlement) (w : World) → (settle env s w).1.settled ≡ w.settled ++ s ∷ []
  unfolding settle ◌>>=◌
  settle-settled s w = ground arith

  pub settle-sent : (s : Settlement) (w : World) → (settle env s w).1.sent ≡ w.sent
  unfolding settle ◌>>=◌
  settle-sent s w = ground arith

  ignore_world : (m : Exec (Unit {0})) (w : World) → (ignore m w).1 ≡ (m w).1
  unfolding ignore on_error ◌>>=◌
  ignore_world m w = ground arith

  -- The two ways in which the code answers an attempt: with the error, or with none.
  record Answers (K : Option Error → Exec (Unit {0})) : Type 0 where
    acked : (v : World) → (K none v).1.settled ≡ v.settled ++ ack false ∷ []
    acked_sent : (v : World) → (K none v).1.sent ≡ v.sent
    nacked : (e : Error) (v : World) → (K (some e) v).1.settled ≡ v.settled ++ nack false true ∷ []
    nacked_sent : (e : Error) (v : World) → (K (some e) v).1.sent ≡ v.sent

  settle_quietly-Answers : Answers (settle_quietly env r broker)
  settle_quietly-Answers = record {
    acked = λ v. rw (ignore_world (settle env (ack false)) v) (settle-settled (ack false) v);
    acked_sent = λ v. rw (ignore_world (settle env (ack false)) v) (settle-sent (ack false) v);
    nacked = λ e v.
        rw (ignore_world (settle env (nack false true)) v) (settle-settled (nack false true) v);
    nacked_sent =
        λ e v. rw (ignore_world (settle env (nack false true)) v) (settle-sent (nack false true) v);
  }

  settle_retry-Answers : Answers (settle_retry env r broker)
  unfolding settle ◌>>=◌ on_error
  settle_retry-Answers = record {
    acked = λ v. ground arith;
    acked_sent = λ v. ground arith;
    nacked = λ e v. ground arith;
    nacked_sent = λ e v. ground arith;
  }

  module _ (late : Bool) (w : World) (queue : String) (cause : Unfinished late w queue) where
    -- An attempt to pass the task on, answered.
    Handover-Handled :
        (K : Option Error → Exec (Unit {0}))
        → Answers K
        → (o : Outcome (Unit {0})) (w' : World) → Handover (queue ≡ "") w o w'
        → Handled late w (continue (attempted o w').0 K (attempted o w').1).1
    Handover-Handled K a (ok x) w' (moved m _ sent settled) =
        passed_on queue m cause (a.acked w' ∙ ap (λ l. l ++ ack false ∷ []) settled)
          (a.acked_sent w' ∙ sent)
    Handover-Handled K a (ok x) w' (failed e p sent settled) = absurd (cc)
    Handover-Handled K a (ok x) w' (unwanted no_queue _ sent settled) =
        dropped (subst (Unfinished late w) no_queue cause)
          (a.acked w' ∙ ap (λ l. l ++ ack false ∷ []) settled) (a.acked_sent w' ∙ sent)
    Handover-Handled K a (err f) w' (failed e p sent settled) =
        requeued queue cause (a.nacked f w' ∙ ap (λ l. l ++ nack false true ∷ []) settled)
          (a.nacked_sent f w' ∙ sent)
    Handover-Handled K a (err f) w' (moved m p sent settled) = absurd (cc)
    Handover-Handled K a (err f) w' (unwanted no_queue p sent settled) = absurd (cc)
    Handover-Handled K a panic w' (failed e p sent settled) = absurd (cc)
    Handover-Handled K a panic w' (moved m p sent settled) = absurd (cc)
    Handover-Handled K a panic w' (unwanted no_queue p sent settled) = absurd (cc)

  pub expire-Handled : (w : World) → Handled true w (expire env r broker w).1
  unfolding expire ◌>>=◌
  expire-Handled w =
      Handover-Handled true w r.amqp.timeout_queue (overdue refl refl) (settle_quietly env r broker)
        settle_quietly-Answers _ _ (push_to_timeout-Handover w)

  -- A retry of what the task has left of the signature.
  pub retry_and_settle-Handled :
      (w : World) (s : Signature)
      → Unfinished false w r.amqp.failed_queue
      → Handled false w (retry_and_settle env r broker (record w { signature = s })).1
  unfolding retry_and_settle ◌>>=◌
  retry_and_settle-Handled w s cause =
      Handover-Handled false w r.amqp.failed_queue cause (settle_retry env r broker)
        settle_retry-Answers _ _
        (forget-signature w s (retry_task-Handover (record w { signature = s })))

  pub reject-settled :
      (e : Error) (w : World) → (reject env e w).1.settled ≡ w.settled ++ nack false false ∷ []
  unfolding reject settle ◌>>=◌ on_error
  reject-settled e w = ground arith

  pub reject-sent : (e : Error) (w : World) → (reject env e w).1.sent ≡ w.sent
  unfolding reject settle ◌>>=◌ on_error
  reject-sent e w = ground arith
