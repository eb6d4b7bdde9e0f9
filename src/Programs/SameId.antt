-- ===== src/Programs/SameId.antt =====
-- The tasks that example/publisher/main.go sends all have one identifier.
use paota.Common.{
  ℕ, suc, String, ◌+◌, ◌≡◌, ◌≢◌, refl, sym, ◌∙◌, ap, List, [], ◌∷◌, length, length-append, arith,
}
use paota.Common.Int.{pos}
use paota.Schema.{Signature, publish_message, new_pending_task_state}
use paota.World.{Env, World, Outcome, ok, err, panic, pure, raise, gets, on_error, ◌>>=◌, ◌>>◌}
use paota.Interface.{Broker}
use paota.Registrar.{send_task}
use paota.Registrar.Sending.{Sends, send_task-Sends, send_task-ok}
use paota.WorkerPool.{pool_send_task_with_context}
use paota.Programs.Values.{discard}
use paota.Programs.Publisher.{Act, send, raise_time_out, sends, act, publish_all}

-- The result of a send is dropped, whether it is an error or not.
dropped :
    (r : Outcome (Unit {0})) (w w' : World)
    → r ≢ panic
    → discard
        (on_error (λ _. (r, w')) (λ e. raise (publish_message e))
          >> (gets (λ v. v.signature) >>= λ s. pure (new_pending_task_state s)))
        w
      ≡ (ok tt, w')
unfolding discard on_error ◌>>=◌
dropped (ok x) w w' h = refl
dropped (err e) w w' h = refl
dropped panic w w' h = absurd (h refl)

-- So many messages more, and the identifier as it was.
pub record Feeds (n : ℕ) (id : String) (w w' : World) : Type 0 where
  pub same_id : w'.signature.uuid ≡ id
  pub sent : length w'.sent ≡ length w.sent + n

Sends-Feeds :
    (w : World) (r : Outcome (Unit {0})) (w' : World) (s : Sends w r w')
    → r ≡ ok tt
    → Feeds 1 s.id w w'
Sends-Feeds w r w' s done =
    let (m, added, _) = s.delivered done in
    record {
      same_id = ap (λ (t : Signature). t.uuid) s.signature_sent;
      sent = ap length added ∙ length-append w.sent (m ∷ []);
    }

module _ (env : Env) (broker : Broker) (reliable : (w : World) → (broker.publish w).0 ≡ ok tt) where
  sent_by : World → World
  sent_by w = (send_task env broker w).1

  act-send : (w : World) → act env broker send w ≡ (ok tt, sent_by w)
  unfolding act pool_send_task_with_context send_task sent_by ◌>>=◌
  act-send w =
      dropped (send_task env broker w).0 w (sent_by w) (send_task-Sends env broker w).returns

  sent_by-Feeds : (w : World) → Feeds 1 (send_task-Sends env broker w).id w (sent_by w)
  unfolding sent_by
  sent_by-Feeds w =
      Sends-Feeds w _ _ (send_task-Sends env broker w) (send_task-ok env broker reliable w)

  publish_all-Feeds :
      (acts : List Act) (w : World)
      → w.signature.uuid ≢ ""
      → Feeds (sends acts) w.signature.uuid w (publish_all env broker acts w).1
  unfolding publish_all act ◌>>=◌
  publish_all-Feeds [] w named = record { same_id = refl; sent = omega arith }
  publish_all-Feeds (raise_time_out ∷ acts) w named =
      let u : World = record w { signature = record w.signature { task_time_out = pos 120 } } in
      let rest = publish_all-Feeds acts u named in
      record { same_id = rest.same_id; sent = rest.sent }
  publish_all-Feeds (send ∷ acts) w named =
      let s = send_task-Sends env broker w in
      let one = sent_by-Feeds w in
      let same : (sent_by w).signature.uuid ≡ w.signature.uuid = one.same_id ∙ s.id_kept named in
      let rest = publish_all-Feeds acts (sent_by w) (λ e. named (sym same ∙ e)) in
      rw (act-send w)
        (record { same_id = rest.same_id ∙ same; sent = omega (arith, rest.sent, one.sent) })

  -- Over a broker that takes each publish, in whichever order the goroutines send and the timeout is
  -- written, each send being one step: each is one message, and the identifier that the first of them
  -- gives to the task is the one it keeps through all of them.
  pub publish_all-same_id :
      (acts : List Act) (w : World)
      → w.signature.uuid ≡ ""
      → let first = (publish_all env broker (send ∷ []) w).1 in
        let last = (publish_all env broker (send ∷ acts) w).1 in
        (first.signature.uuid ≢ "")
        × (last.signature.uuid ≡ first.signature.uuid)
        × (length last.sent ≡ length w.sent + suc (sends acts))
  unfolding publish_all ◌>>=◌
  publish_all-same_id acts w unset =
      let s = send_task-Sends env broker w in
      let one = sent_by-Feeds w in
      let named : (sent_by w).signature.uuid ≢ "" = λ e. s.id_set (sym one.same_id ∙ e) in
      let rest = publish_all-Feeds acts (sent_by w) named in
      rw (act-send w) (named, rest.same_id, omega (arith, rest.sent, one.sent))
