-- ===== src/WorkerPool/Events.antt =====
-- The events of the consumer in a pool that runs, as steps of the protocol.
use paota.Common.{ℕ, ◌+◌, ◌-◌, ◌≡◌, refl, subst, Option, none, List, [], ◌∷◌}
use paota.Schema.{Error}
use paota.World.{Env}
use paota.Registrar.{Delivery, delivery}
use paota.WorkerGroup.Assignment.{IsShut-assign_job, assign_job-Assigned}
use paota.Consumer.{
  Event, cancelled, failed, connection_closed, channel_closed, arrival, deliveries_closed,
  stop_request, Consumer, goes_on, returns, crashed as broken_down, handle_event, process_delivery,
  process_body,
}
use paota.Consumer.Interleaving.{goes_on_inj, returns_inj}
use paota.WorkerPool.Protocol.{
  Phase, idle, connecting, looping, busy, confirming, returned, sleeping, exited, crashed, Stage,
  running, closing, sending, waiting, collecting, finished, alive, Life, Step, take, hand_over,
  crash, refuse, break_off, signal, close, Reach, here, next, new_life,
}
use paota.WorkerPool.Protocol as P
use paota.WorkerPool.Running.{Running, consumer_of, with_consumer, Run, Runs, all_open, life}
use paota.WorkerPool.Running as R
use paota.WorkerPool.Fits.{
  Fits, fresh, serving, shut, Refines, Fits-same, IsServing-all_open, IsShut-all_open,
}

module _ (env : Env) where
  -- A delivery, by what `processDelivery` makes of its body.
  handled_delivery :
      (s : Running) (d : Delivery) (body : List ℕ) (c : Consumer)
      → Fits s
      → s.phase ≡ looping
      → process_body env (record (consumer_of s) { waiting = s.in_progress + 1 }) d body ≡ goes_on c
      → Refines s (with_consumer s looping c)
  handled_delivery s d [] c f p e = absurd (cc)
  handled_delivery s d (x ∷ xs) c (fresh n name_space a at_rest unstarted same some_worker) p e =
      absurd (cc (a, p))
  handled_delivery s d (x ∷ xs) c (shut a b closed) p e =
      absurd (cc (rw (IsShut-assign_job s.pool.worker_group (delivery d) closed) at e))
  handled_delivery s d (x ∷ xs) c (serving a b ready) p e =
      let k = assign_job-Assigned s.pool.worker_group (delivery d) ready in
      let u : Consumer = record (consumer_of s) {
        group = k.group;
        waiting = s.in_progress + 1 - 1;
      } in
      let before = IsServing-all_open s.pool.worker_group.workers ready.serving in
      let after = IsServing-all_open k.group.workers k.ready.serving in
      subst (λ v. Refines s (with_consumer s looping v)) (goes_on_inj c u (rw k.returned at e))
        (record {
          fits = serving (λ h. cc) b k.ready;
          steps = next (next here (take p refl)) (hand_over refl before (rw (after, before) refl));
        })

  pub handled_event :
      (s : Running) (e : Event) (c : Consumer)
      → Fits s
      → s.phase ≡ looping
      → handle_event env (consumer_of s) e ≡ goes_on c
      → Refines s (with_consumer s looping c)
  unfolding handle_event process_delivery
  handled_event s (arrival d) c f p h = handled_delivery s d d.body c f p h
  handled_event s (cancelled tag) c f p h = absurd (cc)
  handled_event s (failed e) c f p h = absurd (cc)
  handled_event s (connection_closed o) c f p h = absurd (cc)
  handled_event s (channel_closed o) c f p h = absurd (cc)
  handled_event s deliveries_closed c f p h = absurd (cc)
  handled_event s stop_request c f p h = absurd (cc)

  ended_delivery :
      (s : Running) (d : Delivery) (body : List ℕ) (o : Option Error) (c : Consumer)
      → Fits s
      → s.phase ≡ looping
      → process_body env (record (consumer_of s) { waiting = s.in_progress + 1 }) d body
        ≡ returns o c
      → Refines s (with_consumer s returned (R.deferred env s c))
  ended_delivery s d [] o c f p e =
      subst (λ v. Refines s (with_consumer s returned (R.deferred env s v))) (returns_inj _ o c _ e)
        (record {
          fits = Fits-same s _ f (λ h. cc) (λ h. cc) refl refl;
          steps = next (next here (take p refl)) (refuse refl refl);
        })
  ended_delivery s d (x ∷ xs) o c (fresh n name_space a at_rest unstarted same some_worker) p e =
      absurd (cc (a, p))
  ended_delivery s d (x ∷ xs) o c (shut a b closed) p e =
      absurd (cc (rw (IsShut-assign_job s.pool.worker_group (delivery d) closed) at e))
  ended_delivery s d (x ∷ xs) o c (serving a b ready) p e =
      absurd (cc (rw (assign_job-Assigned s.pool.worker_group (delivery d) ready).returned at e))

  -- The loop is left with the consumer as it is.
  left_loop :
      (s : Running) (o q : Option Error) (c : Consumer)
      → Fits s
      → s.phase ≡ looping
      → returns q (consumer_of s) ≡ returns o c
      → Refines s (with_consumer s returned (R.deferred env s c))
  left_loop s o q c f p e =
      subst (λ v. Refines s (with_consumer s returned (R.deferred env s v)))
        (returns_inj q o c (consumer_of s) e)
        (record {
          fits = Fits-same s _ f (λ h. cc) (λ h. cc) refl refl;
          steps = next here (break_off p refl);
        })

  pub ended_event :
      (s : Running) (e : Event) (o : Option Error) (c : Consumer)
      → Fits s
      → s.phase ≡ looping
      → handle_event env (consumer_of s) e ≡ returns o c
      → Refines s (with_consumer s returned (R.deferred env s c))
  unfolding handle_event process_delivery
  ended_event s (arrival d) o c f p h = ended_delivery s d d.body o c f p h
  ended_event s (cancelled tag) o c f p h = left_loop s o _ c f p h
  ended_event s (failed e) o c f p h = left_loop s o _ c f p h
  ended_event s (connection_closed x) o c f p h = left_loop s o _ c f p h
  ended_event s (channel_closed x) o c f p h = left_loop s o _ c f p h
  ended_event s deliveries_closed o c f p h = left_loop s o _ c f p h
  ended_event s stop_request o c f p h = left_loop s o _ c f p h

  broken_inj : (t u : Consumer) → broken_down u ≡ broken_down t → u ≡ t
  broken_inj t u e = cc

  panicked_delivery :
      (s : Running) (d : Delivery) (body : List ℕ) (c : Consumer)
      → Fits s
      → s.phase ≡ looping
      → process_body env (record (consumer_of s) { waiting = s.in_progress + 1 }) d body
        ≡ broken_down c
      → Refines s (with_consumer s crashed (R.deferred env s c))
  panicked_delivery s d [] c f p e = absurd (cc)
  panicked_delivery s d (x ∷ xs) c (fresh n name_space a at_rest unstarted same some_worker) p e =
      absurd (cc (a, p))
  panicked_delivery s d (x ∷ xs) c (serving a b ready) p e =
      absurd (cc (rw (assign_job-Assigned s.pool.worker_group (delivery d) ready).returned at e))
  panicked_delivery s d (x ∷ xs) c (shut a b closed) p e =
      let u : Consumer = record (consumer_of s) { waiting = s.in_progress + 1 - 1 } in
      let none_open = IsShut-all_open s.pool.worker_group.workers closed.some_worker closed.shut in
      subst (λ v. Refines s (with_consumer s crashed (R.deferred env s v)))
        (broken_inj c u (rw (IsShut-assign_job s.pool.worker_group (delivery d) closed) at e))
        (record {
          fits = shut (λ h. cc) b closed;
          steps = next (next here (take p refl)) (crash refl none_open refl);
        })

  pub panicked_event :
      (s : Running) (e : Event) (c : Consumer)
      → Fits s
      → s.phase ≡ looping
      → handle_event env (consumer_of s) e ≡ broken_down c
      → Refines s (with_consumer s crashed (R.deferred env s c))
  unfolding handle_event process_delivery
  panicked_event s (arrival d) c f p h = panicked_delivery s d d.body c f p h
  panicked_event s (cancelled tag) c f p h = absurd (cc)
  panicked_event s (failed e) c f p h = absurd (cc)
  panicked_event s (connection_closed o) c f p h = absurd (cc)
  panicked_event s (channel_closed o) c f p h = absurd (cc)
  panicked_event s deliveries_closed c f p h = absurd (cc)
  panicked_event s stop_request c f p h = absurd (cc)

  pub requested :
      (s : Running) (o : Option Error) (c : Consumer)
      → Fits s
      → s.phase ≡ looping
      → s.stage ≡ sending
      → handle_event env (consumer_of s) stop_request ≡ returns o c
      → Refines s (record (with_consumer s confirming c) { stage = waiting })
  unfolding handle_event
  requested s o c (fresh n name_space a at_rest unstarted same some_worker) p g h =
      absurd (cc (a, p))
  requested s o c (serving a b ready) p g h = absurd (cc (b, g))
  requested s o c (shut a b closed) p g h =
      subst (λ v. Refines s (record (with_consumer s confirming v) { stage = waiting }))
        (returns_inj none o c (consumer_of s) h)
        (record { fits = shut (λ h. cc) (λ h. cc) closed; steps = next here (P.request p g refl) })
