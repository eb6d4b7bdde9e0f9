-- ===== src/Consumer/Loop.antt =====
-- The loop of the consumer: which deliveries it hands to the workers, and how it ends.
use paota.Common.{
  Bool, false, ap, subst, ℕ, ◌+◌, ◌-◌, ◌≡◌, ◌≢◌, refl, ◌∙◌, Option, none, some, List, [], ◌∷◌, ◌++◌,
  map, All, length, arith,
}
use paota.Schema.{Error}
use paota.World.{Env, World, nack, ◌>>=◌}
use paota.Registrar.{Delivery, delivery, settle}
use paota.WorkerGroup.Assignment.{
  IsReady, deliveries_taken, among, taken_among, assign_job-Assigned,
}
use paota.Consumer.{
  Event, cancelled, failed, connection_closed, channel_closed, arrival, deliveries_closed,
  stop_request, Consumer, Turn, goes_on, returns, and_then, handle_event, process_delivery, consume,
  refuse_empty, process_body,
}

abbrev pub IsFull : Delivery → Type 0
IsFull d = d.body ≢ []

-- An event that ends the loop, and the result: no error for a request to stop, one for all others.
-- An empty delivery is one of them; it is rejected.
pub data Ending (w : World) : Event → Option Error → World → Type 0 where
  stopped : Ending w stop_request none w
  broken :
      (e : Event) (f : Error)
      → e ≢ stop_request
      → ((d : Delivery) → e ≢ arrival d)
      → Ending w e (some f) w
  empty :
      (d : Delivery) (f : Error) (v : World)
      → d.body ≡ []
      → v.settled ≡ w.settled ++ nack false false ∷ []
      → Ending w (arrival d) (some f) v

-- From `s`, over the events: each was a delivery for a worker, or one of them ended the loop.
pub data Consumed (s : Consumer) (es : List Event) : Turn → Type 0 where
  going :
      (t : Consumer) (ds : List Delivery)
      → es ≡ map arrival ds
      → All IsFull ds
      → t.world ≡ s.world
      → t.waiting ≡ s.waiting
      → IsReady t.group
      → deliveries_taken t.group.workers ≡ deliveries_taken s.group.workers + length ds
      → ((p : Delivery → Bool)
          → taken_among p t.group.workers ≡ taken_among p s.group.workers + among p ds)
      → Consumed s es (goes_on t)
  ended :
      (t : Consumer) (ds : List Delivery) (e : Event) (rest : List Event) (o : Option Error)
      → es ≡ map arrival ds ++ e ∷ rest
      → All IsFull ds
      → Ending s.world e o t.world
      → t.waiting ≡ s.waiting
      → IsReady t.group
      → deliveries_taken t.group.workers ≡ deliveries_taken s.group.workers + length ds
      → ((p : Delivery → Bool)
          → taken_among p t.group.workers ≡ taken_among p s.group.workers + among p ds)
      → Consumed s es (returns o t)

-- One more delivery in front.
Consumed-arrival :
    (s u : Consumer) (d : Delivery) (es : List Event) (r : Turn)
    → IsFull d
    → u.world ≡ s.world
    → u.waiting ≡ s.waiting
    → deliveries_taken u.group.workers ≡ deliveries_taken s.group.workers + 1
    → ((p : Delivery → Bool)
        → taken_among p u.group.workers ≡ taken_among p s.group.workers + among p (d ∷ []))
    → Consumed u es r
    → Consumed s (arrival d ∷ es) r
Consumed-arrival s u d es r full world waiting taken picked (going t ds e a w k ready jobs those) =
    going t (d ∷ ds) (ap (λ l. arrival d ∷ l) e) (full, a) (w ∙ world) (k ∙ waiting) ready
      (omega (arith, jobs, taken)) (λ p. omega (arith, those p, picked p))
Consumed-arrival s u d es r full world waiting taken picked
      (ended t ds x rest o e a w k ready jobs those) =
    ended t (d ∷ ds) x rest o (ap (λ l. arrival d ∷ l) e) (full, a)
      (subst (λ v. Ending v x o t.world) world w) (k ∙ waiting) ready (omega (arith, jobs, taken))
      (λ p. omega (arith, those p, picked p))

module _ (env : Env) where
  -- An event that is no delivery.
  ends :
      (s : Consumer) (e : Event) (es : List Event) (o : Option Error)
      → Ending s.world e o s.world
      → IsReady s.group
      → Consumed s (e ∷ es) (returns o s)
  ends s e es o x ready = ended s [] e es o refl tt x refl ready (omega arith) (λ p. omega arith)

  nacked :
      (w : World) → (settle env (nack false false) w).1.settled ≡ w.settled ++ nack false false ∷ []
  unfolding settle ◌>>=◌
  nacked w = ground arith

  refused :
      (s : Consumer) (d : Delivery) (es : List Event)
      → d.body ≡ []
      → IsReady s.group
      → Consumed s (arrival d ∷ es) (refuse_empty env (record s { waiting = s.waiting + 1 }))
  refused s d es nothing ready =
      ended _ [] (arrival d) es _ refl tt (empty d _ _ nothing (nacked s.world)) (omega arith) ready
        (omega arith) (λ p. omega arith)

  consume-first :
      (s : Consumer) (e : Event) (es : List Event)
      → IsReady s.group
      → ((u : Consumer) → IsReady u.group → Consumed u es (consume env es u))
      → Consumed s (e ∷ es) (and_then env (handle_event env s e) (λ t. consume env es t))
  unfolding handle_event process_delivery
  consume-first s (cancelled tag) es ready rest =
      ends s _ es _ (broken _ _ (λ h. cc) (λ d h. cc)) ready
  consume-first s (failed e) es ready rest = ends s _ es _ (broken _ _ (λ h. cc) (λ d h. cc)) ready
  consume-first s (connection_closed o) es ready rest =
      ends s _ es _ (broken _ _ (λ h. cc) (λ d h. cc)) ready
  consume-first s (channel_closed o) es ready rest =
      ends s _ es _ (broken _ _ (λ h. cc) (λ d h. cc)) ready
  consume-first s deliveries_closed es ready rest =
      ends s _ es _ (broken _ _ (λ h. cc) (λ d h. cc)) ready
  consume-first s stop_request es ready rest = ends s _ es _ stopped ready
  consume-first s (arrival d) es ready rest = by_body d.body refl
    where
      u : Consumer
      u = record s { waiting = s.waiting + 1 }

      by_body :
          (body : List ℕ)
          → d.body ≡ body
          → Consumed s
              (arrival d ∷ es)
              (and_then env (process_body env u d body) (λ t. consume env es t))
      by_body [] e = refused s d es e ready
      by_body (b ∷ bs) e =
          let a = assign_job-Assigned s.group (delivery d) ready in
          rw a.returned (
            Consumed-arrival s (record s { group = a.group; waiting = s.waiting + 1 - 1 }) d es _
              (λ h. cc (e, h)) refl (omega arith) a.counted a.picked (rest _ a.ready))

  -- Whichever events come, over a ready group: the deliveries before the first other event, or before
  -- the first empty delivery, are handed to the workers, these very ones (of those that a test picks,
  -- the workers have as many more as came, whatever the test) and no others, and that event ends the
  -- loop; without one the loop goes on. A request to stop ends it with no error, any other event with one, and an empty
  -- delivery is rejected. The counter of deliveries in progress is what it was.
  pub consume-Consumed :
      (es : List Event) (s : Consumer) → IsReady s.group → Consumed s es (consume env es s)
  unfolding consume
  consume-Consumed [] s ready = going s [] refl tt refl refl ready (omega arith) (λ p. omega arith)
  consume-Consumed (e ∷ es) s ready = consume-first s e es ready (λ u. consume-Consumed es u)
