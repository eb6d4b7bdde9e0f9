-- ===== src/Consumer/Service.antt =====
-- A stream of deliveries from the server, through the consumer and the workers, to its answers.
use paota.Common.{Bool, ℕ, ◌+◌, ◌-◌, ◌≡◌, refl, subst, List, [], ◌∷◌, map, All, length, arith}
use paota.World.{Env}
use paota.Interface.{Broker}
use paota.Registrar.{Registrar, Delivery, delivery}
use paota.WorkerGroup.Assignment.{
  IsReady, deliveries_taken, among, taken_among, taken_among-le, assign_job-Assigned,
}
use paota.WorkerGroup.Answers.{Answered, serve, serve-Answered}
use paota.Consumer.{
  arrival, Consumer, Turn, goes_on, and_then, handle_event, process_delivery, process_body, consume,
}
use paota.Consumer.Loop.{IsFull}

-- The loop has handed out these deliveries and goes on.
record GoesOn (ds : List Delivery) (s : Consumer) (r : Turn) : Type 0 where
  after : Consumer
  returned : r ≡ goes_on after
  world_kept : after.world ≡ s.world
  taken : deliveries_taken after.group.workers ≡ deliveries_taken s.group.workers + length ds
  those :
      (p : Delivery → Bool)
      → taken_among p after.group.workers ≡ taken_among p s.group.workers + among p ds

module _ (env : Env) where
  hand_out :
      (s : Consumer) (d : Delivery) (rest : Consumer → Turn) (ds : List Delivery)
      → IsFull d
      → IsReady s.group
      → ((u : Consumer) → IsReady u.group → GoesOn ds u (rest u))
      → GoesOn (d ∷ ds) s (and_then env (handle_event env s (arrival d)) rest)
  unfolding handle_event process_delivery
  hand_out s d rest ds full ready k = by_body d.body refl
    where
      by_body :
          (body : List ℕ)
          → d.body ≡ body
          → GoesOn
              (d ∷ ds)
              s
              (and_then env (process_body env (record s { waiting = s.waiting + 1 }) d body) rest)
      by_body [] e = absurd (full e)
      by_body (b ∷ bs) e =
          let a = assign_job-Assigned s.group (delivery d) ready in
          let u : Consumer = record s { group = a.group; waiting = s.waiting + 1 - 1 } in
          let g = k u a.ready in
          rw a.returned (record {
            after = g.after;
            returned = g.returned;
            world_kept = g.world_kept;
            taken = omega (arith, g.taken, a.counted);
            those = λ p. omega (arith, g.those p, a.picked p);
          })

  consume-GoesOn :
      (ds : List Delivery) (s : Consumer)
      → All IsFull ds
      → IsReady s.group
      → GoesOn ds s (consume env (map arrival ds) s)
  unfolding consume
  consume-GoesOn [] s full ready = record {
    after = s;
    returned = refl;
    world_kept = refl;
    taken = omega arith;
    those = λ p. omega arith;
  }
  consume-GoesOn (d ∷ ds) s (f, full) ready =
      hand_out s d (consume env (map arrival ds)) ds f ready (λ u. consume-GoesOn ds u full)

  -- Over a ready group whose workers have been handed no delivery, a stream of deliveries that are not
  -- empty leaves the loop waiting for more. The workers then have these very deliveries among their
  -- jobs, each as often as it came (as many are picked by any test), and no others; and when the
  -- workers have gone through their jobs there are as many answers more as deliveries, and at most as
  -- many confirmed messages more.
  pub consume-Answered :
      (r : Registrar) (broker : Broker) (ds : List Delivery) (s : Consumer)
      → All IsFull ds
      → IsReady s.group
      → deliveries_taken s.group.workers ≡ 0
      → (t : Consumer) × (consume env (map arrival ds) s ≡ goes_on t)
        × ((p : Delivery → Bool) → taken_among p t.group.workers ≡ among p ds)
        × Answered (length ds) s.world (serve env r broker t.group.workers t.world).1
  consume-Answered r broker ds s full ready unused =
      let g = consume-GoesOn ds s full ready in
      let count : deliveries_taken g.after.group.workers ≡ length ds =
        omega (arith, g.taken, unused) in
      let a = serve-Answered env r broker g.after.group.workers g.after.world in
      (
        g.after,
        g.returned,
        λ p. omega (arith, g.those p, unused, taken_among-le p s.group.workers),
        subst (λ n. Answered n s.world (serve env r broker g.after.group.workers g.after.world).1)
            count
            (subst
              (λ w.
                Answered (deliveries_taken g.after.group.workers) w
                  (serve env r broker g.after.group.workers g.after.world).1)
              g.world_kept a),
      )
