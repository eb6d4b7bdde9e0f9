-- ===== src/MongoDb/Retries.antt =====
-- What an operation on the database does when the connection is lost.
use paota.Common.{
  ap, sym, ◌∙◌, ℕ, zero, suc, ◌+◌, ◌*◌, ◌≤◌, ◌≡◌, refl, inl, inr, Option, none, some, Option-cases,
  [], ◌∷◌, ◌++◌, arith,
}
use paota.Schema.{Error}
use paota.MongoDb.{
  Request, Failure, Driver, MongoDbClient, Reply, done, failure, pinged, count_call, connect,
  or_again, attempts, reconnect, check_connection, checked, perform, replied,
}

module _ (d : Driver) where
  -- The client has just answered a ping.
  abbrev pub IsPinged : MongoDbClient → Type 0
  IsPinged m = (n : ℕ) × (m.calls ≡ suc n) × (d.ping n m.client ≡ none)

  -- No request has gone out; at most so many calls and pauses more.
  pub record Waits (calls naps : ℕ) (m m' : MongoDbClient) : Type 0 where
    pub asked_kept : m'.asked ≡ m.asked
    pub calls_made : m'.calls ≤ m.calls + calls
    pub naps_taken : m'.naps ≤ m.naps + naps

  -- A success means that the client has just answered a ping.
  pub record Checks (calls naps : ℕ) (m : MongoDbClient) (r : Reply (Unit {0})) (m' : MongoDbClient)
      : Type 0 where
    pub waits : Waits calls naps m m'
    pub live : r ≡ done tt → IsPinged m'

  connect-Checks : (m : MongoDbClient) → Checks 2 0 m (connect d m).0 (connect d m).1
  unfolding connect
  connect-Checks m = elim (Option-cases (d.connect m.calls m.mongo_config)) [
    | inr (e, lost) ↦ rw lost (record {
      waits = record { asked_kept = refl; calls_made = omega arith; naps_taken = omega arith };
      live = λ h. absurd (cc);
    })
    | inl there ↦ rw there (by_ping (d.ping (m.calls + 1) (some m.calls)) refl)
  ]
    where
      by_ping :
          (o : Option Error)
          → d.ping (m.calls + 1) (some m.calls) ≡ o
          → Checks 2 0 m (pinged o) (record m { client = some m.calls; calls = m.calls + 1 + 1 })
      by_ping none e = record {
        waits = record { asked_kept = refl; calls_made = omega arith; naps_taken = omega arith };
        live = λ h. (m.calls + 1, omega arith, e);
      }
      by_ping (some f) e = record {
        waits = record { asked_kept = refl; calls_made = omega arith; naps_taken = omega arith };
        live = λ h. absurd (cc);
      }

  more_calls :
      (a b n k : ℕ) (m v : MongoDbClient) (r : Reply (Unit {0})) (m' : MongoDbClient)
      → Waits a b m v
      → Checks n k v r m'
      → Checks (a + n) (b + k) m r m'
  more_calls a b n k m v r m' w c = record {
    waits = record {
      asked_kept = c.waits.asked_kept ∙ w.asked_kept;
      calls_made = omega (arith, c.waits.calls_made, w.calls_made);
      naps_taken = omega (arith, c.waits.naps_taken, w.naps_taken);
    };
    live = c.live;
  }

  or_again-Checks :
      (n k : ℕ) (m : MongoDbClient) (r : Reply (Unit {0})) (v : MongoDbClient)
      (again : MongoDbClient → Reply (Unit {0}) × MongoDbClient)
      → Checks 2 0 m r v
      → ((u : MongoDbClient) → Checks n k u (again u).0 (again u).1)
      → Checks (2 + n) (1 + k) m (or_again d (r, v) again).0 (or_again d (r, v) again).1
  or_again-Checks n k m (done x) v again c h = record {
    waits = record {
      asked_kept = c.waits.asked_kept;
      calls_made = omega (arith, c.waits.calls_made);
      naps_taken = omega (arith, c.waits.naps_taken);
    };
    live = c.live;
  }
  or_again-Checks n k m (failure f) v again c h =
      more_calls 2 1 n k m (record v { naps = v.naps + 1 }) _ _
        (record {
          asked_kept = c.waits.asked_kept;
          calls_made = c.waits.calls_made;
          naps_taken = omega (arith, c.waits.naps_taken);
        })
        (h (record v { naps = v.naps + 1 }))

  attempts-Checks :
      (n : ℕ) (m : MongoDbClient) → Checks (2 * n) n m (attempts d n m).0 (attempts d n m).1
  unfolding attempts
  attempts-Checks zero m = record {
    waits = record { asked_kept = refl; calls_made = omega arith; naps_taken = omega arith };
    live = λ h. absurd (cc);
  }
  attempts-Checks (suc n) m =
      let a : 2 + 2 * n ≡ 2 * suc n = omega arith in
      let b : 1 + n ≡ suc n = omega arith in
      subst2 a b (
        or_again-Checks (2 * n) n m (connect d m).0 (connect d m).1 (attempts d n)
          (connect-Checks m) (attempts-Checks n))
    where
      subst2 :
          {x y u v : ℕ} {r : Reply (Unit {0})} {m' : MongoDbClient}
          → x ≡ y
          → u ≡ v
          → Checks x u m r m'
          → Checks y v m r m'
      subst2 p q c = rw (sym p, sym q) c

  check_connection-Checks :
      (m : MongoDbClient) → Checks 11 5 m (check_connection d m).0 (check_connection d m).1
  unfolding check_connection reconnect
  check_connection-Checks m = elim (Option-cases (d.ping m.calls m.client)) [
    | inl alive ↦
        rw (check_connection, alive)
          (record {
            waits = record {
              asked_kept = refl;
              calls_made = omega arith;
              naps_taken = omega arith;
            };
            live = λ h. (m.calls, omega arith, alive);
          })
    | inr (e, lost) ↦
        rw (check_connection, lost)
          (more_calls 1 0 10 5 m (count_call m) _ _
            (record { asked_kept = refl; calls_made = omega arith; naps_taken = omega arith })
            (attempts-Checks 5 (count_call m)))
  ]

  -- The request went out once, over a client that had answered a ping right before, and the reply is
  -- the driver's; or it did not go out, with an error. The connection was sought with at most eleven
  -- calls and five pauses.
  pub data Performed (q : Request) (m : MongoDbClient) (r : Reply (Unit {0})) (m' : MongoDbClient)
      : Type 0 where
    went_out :
        (n : ℕ)
        → m'.calls ≡ suc (suc n)
        → d.ping n m'.client ≡ none
        → r ≡ replied d (d.run (suc n) m'.client m'.mongo_config.db_name q)
        → m'.asked ≡ m.asked ++ (m'.client, q) ∷ []
        → m'.calls ≤ m.calls + 12
        → m'.naps ≤ m.naps + 5
        → Performed q m r m'
    stayed :
        (f : Failure)
        → r ≡ failure f
        → m'.asked ≡ m.asked
        → m'.calls ≤ m.calls + 11
        → m'.naps ≤ m.naps + 5
        → Performed q m r m'

  checked-Performed :
      (q : Request) (m : MongoDbClient) (r : Reply (Unit {0})) (v : MongoDbClient)
      → Checks 11 5 m r v
      → Performed q m (checked d (r, v) q).0 (checked d (r, v) q).1
  checked-Performed q m (failure f) v c =
      stayed f refl c.waits.asked_kept c.waits.calls_made c.waits.naps_taken
  checked-Performed q m (done tt) v c =
      let (n, made, there) = c.live refl in
      went_out n (omega (arith, made)) there
        (ap (λ k. replied d (d.run k v.client v.mongo_config.db_name q)) made)
        (ap (λ l. l ++ (v.client, q) ∷ []) c.waits.asked_kept) (omega (arith, c.waits.calls_made))
        c.waits.naps_taken

  -- Whatever the driver answers, an insert, an update or a delete, and the query of a find, goes out
  -- at most once: over a client that has answered a ping right before, and with the reply of the
  -- driver, or not at all and with an error. It takes at most twelve calls and five pauses.
  pub perform-Performed :
      (q : Request) (m : MongoDbClient) → Performed q m (perform d q m).0 (perform d q m).1
  unfolding perform
  perform-Performed q m =
      checked-Performed q m (check_connection d m).0 (check_connection d m).1
        (check_connection-Checks m)
