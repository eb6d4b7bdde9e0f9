-- ===== src/MongoDb.antt =====
-- internal/provider/mongodb.go. The driver is a parameter; a client of it, a document, a filter and an
-- update are known by numbers.
pub mod Retries
use paota.Common.{ℕ, zero, suc, ◌+◌, String, Option, none, some, List, [], ◌∷◌, ◌++◌}
use paota.Schema.{Error}
use paota.Config.{MongoDbConfig}

-- What is asked of a collection.
pub data Request : Type 0 where
  insert_one find_all delete_one : String → ℕ → Request
  update_one : String → ℕ → ℕ → Request

-- The errors of `fmt.Errorf`, and those of the driver as they are.
pub data Failure : Type 0 where
  not_connected not_pinged driver : Error → Failure
  not_reconnected : Failure

-- Each answer depends on the number of the call. The second number is the client, none for nil.
pub record Driver : Type 0 where
  pub connect : ℕ → MongoDbConfig → Option Error
  pub ping : ℕ → Option ℕ → Option Error
  pub disconnect : ℕ → Option ℕ → Option Error
  pub run : ℕ → Option ℕ → String → Request → Option Error
  pub fetch : ℕ → Option Error
  pub results : ℕ → List ℕ

-- `asked` are the requests that went out, with their client; `naps` counts the pauses of two seconds.
pub record MongoDbClient : Type 0 where
  pub client : Option ℕ
  pub mongo_config : MongoDbConfig
  pub calls : ℕ
  pub asked : List (Option ℕ × Request)
  pub naps : ℕ

pub data Reply (A : Type 0) : Type 0 where
  done : A → Reply A
  failure : Failure → Reply A

abbrev pub Action : Type 0 → Type 0
Action A = MongoDbClient → Reply A × MongoDbClient

abbrev pub count_call : MongoDbClient → MongoDbClient
count_call m = record m { calls = m.calls + 1 }

-- `mongo.Connect` makes a client, known by the number of that call.
abbrev pub connected : Option Error → MongoDbClient → Option Failure × MongoDbClient
connected none m = (none, record m { client = some m.calls; calls = m.calls + 1 })
connected (some e) m = (some (not_connected e), count_call m)

abbrev pub pinged : Option Error → Reply (Unit {0})
pinged none = done tt
pinged (some e) = failure (not_pinged e)

module _ (d : Driver) where
  abbrev pub verify_connection : Option Failure × MongoDbClient → Reply (Unit {0}) × MongoDbClient
  verify_connection (some f, m) = (failure f, m)
  verify_connection (none, m) = (pinged (d.ping m.calls m.client), count_call m)

  unfoldable pub connect : Action (Unit {0})
  connect m = verify_connection (connected (d.connect m.calls m.mongo_config) m)

  unfoldable pub connect_with : MongoDbConfig → Action (Unit {0})
  connect_with conf m = connect (record m { mongo_config = conf })

  abbrev created : Reply (Unit {0}) × MongoDbClient → Reply MongoDbClient
  created (done _, m) = done m
  created (failure f, m) = failure f

  -- From `&mongoDBClient{}`.
  unfoldable pub new_mongo_db_client : MongoDbConfig → Reply MongoDbClient
  new_mongo_db_client conf = created (
      connect_with conf
        (record { client = none; mongo_config = conf; calls = 0; asked = []; naps = 0 }))

  unfoldable pub disconnect : Action (Unit {0})
  disconnect m = elim (d.disconnect m.calls m.client) [
    | none ↦ (done tt, count_call m)
    | some e ↦ (failure (driver e), count_call m)
  ]

  -- The loop with `n` attempts left.
  abbrev pub or_again :
      Reply (Unit {0}) × MongoDbClient → Action (Unit {0}) → Reply (Unit {0}) × MongoDbClient
  or_again (done _, m) again = (done tt, m)
  or_again (failure _, m) again = again (record m { naps = m.naps + 1 })

  unfoldable pub attempts : ℕ → Action (Unit {0})
  attempts zero m = (failure not_reconnected, m)
  attempts (suc n) m = or_again (connect m) (attempts n)

  unfoldable pub reconnect : Action (Unit {0})
  reconnect = attempts 5

  unfoldable pub check_connection : Action (Unit {0})
  check_connection m = elim (d.ping m.calls m.client) [
    | none ↦ (done tt, count_call m)
    | some _ ↦ reconnect (count_call m)
  ]

  abbrev pub replied : Option Error → Reply (Unit {0})
  replied none = done tt
  replied (some e) = failure (driver e)

  abbrev pub ask : Request → Action (Unit {0})
  ask q m = (
    replied (d.run m.calls m.client m.mongo_config.db_name q),
    record m { calls = m.calls + 1; asked = m.asked ++ (m.client, q) ∷ [] },
  )

  abbrev pub checked : Reply (Unit {0}) × MongoDbClient → Request → Reply (Unit {0}) × MongoDbClient
  checked (done _, m) q = ask q m
  checked (failure f, m) q = (failure f, m)

  unfoldable pub perform : Request → Action (Unit {0})
  perform q m = checked (check_connection m) q

  abbrev pub insert : String → ℕ → Action (Unit {0})
  insert collection document = perform (insert_one collection document)

  abbrev pub update : String → ℕ → ℕ → Action (Unit {0})
  update collection filter change = perform (update_one collection filter change)

  abbrev pub delete : String → ℕ → Action (Unit {0})
  delete collection filter = perform (delete_one collection filter)

  -- `cursor.All`.
  abbrev pub all_of : Reply (Unit {0}) × MongoDbClient → Reply (List ℕ) × MongoDbClient
  all_of (failure f, m) = (failure f, m)
  all_of (done _, m) = elim (d.fetch m.calls) [
    | none ↦ (done (d.results m.calls), count_call m)
    | some e ↦ (failure (driver e), count_call m)
  ]

  unfoldable pub find : String → ℕ → Action (List ℕ)
  find collection filter m = all_of (perform (find_all collection filter) m)
