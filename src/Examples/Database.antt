-- ===== src/Examples/Database.antt =====
-- The database provider at concrete inputs.
use paota.Common.{none, some, [], ◌==◌, if◌then◌else◌}
use paota.Schema.{external}
use paota.MongoDb.{Driver, MongoDbClient, perform, insert_one}
use paota.MongoDb.Retries.{Performed, perform-Performed}

-- The first two calls fail: a ping, and the first attempt to connect again.
abbrev restarting : Driver
restarting = record {
  connect = λ i c. if i == 1 then some (external "refused") else none;
  ping = λ i c. if i == 0 then some (external "reset") else none;
  disconnect = λ i c. none;
  run = λ i c name q. none;
  fetch = λ i. none;
  results = λ i. [];
}

abbrev old_client : MongoDbClient
old_client = record {
  client = some 900;
  mongo_config = record { uri = "mongodb://localhost"; max_pool_size = 5; db_name = "paota" };
  calls = 0;
  asked = [];
  naps = 0;
}

perform-Performed_example :
    Performed restarting
      (insert_one "results" 7)
      old_client
      (perform restarting (insert_one "results" 7) old_client).0
      (perform restarting (insert_one "results" 7) old_client).1
perform-Performed_example = perform-Performed restarting (insert_one "results" 7) old_client
