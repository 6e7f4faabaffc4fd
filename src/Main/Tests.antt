-- ===== src/Main/Tests.antt =====
-- Examples: an environment in which everything starts, and one request in flight.
use api_gateway.Common.{
  pos, decimal, decimal_int, String, [], Bool, true, false, none, some, ok, ◌≡◌, refl,
}
use api_gateway.Config.{Config}
use api_gateway.Main.{Environment, dsn}
use api_gateway.Main.Shutdown.{
  Process, Step, Steps, shutting_down, stays, goes, signalled, shut_down, run_returns,
}
use api_gateway.Main.Shutdown

abbrev cfg : Config
cfg = record {
  server = record { port = "8080"; environment = "test" };
  redis = record { host = "localhost"; port = pos 6379; password = ""; db = pos 0 };
  database = record {
    host = "localhost";
    port = pos 5433;
    user = "gateway";
    password = "password";
    db_name = "gateway";
    ssl_mode = "disable";
  };
  jwt = record { secret = "s3cret"; expiry_hours = pos 24 };
  analytics = record {
    enabled = true;
    retention_days = pos 90;
    batch_size = pos 100;
    flush_interval_sec = pos 5;
  };
  services = [];
  rate_limit_tiers = [];
}

abbrev env : Environment
env = record {
  Redis = Bool;
  Postgres = Bool;
  load = λ path. ok cfg;
  new_redis = λ addr password db. ok true;
  new_postgres = λ dsn_. ok true;
  auto_migrate = λ postgres. none;
}

abbrev addr : String
addr = ":8080"

dsn_cfg :
    dsn cfg.database
    ≡ "host=localhost port=5433 user=gateway password=password dbname=gateway sslmode=disable"
unfolding dsn decimal_int decimal
dsn_cfg = refl

abbrev stopping : Process
stopping = record Shutdown.serving { stage = shutting_down; listening = false }

abbrev ended : Process
ended = record stopping { connected = false; exited = some 0 }

ends : Steps Shutdown.serving ended
ends =
    goes (signalled Shutdown.serving refl refl)
      (goes (shut_down stopping refl refl refl) (stays ended))

-- After the signal, `Run` returns an error: the process ends with a request unanswered.
abbrev busy : Process
busy = record stopping { in_flight = 1 }

cut_off : Step busy (record busy { exited = some 1 })
cut_off = run_returns busy "http: Server closed" refl
