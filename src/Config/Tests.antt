-- ===== src/Config/Tests.antt =====
-- A small configuration whose secret comes from the environment.
use api_gateway.Common.{
  pos, ◌<ℤ◌, if◌then◌else◌, String, str_eq, [], ◌∷◌, true, none, Result, ok, ◌≡◌, refl, ◌≢◌, ◌↔◌,
}
use api_gateway.Config.{Config, apply_env_overrides, override, validate, load, check_services}
use api_gateway.Config.Validity.{IsComplete, with_expiry, load_iff}

abbrev raw : Config
raw = record {
  server = record { port = "8080"; environment = "development" };
  redis = record { host = "redis"; port = pos 6379; password = ""; db = pos 0 };
  database = record {
    host = "db";
    port = pos 5432;
    user = "gateway";
    password = "";
    db_name = "gateway";
    ssl_mode = "disable";
  };
  jwt = record { secret = ""; expiry_hours = pos 0 };
  analytics = record {
    enabled = true;
    retention_days = pos 30;
    batch_size = pos 100;
    flush_interval_sec = pos 5;
  };
  services =
      record {
        path = "/api";
        targets = "http://a" ∷ [];
        load_balancer = "";
        circuit_breaker = none;
        health_check = none;
      }
      ∷ [];
  rate_limit_tiers = [];
}

abbrev env : String → String
env name = if str_eq name "JWT_SECRET" then "s3cret" else ""

abbrev read_file : String → Result String String
read_file path = ok "{}"

abbrev unmarshal : String → Result String Config
unmarshal file = ok raw

abbrev loaded : Config
loaded = record raw { jwt = record { secret = "s3cret"; expiry_hours = pos 24 } }

load-loaded : load read_file unmarshal env "config.json" ≡ ok loaded
unfolding load apply_env_overrides override validate check_services
load-loaded = refl

load_iff_example :
    ((load read_file unmarshal env "config.json" ≡ ok loaded) ↔ (
      (file : String) × (r : Config) × (read_file "config.json" ≡ ok file)
      × (unmarshal file ≡ ok r)
      × IsComplete (apply_env_overrides env r)
      × (loaded ≡ with_expiry (apply_env_overrides env r))))
    × (load read_file unmarshal env "config.json" ≡ ok loaded
        → (pos 0 <ℤ pos 24) × (env "JWT_SECRET" ≢ "" → "s3cret" ≡ env "JWT_SECRET"))
load_iff_example = load_iff read_file unmarshal env "config.json" loaded
