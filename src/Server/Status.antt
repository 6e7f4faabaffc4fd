-- ===== src/Server/Status.antt =====
-- internal/server/server.go: what the server says of itself, the settings of its listener, and its end.
use api_gateway.Common.{
  ℕ, ◌*◌, ◌/◌, ℤ, elapsed, if◌then◌else◌, String, List, [], ◌∷◌, length, Bool, true, false, not,
  ◌||◌, Option, none, some, Outcome, returns, panics, Result, ok, err,
}
use api_gateway.Repository.ApiKeys.{ApiKey}
use api_gateway.RateLimit.FixedWindow.{second}
use api_gateway.Proxy.{Proxy, stop_proxy}

pub record HealthReport : Type 0 where
  pub status_code : ℕ
  pub status : String
  pub service : String
  pub version : String
  pub timestamp : ℕ
  pub redis : Bool
  pub database : Bool

is_healthy : {Fault : Type 0} → Option Fault → Bool
is_healthy none = true
is_healthy (some e) = false

-- `GET /health`, by the pings of Redis and of the database.
unfoldable pub health_check :
    {Fault Fault' : Type 0} → Option Fault → Option Fault' → ℕ → HealthReport
unfolding is_healthy
health_check redis_ping db_ping now =
    let redis_healthy = is_healthy redis_ping in
    let db_healthy = is_healthy db_ping in
    let degraded = not redis_healthy || not db_healthy in
    record {
      status_code = if degraded then 503 else 200;
      status = if degraded then "degraded" else "healthy";
      service = "api-gateway";
      version = "1.0.0";
      timestamp = now / second;
      redis = redis_healthy;
      database = db_healthy;
    }

-- `uptime` is in nanoseconds.
pub record StatusReport : Type 0 where
  pub gateway : String
  pub services : ℕ
  pub api_keys : ℕ
  pub uptime : ℤ
  pub timestamp : ℕ

-- The list that is left when the error is dropped.
keys_or_nil : {Fault : Type 0} → Result Fault (List ApiKey) → List ApiKey
keys_or_nil (err e) = []
keys_or_nil (ok keys) = keys

unfoldable pub admin_status :
    {Fault : Type 0}
    → Result Fault (List ApiKey)
    → (services start_time now later : ℕ) → StatusReport
unfolding keys_or_nil
admin_status keys services start_time now later = record {
  gateway = "running";
  services = services;
  api_keys = length (keys_or_nil keys);
  uptime = elapsed now start_time;
  timestamp = later / second;
}

-- The settings of the `http.Server` that `Run` makes.
pub record HttpServer : Type 0 where
  pub addr : String
  pub read_timeout : ℕ
  pub write_timeout : ℕ
  pub idle_timeout : ℕ

unfoldable pub http_server : String → HttpServer
http_server addr = record {
  addr = addr;
  read_timeout = 15 * second;
  write_timeout = 15 * second;
  idle_timeout = 15 * second;
}

close_server : (HttpServer → Option String) → Option HttpServer → Option String
close_server close none = none
close_server close (some server) = close server

module _ {Rng : Type 0} where
  -- The loop of `Shutdown` over the proxies, in the order in which the map is ranged over.
  unfoldable pub stop_all : List (Proxy Rng) → Outcome (List (Proxy Rng))
  stop_all [] = returns []
  stop_all (p ∷ ps) = elim (stop_proxy p) [
    | panics ↦ panics
    | returns p' ↦ elim (stop_all ps) [ panics ↦ panics | returns ps' ↦ returns (p' ∷ ps') ]
  ]

  -- The HTTP server is nil unless `Run` was called; `close` is its own `Shutdown`.
  unfoldable pub shutdown :
      (HttpServer → Option String)
      → List (Proxy Rng)
      → Option HttpServer
      → Outcome (List (Proxy Rng) × Option String)
  unfolding close_server
  shutdown close proxies server = elim (stop_all proxies) [
    | panics ↦ panics
    | returns stopped ↦ returns (stopped, close_server close server)
  ]
