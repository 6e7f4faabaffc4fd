-- ===== src/Server.antt =====
-- internal/server/server.go: the proxies that the server makes of its configuration.
pub mod Services
pub mod Status
pub mod New
pub mod Routes
pub mod Gateway
pub mod Proxying
mod Tests
use api_gateway.Common.{
  ℕ, suc, ℤ, pos, mul_int, ◌==◌, if◌then◌else◌, String, assign, List, [], ◌∷◌, length, false,
  Option, none, some, Outcome, returns, panics, Result, ok, err,
}
use api_gateway.Config.{ServiceConfig, CircuitBreakerConfig, HealthCheckConfig}
use api_gateway.Http.{Url}
use api_gateway.LoadBalancer.Random.{Rand}
use api_gateway.CircuitBreaker
use api_gateway.HealthCheck
use api_gateway.HealthCheck.{Check}
use api_gateway.RateLimit.FixedWindow.{second}
use api_gateway.Proxy
use api_gateway.Proxy.{Proxy}
use api_gateway.Proxy.Making.{new_with_config}

-- `time.Duration(n) * time.Second`
in_seconds : ℤ → ℤ
in_seconds n = mul_int n (pos second)

pub breaker_config : Option CircuitBreakerConfig → CircuitBreaker.Config
unfolding in_seconds
breaker_config (some cfg) = record {
  max_failures = cfg.max_failures;
  timeout = in_seconds cfg.timeout_seconds;
  half_open_success = cfg.half_open_success;
}
breaker_config none = record {
  max_failures = pos 5;
  timeout = in_seconds (pos 30);
  half_open_success = pos 1;
}

pub health_config : List String → Option HealthCheckConfig → HealthCheck.Config
unfolding in_seconds
health_config targets (some cfg) = record {
  targets = targets;
  endpoint = cfg.endpoint;
  interval = in_seconds cfg.interval_seconds;
  timeout = in_seconds cfg.timeout_seconds;
  max_failures = cfg.max_failures;
}
health_config targets none = record {
  targets = targets;
  endpoint = "/health";
  interval = in_seconds (pos 10);
  timeout = in_seconds (pos 5);
  max_failures = pos 3;
}

-- A service with targets, so that the health check's are not nil.
pub proxy_config : ServiceConfig → Proxy.Config
proxy_config svc = record {
  targets = svc.targets;
  load_balancer_strategy = svc.load_balancer;
  circuit_breaker = breaker_config svc.circuit_breaker;
  health_check = health_config svc.targets svc.health_check;
  health_targets_nil = false;
}

module _ (rand : Rand) (parse : String → Result String Url) where
  open rand use {Rng}

  -- The readings of the clock and the first round of checks, for each service.
  pub record Startup : Type 0 where
    pub now : ℕ
    pub seed : ℕ
    pub clock : ℕ → ℕ
    pub checks : List Check

  -- A proxy that cannot be made is left out; one with the path of an earlier service takes its place.
  add_proxy :
      (String → Option (Proxy Rng))
      → String
      → Result String (Proxy Rng)
      → String
      → Option (Proxy Rng)
  add_proxy proxies path (err e) = proxies
  add_proxy proxies path (ok p) = assign proxies path (some p)

  -- The loop over the services, `startup i` for the service at index `i`.
  unfoldable pub initialize_from :
      (ℕ → Startup)
      → ℕ
      → (String → Option (Proxy Rng))
      → List ServiceConfig
      → Outcome (String → Option (Proxy Rng))
  unfolding add_proxy
  initialize_from startup i proxies [] = returns proxies
  initialize_from startup i proxies (svc ∷ rest) =
      let skipped = initialize_from startup (suc i) proxies rest in
      let at = startup i in
      if length svc.targets == 0
      then skipped
      else elim (new_with_config rand parse (proxy_config svc) at.now at.seed at.clock at.checks) [
        | panics ↦ panics
        | returns made ↦ initialize_from startup (suc i) (add_proxy proxies svc.path made) rest
      ]

  unfoldable pub initialize_proxies :
      (ℕ → Startup) → List ServiceConfig → Outcome (String → Option (Proxy Rng))
  initialize_proxies startup services = initialize_from startup 0 (λ _. none) services
