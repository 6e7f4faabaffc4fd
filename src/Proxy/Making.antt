-- ===== src/Proxy/Making.antt =====
-- The constructors `NewWithConfig` and `New` of internal/proxy/proxy.go.
use api_gateway.Common.{
  ℕ, pos, if◌then◌else◌, String, assign, List, [], ◌∷◌, true, Option, none, some, Outcome, returns,
  panics, Result, ok, err,
}
use api_gateway.Http.{Url}
use api_gateway.LoadBalancer.{new_strategy}
use api_gateway.LoadBalancer.Random.{Rand}
use api_gateway.CircuitBreaker
use api_gateway.HealthCheck
use api_gateway.HealthCheck.{Check, new_checker, start}
use api_gateway.Proxy.{Proxy, Config}

module _ (rand : Rand) (parse : String → Result String Url) where
  open rand use {Rng}

  -- The loop that makes a reverse proxy for each target.
  unfoldable pub make_proxies :
      (String → Option Url) → List String → Result String (String → Option Url)
  make_proxies proxies [] = ok proxies
  make_proxies proxies (target ∷ targets) = elim (parse target) [
    | err e ↦ err e
    | ok url ↦ make_proxies (assign proxies target (some url)) targets
  ]

  unfoldable pub health_config : Config → HealthCheck.Config
  health_config cfg =
      if cfg.health_targets_nil
      then record cfg.health_check { targets = cfg.targets }
      else cfg.health_check

  -- `now` is read by the breaker, `seed` by the generator, `clock` by the health checker, whose first
  -- round consists of `checks`.
  unfoldable pub new_with_config :
      Config → ℕ → ℕ → (ℕ → ℕ) → List Check → Outcome (Result String (Proxy Rng))
  unfolding make_proxies health_config
  new_with_config cfg now seed clock checks = elim cfg.targets [
    | [] ↦ returns (err "at least one target is required")
    | _ ∷ _ ↦ elim (new_strategy rand cfg.load_balancer_strategy seed) [
      | err e ↦ returns (err e)
      | ok lb ↦ elim (make_proxies (λ _. none) cfg.targets) [
        | err e ↦ returns (err e)
        | ok proxies ↦ elim (start (new_checker (health_config cfg) clock) checks) [
          | panics ↦ panics
          | returns hc ↦ returns (
              ok (record {
                targets = cfg.targets;
                proxies = proxies;
                circuit_breaker = CircuitBreaker.new cfg.circuit_breaker now;
                load_balancer = lb;
                health_checker = hc;
              }))
        ]
      ]
    ]
  ]

  -- `New`, for one target and the default breaker.
  pub new : String → ℕ → ℕ → (ℕ → ℕ) → List Check → Outcome (Result String (Proxy Rng))
  new target_url now seed clock checks =
      new_with_config
        (record {
          targets = target_url ∷ [];
          load_balancer_strategy = "round-robin";
          circuit_breaker = record {
            max_failures = pos 5;
            timeout = pos 30000000000;
            half_open_success = pos 1;
          };
          health_check = record {
            targets = [];
            endpoint = "";
            interval = pos 0;
            timeout = pos 0;
            max_failures = pos 0;
          };
          health_targets_nil = true;
        })
        now seed clock checks
