-- ===== src/Server/Tests.antt =====
-- Examples: one service with one target.
use api_gateway.Common.{
  ℕ, String, assign, [], ◌∷◌, true, Option, none, some, returns, Result, ok, ◌≡◌, refl,
}
use api_gateway.Config.{ServiceConfig}
use api_gateway.Http.{Url}
use api_gateway.LoadBalancer.{round_robin, new_strategy}
use api_gateway.LoadBalancer.RoundRobin
use api_gateway.LoadBalancer.Random.{Rand}
use api_gateway.CircuitBreaker
use api_gateway.HealthCheck.{
  start, new_checker, check_all, check_each, update_healthy_targets, select_healthy,
}
use api_gateway.Proxy.{Proxy}
use api_gateway.Proxy.Making.{new_with_config}
use mathlib.Core.List.{Memᴰ}
use api_gateway.Server.Services.{Serves, initialize_proxies-Serves}
use api_gateway.Server.{
  Startup, initialize_proxies, initialize_from, breaker_config, health_config, proxy_config,
}

abbrev zeros : Rand
zeros = record { Rng = ℕ; new_rng = λ seed. seed; intn = λ r n. (r, 0); intn-lt = λ r n h. h }

abbrev parse : String → Result String Url
parse s = ok (record { scheme = "http"; host = s })

abbrev service : ServiceConfig
service = record {
  path = "/api";
  targets = "a" ∷ [];
  load_balancer = "";
  circuit_breaker = none;
  health_check = none;
}

abbrev startup : ℕ → Startup zeros parse
startup i = record { now = 7; seed = 9; clock = λ j. j; checks = [] }

abbrev served : Proxy ℕ
served = record {
  targets = "a" ∷ [];
  proxies = assign (λ _. none) "a" (some (record { scheme = "http"; host = "a" }));
  circuit_breaker = CircuitBreaker.new (breaker_config none) 7;
  load_balancer = round_robin RoundRobin.new_round_robin;
  health_checker = record (new_checker (health_config ("a" ∷ []) none) (λ j. j)) {
    running = true;
    healthy_targets = "a" ∷ [];
  };
}

abbrev proxies : String → Option (Proxy ℕ)
proxies = assign (λ _. none) "/api" (some served)

makes : initialize_proxies zeros parse startup (service ∷ []) ≡ returns proxies
unfolding initialize_proxies initialize_from new_with_config new_strategy start check_all check_each
    update_healthy_targets select_healthy new_checker proxy_config breaker_config health_config
makes = refl

initialize_proxies-Serves_example :
    (svc : ServiceConfig) × Memᴰ svc (service ∷ []) × Serves zeros parse served "/api" svc
initialize_proxies-Serves_example =
    initialize_proxies-Serves zeros parse startup (service ∷ []) proxies "/api" served makes refl
