-- ===== src/Handler/System.antt =====
-- internal/handler/systemHandler.go: the breakers and the health of the proxies, by the service's path.
use api_gateway.Common.{ℕ, String, assign, List, map, length, Option, none, some}
use api_gateway.CircuitBreaker
use api_gateway.HealthCheck
use api_gateway.Proxy.{
  Proxy, circuit_breaker_metrics, reset_circuit_breaker, get_health_status, healthy_targets_of,
  all_targets_of, overall_health_of,
}
use api_gateway.Handler.Keys.{Response, failure, success}

-- The entries of the map of proxies, in the order in which it is ranged over.
pub record BreakerStatus : Type 0 where
  pub path : String
  pub state : String
  pub metrics : CircuitBreaker.Metrics

pub record ServiceHealth : Type 0 where
  pub path : String
  pub overall_health : String
  pub healthy_count : ℕ
  pub total_count : ℕ
  pub healthy_targets : List String
  pub all_targets : List String
  pub target_status : String → Option HealthCheck.Status

module _ {Rng : Type 0} where
  pub circuit_breaker_status : List (String × Proxy Rng) → List BreakerStatus
  circuit_breaker_status proxies =
      map
        (λ entry. record {
          path = entry.0;
          state = CircuitBreaker.to_string (circuit_breaker_metrics entry.1).state;
          metrics = circuit_breaker_metrics entry.1;
        })
        proxies

  reset_found :
      (String → Option (Proxy Rng))
      → String
      → ℕ
      → Option (Proxy Rng)
      → (String → Option (Proxy Rng)) × Response String
  reset_found proxies service now none = (proxies, failure 404)
  reset_found proxies service now (some p) =
      (assign proxies service (some (reset_circuit_breaker p now)), success 200 service)

  -- `ResetCircuitBreaker` for the path parameter `service`.
  pub reset_breaker_of :
      (String → Option (Proxy Rng)) → String → ℕ → (String → Option (Proxy Rng)) × Response String
  unfolding reset_found
  reset_breaker_of proxies service now = reset_found proxies service now (proxies service)

  pub service_health_status : List (String × Proxy Rng) → List ServiceHealth
  service_health_status proxies =
      map
        (λ entry. record {
          path = entry.0;
          overall_health = HealthCheck.to_string (overall_health_of entry.1);
          healthy_count = length (healthy_targets_of entry.1);
          total_count = length (all_targets_of entry.1);
          healthy_targets = healthy_targets_of entry.1;
          all_targets = all_targets_of entry.1;
          target_status = get_health_status entry.1;
        })
        proxies
