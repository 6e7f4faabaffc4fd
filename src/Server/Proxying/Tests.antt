-- ===== src/Server/Proxying/Tests.antt =====
-- Examples: a proxy with one target, whose breaker has just opened.
use api_gateway.Common.{
  ℕ, pos, elapsed, String, List, [], ◌∷◌, ◌++◌, true, false, none, some, Result, ok, ◌≡◌, refl,
}
use api_gateway.Http.{Request, Url}
use api_gateway.LoadBalancer.{round_robin}
use api_gateway.LoadBalancer.RoundRobin
use api_gateway.LoadBalancer.Random.{Rand}
use api_gateway.CircuitBreaker.{Instants, state_open, admit}
use api_gateway.Proxy.{Proxy, Served, wrote}
use api_gateway.Middleware.Context.{Call, Context, done}
use api_gateway.Middleware.Sequence.{run, sequence, counting, request_for, unseen}
use api_gateway.Middleware.Chain.{setup_middleware}
use api_gateway.Server.Proxying.{beside_proxy, proxy_endpoint}
use api_gateway.Server.Proxying.Open.{OwnAnswer, serve-OwnAnswer}

abbrev zeros : Rand
zeros = record { Rng = ℕ; new_rng = λ seed. seed; intn = λ r n. (r, 0); intn-lt = λ r n h. h }

abbrev parse : String → Result String Url
parse s = ok (record { scheme = "http"; host = s })

abbrev broken : Proxy ℕ
broken = record {
  targets = "a" ∷ [];
  proxies = λ t. some (record { scheme = "http"; host = t });
  circuit_breaker = record {
    state = state_open;
    failure_count = pos 1;
    success_count = pos 0;
    last_failure_time = 100;
    last_state_change = 100;
    config = record { max_failures = pos 1; timeout = pos 30; half_open_success = pos 1 };
  };
  load_balancer = round_robin RoundRobin.new_round_robin;
  health_checker = record {
    targets = "a" ∷ [];
    health_status = λ t. none;
    healthy_targets = "a" ∷ [];
    endpoint = "/health";
    interval = pos 10000000000;
    timeout = pos 5000000000;
    max_failures = pos 3;
    stop_closed = false;
    running = true;
  };
}

abbrev at : Instants
at = record { admitted = 110; half_opened = 111; failed = 112; changed = 113 }

abbrev asked : Context (ℕ × Proxy ℕ)
asked = unseen (0, broken) (request_for "/api/items" "")

abbrev answers : Url → Request → Served
answers url req = wrote (200 ∷ [])

shut : (admit broken.circuit_breaker 110 111).0 ≡ false
unfolding admit elapsed
shut = refl

serve-OwnAnswer_example :
    (d : Context (ℕ × Proxy ℕ)) × (last : Call) × (written : List Call) × (run
        (setup_middleware (beside_proxy counting) ++ proxy_endpoint zeros parse answers at ∷ [])
        asked
      ≡ done d)
    × (d.calls ≡ written ++ last ∷ [])
    × OwnAnswer last
serve-OwnAnswer_example =
    serve-OwnAnswer zeros parse counting (sequence (ℕ × Proxy ℕ)) answers at asked refl shut
