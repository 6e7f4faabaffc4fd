-- ===== src/Proxy/Tests.antt =====
-- Examples: one target, a breaker that opens after two failures, and a backend that answers 500.
use api_gateway.Common.{
  ℕ, pos, ◌≤ℤ◌, increment, remainder, elapsed, String, assign, List, [], ◌∷◌, All, true, false,
  none, some, returns, Result, ok, ◌≡◌, refl, sym, subst, ◌≢◌, arith,
}
use api_gateway.Http.{Request, Url}
use api_gateway.LoadBalancer.{round_robin, least_connections, next, new_strategy}
use api_gateway.LoadBalancer.LeastConnections
use api_gateway.LoadBalancer.RoundRobin
use api_gateway.LoadBalancer.LeastConnections.{LeastConnections, increment_target, scan}
use api_gateway.LoadBalancer.LeastConnections.InFlight.{HasRoom}
use api_gateway.LoadBalancer.Random.{Rand}
use api_gateway.CircuitBreaker
use api_gateway.CircuitBreaker.{CircuitBreaker, Instants, state_closed, admit, conclude}
use api_gateway.HealthCheck
use api_gateway.HealthCheck.{
  Checker, start, new_checker, get_healthy_targets, check_all, check_each, update_healthy_targets,
  select_healthy,
}
use api_gateway.Proxy.{
  Proxy, Config, Served, wrote, Answer, forwarded, forwarding, begin, handle, rewrite, recorded,
  complete, release, acquire,
}
use api_gateway.Proxy.Making.{new_with_config, health_config}
use api_gateway.Proxy.Forwarding.{Forwards, begin-Forwards}
use api_gateway.Proxy.InFlight.{made as just_made, begins, with_begun, Handling-connections}
use api_gateway.LoadBalancer.LeastConnections.{LeastConnections, new_least_connections}
use api_gateway.LoadBalancer.LeastConnections.InFlight.{count}
use api_gateway.Proxy.{Begun}
use api_gateway.Proxy.Outage.{Calls, IsFailure, handle_all, handle_all-outage, handle-Calls}

abbrev zeros : Rand
zeros = record { Rng = ℕ; new_rng = λ seed. seed; intn = λ r n. (r, 0); intn-lt = λ r n h. h }

-- Every text parses, as a host.
abbrev parse : String → Result String Url
parse s = ok (record { scheme = "http"; host = s })

abbrev url_a : Url
url_a = record { scheme = "http"; host = "a" }

abbrev idle : LeastConnections
idle = record { connections = λ t. pos 0 }

abbrev checker : Checker
checker = record {
  targets = "a" ∷ [];
  health_status = λ t. none;
  healthy_targets = "a" ∷ [];
  endpoint = "/health";
  interval = pos 10;
  timeout = pos 5;
  max_failures = pos 3;
  stop_closed = false;
  running = true;
}

abbrev breaker : CircuitBreaker
breaker = record {
  state = state_closed;
  failure_count = pos 0;
  success_count = pos 0;
  last_failure_time = 0;
  last_state_change = 1;
  config = record { max_failures = pos 2; timeout = pos 30; half_open_success = pos 1 };
}

abbrev proxy : Proxy ℕ
proxy = record {
  targets = "a" ∷ [];
  proxies = λ t. some (record { scheme = "http"; host = t });
  circuit_breaker = breaker;
  load_balancer = least_connections idle;
  health_checker = checker;
}

abbrev req : Request
req = record {
  method = "GET";
  path = "/";
  url_scheme = "";
  url_host = "";
  host = "gateway";
  headers = λ name. "";
  client_ip = "10.0.0.1";
}

abbrev at : ℕ → Instants
at t = record { admitted = t; half_opened = t; failed = t; changed = t }

abbrev failing : Url → Request → Served
failing url sent = wrote (500 ∷ [])

idle_room : HasRoom idle
idle_room = λ t. (0, refl, omega arith)

begin_forwarding : (begin zeros parse proxy req (at 5)).1 ≡ forwarding "a" url_a (rewrite req url_a)
unfolding begin get_healthy_targets next LeastConnections.next scan admit
begin_forwarding = refl

begin-Forwards_example :
    Forwards zeros parse proxy req
      (at 5)
      (get_healthy_targets checker)
      (forwarding "a" url_a (rewrite req url_a))
begin-Forwards_example =
    begin-Forwards zeros parse proxy req (at 5) "a" url_a (rewrite req url_a) begin_forwarding

-- One request in flight.
abbrev fresh : Proxy ℕ
fresh = record proxy { load_balancer = least_connections new_least_connections }

abbrev one : Proxy ℕ × Begun
one = begin zeros parse fresh req (at 5)

Handling-connections_example :
    (l : LeastConnections) × (one.0.load_balancer ≡ least_connections l)
    × ((t : String) → l.connections t ≡ pos (count t (with_begun one.1 [])))
Handling-connections_example =
    Handling-connections zeros parse one.0 (with_begun one.1 [])
      (begins req (at 5) (omega arith) (just_made fresh refl))

-- The same with a breaker that opens after one failure, in turns.
abbrev strict : Proxy ℕ
strict = record proxy {
  circuit_breaker = record breaker {
    config = record { max_failures = pos 1; timeout = pos 30; half_open_success = pos 1 };
  };
  load_balancer = round_robin RoundRobin.new_round_robin;
}

abbrev after_failure : Proxy ℕ × List Answer
after_failure = handle_all zeros parse failing strict ((req, at 5) ∷ [])

failure_answers : after_failure.1 ≡ forwarded "a" (500 ∷ []) ∷ []
unfolding handle_all handle begin complete get_healthy_targets next RoundRobin.next
    RoundRobin.new_round_robin remainder admit
failure_answers = refl

fails : All (IsFailure zeros parse) after_failure.1
unfolding recorded
fails = subst (All (IsFailure zeros parse)) (sym failure_answers) (omega arith, tt)

failure_time :
    (after_failure.0.circuit_breaker.last_failure_time ≡ 5)
    × (after_failure.0.circuit_breaker.timeout ≡ pos 30)
unfolding handle_all handle begin complete release acquire get_healthy_targets next RoundRobin.next
    RoundRobin.new_round_robin remainder admit conclude recorded increment
failure_time = (refl, refl)

soon_after :
    elapsed 20 after_failure.0.circuit_breaker.last_failure_time
    ≤ℤ after_failure.0.circuit_breaker.timeout
unfolding elapsed
soon_after = rw (failure_time.0, failure_time.1) (omega arith)

handle_all-outage_example :
    (begin zeros parse after_failure.0 req (at 20)).1 ≢ forwarding "a" url_a (rewrite req url_a)
handle_all-outage_example =
    handle_all-outage zeros parse failing strict ((req, at 5) ∷ []) 1 req (at 20) "a" url_a
      (rewrite req url_a) refl refl refl (omega arith) (omega arith) refl fails soon_after

handle-Calls_example :
    Calls zeros parse strict.circuit_breaker
      (at 5)
      (handle zeros parse failing strict req (at 5)).1
      (handle zeros parse failing strict req (at 5)).0.circuit_breaker
handle-Calls_example = handle-Calls zeros parse failing strict req (at 5)

abbrev cfg : Config
cfg = record {
  targets = "a" ∷ [];
  load_balancer_strategy = "";
  circuit_breaker = breaker.config;
  health_check = record {
    targets = [];
    endpoint = "";
    interval = pos 0;
    timeout = pos 0;
    max_failures = pos 0;
  };
  health_targets_nil = true;
}

abbrev made : HealthCheck.Checker
made = record (new_checker (health_config zeros parse cfg) (λ i. i)) {
  running = true;
  healthy_targets = "a" ∷ [];
}

abbrev made_proxy : Proxy ℕ
made_proxy = record {
  targets = "a" ∷ [];
  proxies = assign (λ _. none) "a" (some url_a);
  circuit_breaker = CircuitBreaker.new breaker.config 7;
  load_balancer = round_robin RoundRobin.new_round_robin;
  health_checker = made;
}

makes : new_with_config zeros parse cfg 7 9 (λ i. i) [] ≡ returns (ok made_proxy)
unfolding new_with_config new_strategy start check_all check_each update_healthy_targets
    select_healthy new_checker
makes = refl
