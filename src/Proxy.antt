-- ===== src/Proxy.antt =====
-- internal/proxy/proxy.go. `Handle` runs for many requests at once; what it does to the shared state
-- stands in two steps: `begin`, up to the call of `ServeHTTP`, and `complete`, from its end on. The
-- parameters are math/rand, `url.Parse`, and what the backends answer.
pub mod Making
pub mod Forwarding
pub mod Connections
pub mod InFlight
pub mod Outage
pub mod Construction
mod Tests
use api_gateway.Common.{
  ℕ, leb, if◌then◌else◌, String, str_eq, assign, List, [], ◌∷◌, Bool, true, false, Option, none,
  some, Outcome, returns, panics, Result, ok, err,
}
use api_gateway.Http.{Request, Url}
use api_gateway.LoadBalancer
use api_gateway.LoadBalancer.{Strategy, least_connections, next}
use api_gateway.LoadBalancer.Random.{Rand}
use api_gateway.LoadBalancer.LeastConnections.{increment_target, decrement_target}
use api_gateway.CircuitBreaker
use api_gateway.CircuitBreaker.{CircuitBreaker, Instants, admit, conclude}
use api_gateway.HealthCheck
use api_gateway.HealthCheck.{Checker, stop, get_healthy_targets}

-- `health_targets_nil` says whether the field `Targets` of the health check is nil.
pub record Config : Type 0 where
  pub targets : List String
  pub load_balancer_strategy : String
  pub circuit_breaker : CircuitBreaker.Config
  pub health_check : HealthCheck.Config
  pub health_targets_nil : Bool

pub record Proxy (Rng : Type 0) : Type 0 where
  pub targets : List String
  pub proxies : String → Option Url
  pub circuit_breaker : CircuitBreaker
  pub load_balancer : Strategy Rng
  pub health_checker : Checker

-- What `ServeHTTP` does: the status codes that it writes, and whether it ends or panics.
pub data Served : Type 0 where
  wrote : List ℕ → Served
  aborted : List ℕ → Served

-- How far a request comes before `ServeHTTP`: the gateway's own answer 503 with an error, a panic, or
-- the target that it goes to and the request as it is forwarded.
pub data Begun : Type 0 where
  refused : String → Begun
  panicking : Begun
  forwarding : String → Url → Request → Begun

pub data Answer : Type 0 where
  own : (status_code : ℕ) → String → Answer
  forwarded : String → List ℕ → Answer
  panicked : Answer

-- The status code that `responseRecorder` has recorded in the end: that of the last `WriteHeader`.
pub recorded : ℕ → List ℕ → ℕ
recorded status_code [] = status_code
recorded status_code (code ∷ codes) = recorded code codes

-- The request as it goes to the backend.
pub rewrite : Request → Url → Request
rewrite req target =
    let headers = assign req.headers "X-Forwarded-Host" (req.headers "Host") in
    record req {
      url_host = target.host;
      url_scheme = target.scheme;
      host = target.host;
      headers =
          if str_eq req.client_ip ""
          then headers
          else assign headers "X-Forwarded-For" req.client_ip;
    }

module _ {Rng : Type 0} where
  acquire_with : Strategy Rng → String → Strategy Rng
  acquire_with (least_connections l) target = least_connections (increment_target l target)
  acquire_with lb target = lb

  pub acquire : Proxy Rng → String → Proxy Rng
  unfolding acquire_with
  acquire p target = record p { load_balancer = acquire_with p.load_balancer target }

  release_with : Strategy Rng → String → Strategy Rng
  release_with (least_connections l) target = least_connections (decrement_target l target)
  release_with lb target = lb

  -- The deferred `Decrement`.
  pub release : Proxy Rng → String → Proxy Rng
  unfolding release_with
  release p target = record p { load_balancer = release_with p.load_balancer target }

  -- The end of `Handle`, `at` for the readings of the clock after the function has run.
  pub complete : Proxy Rng → Instants → String → Served → Proxy Rng × Answer
  complete p at target (aborted codes) = (release p target, panicked)
  complete p at target (wrote codes) =
      let failed = leb 500 (recorded 200 codes) in
      let cb = conclude p.circuit_breaker failed at.failed at.changed in
      (release (record p { circuit_breaker = cb }) target, forwarded target codes)

module _ (rand : Rand) (parse : String → Result String Url) where
  open rand use {Rng}

  -- Inside the function that the breaker runs, up to `ServeHTTP`; `proxy_url` is that of the target's
  -- proxy. A target that does not parse is a nil pointer.
  dispatch : Proxy Rng → Request → String → Url → Result String Url → Proxy Rng × Begun
  dispatch p req target proxy_url (err _) = (release p target, panicking)
  dispatch p req target proxy_url (ok url) = (p, forwarding target proxy_url (rewrite req url))

  enter : Proxy Rng → Request → String → Url → Bool × CircuitBreaker → Proxy Rng × Begun
  unfolding dispatch
  enter p req target proxy_url (false, cb) = (
    release (record p { circuit_breaker = cb }) target,
    refused "Service temporarily unavailable",
  )
  enter p req target proxy_url (true, cb) =
      dispatch (record p { circuit_breaker = cb }) req target proxy_url (parse target)

  look_up : Proxy Rng → Request → Instants → String → Option Url → Proxy Rng × Begun
  unfolding enter
  look_up p req at target none = (p, refused "Internal server error")
  look_up p req at target (some proxy_url) =
      enter (acquire p target) req target proxy_url
        (admit p.circuit_breaker at.admitted at.half_opened)

  select : Proxy Rng → Request → Instants → Outcome String → Proxy Rng × Begun
  unfolding look_up
  select p req at panics = (p, panicking)
  select p req at (returns target) =
      if str_eq target ""
      then (p, refused "Failed to select backend server")
      else look_up p req at target (p.proxies target)

  balance : Proxy Rng → Request → Instants → List String → Proxy Rng × Begun
  unfolding select
  balance p req at [] = (p, refused "No healthy backend servers available")
  balance p req at (t ∷ ts) =
      let (lb, selected) = next rand p.load_balancer (t ∷ ts) in
      select (record p { load_balancer = lb }) req at selected

  pub begin : Proxy Rng → Request → Instants → Proxy Rng × Begun
  unfolding balance
  begin p req at = balance p req at (get_healthy_targets p.health_checker)

  -- `serve` is what the backend at a URL does with a request.
  resume : (Url → Request → Served) → Instants → Proxy Rng × Begun → Proxy Rng × Answer
  resume serve at (p, refused error) = (p, own 503 error)
  resume serve at (p, panicking) = (p, panicked)
  resume serve at (p, forwarding target url req) = complete p at target (serve url req)

  -- `Handle` with no other request in between.
  pub handle : (Url → Request → Served) → Proxy Rng → Request → Instants → Proxy Rng × Answer
  unfolding resume
  handle serve p req at = resume serve at (begin p req at)

module _ {Rng : Type 0} where
  pub circuit_breaker_state : Proxy Rng → CircuitBreaker.State
  circuit_breaker_state p = p.circuit_breaker.state

  pub circuit_breaker_metrics : Proxy Rng → CircuitBreaker.Metrics
  circuit_breaker_metrics p = CircuitBreaker.metrics p.circuit_breaker

  pub reset_circuit_breaker : Proxy Rng → ℕ → Proxy Rng
  reset_circuit_breaker p now = record p {
    circuit_breaker = CircuitBreaker.reset p.circuit_breaker now;
  }

  pub stop_proxy : Proxy Rng → Outcome (Proxy Rng)
  stop_proxy p = elim (stop p.health_checker) [
    | panics ↦ panics
    | returns hc ↦ returns (record p { health_checker = hc })
  ]

  pub get_health_status : Proxy Rng → String → Option HealthCheck.Status
  get_health_status p = HealthCheck.get_all_status p.health_checker

  pub healthy_targets_of : Proxy Rng → List String
  healthy_targets_of p = get_healthy_targets p.health_checker

  pub all_targets_of : Proxy Rng → List String
  all_targets_of p = HealthCheck.get_all_targets p.health_checker

  pub overall_health_of : Proxy Rng → HealthCheck.HealthStatus
  overall_health_of p = HealthCheck.overall_health p.health_checker
