-- ===== src/CircuitBreaker/Invariant.antt =====
-- What holds of a breaker between two sections, however the calls interleave.
use api_gateway.Common.{
  ℕ, ℤ, pos, max_int, ◌≤ℤ◌, ◌<ℤ◌, increment, List, [], ◌∷◌, Bool, true, false, ◌≡◌, ◌≢◌, arith,
}
use api_gateway.CircuitBreaker.{
  State, state_closed, state_open, state_half_open, Config, CircuitBreaker, new, admit, conclude,
  reset,
}

abbrev pub IsPositive : ℤ → Type 0
IsPositive a = (pos 0 <ℤ a) × (a ≤ℤ pos max_int)

pub record WellFormed (cb : CircuitBreaker) : Type 0 where
  pub max_failures_pos : IsPositive cb.max_failures
  pub timeout_pos : pos 0 <ℤ cb.timeout
  pub half_open_success_pos : IsPositive cb.half_open_success
  pub closed_below :
      cb.state ≡ state_closed → (pos 0 ≤ℤ cb.failure_count) × (cb.failure_count <ℤ cb.max_failures)
  pub half_open_below :
      cb.state ≡ state_half_open
      → (pos 0 ≤ℤ cb.success_count) × (cb.success_count <ℤ cb.half_open_success)

-- A configuration that fits `int`.
pub record FitsInt (cfg : Config) : Type 0 where
  pub max_failures : cfg.max_failures ≤ℤ pos max_int
  pub half_open_success : cfg.half_open_success ≤ℤ pos max_int

pub new-WellFormed : (cfg : Config) (now : ℕ) → FitsInt cfg → WellFormed (new cfg now)
unfolding new
new-WellFormed cfg now h = ground arith

-- One locked section, by any of the requests in flight or by the admin handler.
pub data Section : Type 0 where
  admits : (now later : ℕ) → Section
  concludes : (failed : Bool) (now later : ℕ) → Section
  resets : (now : ℕ) → Section

pub step : CircuitBreaker → Section → CircuitBreaker
step cb (admits now later) = (admit cb now later).1
step cb (concludes failed now later) = conclude cb failed now later
step cb (resets now) = reset cb now

pub run : CircuitBreaker → List Section → CircuitBreaker
run cb [] = cb
run cb (s ∷ ss) = run (step cb s) ss

admit-WellFormed :
    (cb : CircuitBreaker) (now later : ℕ) → WellFormed cb → WellFormed (admit cb now later).1
unfolding admit
admit-WellFormed cb now later w = ground arith

conclude-WellFormed :
    (cb : CircuitBreaker) (failed : Bool) (now later : ℕ)
    → WellFormed cb
    → WellFormed (conclude cb failed now later)
unfolding conclude increment
conclude-WellFormed cb true now later w = ground arith
conclude-WellFormed cb false now later w = ground arith

-- Every section, of any request, keeps the breaker well formed.
pub step-WellFormed : (cb : CircuitBreaker) (s : Section) → WellFormed cb → WellFormed (step cb s)
unfolding step reset
step-WellFormed cb (admits now later) w = admit-WellFormed cb now later w
step-WellFormed cb (concludes failed now later) w = conclude-WellFormed cb failed now later w
step-WellFormed cb (resets now) w = ground arith

run-WellFormed-from :
    (cb : CircuitBreaker) (ss : List Section) → WellFormed cb → WellFormed (run cb ss)
unfolding run
run-WellFormed-from cb [] w = w
run-WellFormed-from cb (s ∷ ss) w = run-WellFormed-from (step cb s) ss (step-WellFormed cb s w)

-- So a new breaker stays well formed under any interleaving of requests and resets: its limits are
-- positive, a closed breaker has counted fewer failures than `maxFailures`, and a half-open one
-- fewer successes than `halfOpenSuccess`.
pub run-WellFormed :
    (cfg : Config) (now : ℕ) (ss : List Section) → FitsInt cfg → WellFormed (run (new cfg now) ss)
run-WellFormed cfg now ss h = run-WellFormed-from (new cfg now) ss (new-WellFormed cfg now h)

-- The state diagram of `Call`: a closed breaker may open, an open one may let a request probe, and
-- a half-open one may close or open again.
abbrev pub may_follow : State → State → Bool
may_follow state_closed state_half_open = false
may_follow state_open state_closed = false
may_follow _ _ = true

pub record Stamped (cb : CircuitBreaker) (later : ℕ) (after : CircuitBreaker) : Type 0 where
  pub edge : may_follow cb.state after.state ≡ true
  pub kept : after.state ≡ cb.state → after.last_state_change ≡ cb.last_state_change
  pub changed : after.state ≢ cb.state → after.last_state_change ≡ later
  pub settings : after.config ≡ cb.config

-- Each section of `Call` follows the state diagram, stamps the time of a change of state, leaves
-- that time alone where the state stays, and never touches the configuration.
pub sections-Stamped :
    (cb : CircuitBreaker) (failed : Bool) (now later : ℕ)
    → Stamped cb later (admit cb now later).1 × Stamped cb later (conclude cb failed now later)
unfolding admit conclude
sections-Stamped cb true now later = (ground arith, ground arith)
sections-Stamped cb false now later = (ground arith, ground arith)
