-- ===== src/CircuitBreaker.antt =====
-- internal/circuitbreaker: breaker.go and state.go. Instants are nanoseconds of the monotonic clock,
-- 0 is the zero time; each reading of the clock is an argument. `Call` holds the mutex in two
-- sections, before and after the function runs: `admit` and `conclude`.
pub mod Invariant
pub mod Failures
pub mod Recovery
pub mod HalfOpen
mod Tests
use api_gateway.Common.{
  ℕ, ℤ, pos, ltb_ℤ, leb_ℤ, increment, elapsed, String, Bool, true, false, Option, none, some,
  if◌then◌else◌,
}

pub data State : Type 0 where
  state_closed state_open state_half_open : State

pub to_string : State → String
to_string state_closed = "closed"
to_string state_open = "open"
to_string state_half_open = "half-open"

pub record Config : Type 0 where
  pub max_failures : ℤ
  pub timeout : ℤ
  pub half_open_success : ℤ

pub record CircuitBreaker : Type 0 where
  pub state : State
  pub failure_count : ℤ
  pub success_count : ℤ
  pub last_failure_time : ℕ
  pub last_state_change : ℕ
  pub config : Config
  pub open config use *

with_default : ℤ → ℤ → ℤ
with_default value default = if leb_ℤ value (pos 0) then default else value

pub new : Config → ℕ → CircuitBreaker
unfolding with_default
new cfg now = record {
  state = state_closed;
  failure_count = pos 0;
  success_count = pos 0;
  last_failure_time = 0;
  last_state_change = now;
  config = record {
    max_failures = with_default cfg.max_failures (pos 5);
    timeout = with_default cfg.timeout (pos 30000000000);
    half_open_success = with_default cfg.half_open_success (pos 1);
  };
}

same_state : State → State → Bool
same_state state_closed state_closed = true
same_state state_open state_open = true
same_state state_half_open state_half_open = true
same_state _ _ = false

set_state : CircuitBreaker → State → ℕ → CircuitBreaker
unfolding same_state
set_state cb new_state now =
    if same_state cb.state new_state
    then cb
    else record cb { state = new_state; last_state_change = now }

fail_in : State → CircuitBreaker → ℕ → CircuitBreaker
unfolding set_state
fail_in state_half_open cb now = record (set_state cb state_open now) { success_count = pos 0 }
fail_in _ cb now =
    if leb_ℤ cb.max_failures cb.failure_count then set_state cb state_open now else cb

-- `now` is read for the time of the failure, and `later` by `setState`.
on_failure : CircuitBreaker → ℕ → ℕ → CircuitBreaker
unfolding fail_in
on_failure cb now later =
    let failed = record cb {
      failure_count = increment cb.failure_count;
      last_failure_time = now;
    } in
    fail_in failed.state failed later

succeed_in : State → CircuitBreaker → ℕ → CircuitBreaker
unfolding set_state
succeed_in state_half_open cb now =
    let counted = record cb { success_count = increment cb.success_count } in
    if leb_ℤ counted.half_open_success counted.success_count
    then record (set_state counted state_closed now) { failure_count = pos 0 }
    else counted
succeed_in state_closed cb now = record cb { failure_count = pos 0 }
succeed_in state_open cb now = cb

on_success : CircuitBreaker → ℕ → CircuitBreaker
unfolding succeed_in
on_success cb now = succeed_in cb.state cb now

-- The first section of `Call`: whether the function is run. `now` is read by `time.Since`.
admit_in : State → CircuitBreaker → ℕ → ℕ → Bool × CircuitBreaker
unfolding set_state
admit_in state_open cb now later =
    if ltb_ℤ cb.timeout (elapsed now cb.last_failure_time)
    then (true, record (set_state cb state_half_open later) { success_count = pos 0 })
    else (false, cb)
admit_in _ cb now later = (true, cb)

unfoldable pub admit : CircuitBreaker → ℕ → ℕ → Bool × CircuitBreaker
unfolding admit_in
admit cb now later = admit_in cb.state cb now later

-- The second section of `Call`, with whether the function returned an error.
unfoldable pub conclude : CircuitBreaker → Bool → ℕ → ℕ → CircuitBreaker
unfolding on_failure on_success
conclude cb true now later = on_failure cb now later
conclude cb false now later = on_success cb later

-- The readings of the clock in one call.
pub record Instants : Type 0 where
  pub admitted : ℕ
  pub half_opened : ℕ
  pub failed : ℕ
  pub changed : ℕ

-- The error of `Call`: the breaker's own, or that of the function.
pub data CallError (E : Type 0) : Type 0 where
  circuit_open : CallError E
  from_fn : E → CallError E

module _ {E : Type 0} where
  finish : CircuitBreaker → Instants → Option E → CircuitBreaker × Option (CallError E)
  finish cb at (some e) = (conclude cb true at.failed at.changed, some (from_fn e))
  finish cb at none = (conclude cb false at.failed at.changed, none)

  pub guarded : Bool × CircuitBreaker → Instants → Option E → CircuitBreaker × Option (CallError E)
  unfolding finish
  guarded (false, cb) at result = (cb, some circuit_open)
  guarded (true, cb) at result = finish cb at result

  -- `Call` with nothing else between its sections; `result` is what the function returns if it is
  -- run.
  pub call : CircuitBreaker → Instants → Option E → CircuitBreaker × Option (CallError E)
  unfolding guarded
  call cb at result = guarded (admit cb at.admitted at.half_opened) at result

pub reset : CircuitBreaker → ℕ → CircuitBreaker
reset cb now = record cb {
  state = state_closed;
  failure_count = pos 0;
  success_count = pos 0;
  last_state_change = now;
}

pub record Metrics : Type 0 where
  pub state : State
  pub failure_count : ℤ
  pub success_count : ℤ
  pub last_failure_time : ℕ
  pub last_state_change : ℕ

pub metrics : CircuitBreaker → Metrics
metrics cb = record {
  state = cb.state;
  failure_count = cb.failure_count;
  success_count = cb.success_count;
  last_failure_time = cb.last_failure_time;
  last_state_change = cb.last_state_change;
}
