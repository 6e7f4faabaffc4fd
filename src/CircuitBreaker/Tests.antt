-- ===== src/CircuitBreaker/Tests.antt =====
-- Concrete lives of a breaker with the limits 2 failures, 30 ns and 2 successes.
use api_gateway.Common.{
  ℕ, ◌<◌, ◌≤◌, pos, elapsed, increment, [], ◌∷◌, true, Option, some, none, String, ◌≡◌, refl, arith,
}
use api_gateway.CircuitBreaker.{
  state_closed, state_open, state_half_open, Config, CircuitBreaker, Instants, new, admit, conclude,
  call,
}
use api_gateway.CircuitBreaker.Invariant.{
  WellFormed, admits, concludes, resets, run, run-WellFormed,
}
use api_gateway.CircuitBreaker.Failures.{calls_fail, calls_fail-state}
use api_gateway.CircuitBreaker.Recovery.{calls_succeed, calls_succeed-state}
use api_gateway.CircuitBreaker.HalfOpen.{admit_all, admit_all-open}

abbrev cfg : Config
cfg = record { max_failures = pos 2; timeout = pos 30; half_open_success = pos 2 }

abbrev at : ℕ → Instants
at t = record { admitted = t; half_opened = t; failed = t; changed = t }

abbrev fresh : CircuitBreaker
fresh = record {
  state = state_closed;
  failure_count = pos 0;
  success_count = pos 0;
  last_failure_time = 0;
  last_state_change = 1;
  config = cfg;
}

abbrev tripped : CircuitBreaker
tripped = record fresh {
  state = state_open;
  failure_count = pos 2;
  last_failure_time = 20;
  last_state_change = 20;
}

abbrev probing : CircuitBreaker
probing = record tripped { state = state_half_open; last_state_change = 51 }

abbrev refused : Option String
refused = some "refused"

abbrev fine : Option String
fine = none

abbrev failure_at : ℕ → Instants × String
failure_at t = (at t, "refused")

new-fresh : new cfg 1 ≡ fresh
unfolding new
new-fresh = refl

two_failures : calls_fail fresh (failure_at 10 ∷ failure_at 20 ∷ []) ≡ tripped
unfolding calls_fail call admit conclude increment
two_failures = refl

run-WellFormed_example : WellFormed (
    run
      (new cfg 1)
      (admits 5 5 ∷ admits 6 6 ∷ concludes true 7 7 ∷ concludes true 8 8 ∷ resets 9 ∷ []))
run-WellFormed_example = run-WellFormed cfg 1 _ (omega arith)

calls_fail-state_example :
    (1 < 2 → (calls_fail fresh (failure_at 10 ∷ [])).state ≡ state_closed)
    × (◌≡◌ {A = ℕ} 1 2 → (calls_fail fresh (failure_at 10 ∷ [])).state ≡ state_open)
calls_fail-state_example =
    calls_fail-state fresh (failure_at 10 ∷ []) 2 refl refl refl (omega arith) (omega arith)
      (omega arith)

calls_succeed-state_example :
    (2 < 2 → (calls_succeed String tripped (at 51 ∷ at 52 ∷ [])).state ≡ state_half_open)
    × (2 ≤ 2
        → ((calls_succeed String tripped (at 51 ∷ at 52 ∷ [])).state ≡ state_closed)
          × ((calls_succeed String tripped (at 51 ∷ at 52 ∷ [])).failure_count ≡ pos 0))
calls_succeed-state_example =
    calls_succeed-state String tripped (at 51) (at 52 ∷ []) 2 refl (unfold elapsed in omega arith)
      refl (omega arith) (omega arith)

admit_all-open_example :
    (admit_all tripped ((51, 51) ∷ (52, 52) ∷ (53, 53) ∷ [])).0 ≡ true ∷ true ∷ true ∷ []
admit_all-open_example =
    admit_all-open tripped 51 51 ((52, 52) ∷ (53, 53) ∷ []) refl (unfold elapsed in omega arith)
