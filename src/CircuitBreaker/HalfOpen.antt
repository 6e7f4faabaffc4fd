-- ===== src/CircuitBreaker/HalfOpen.antt =====
-- Requests that overlap a change of state.
use api_gateway.Common.{
  ℕ, ◌<ℤ◌, increment, elapsed, List, [], ◌∷◌, length, replicate, Bool, true, false, ◌≡◌, refl,
  arith,
}
use api_gateway.CircuitBreaker.{state_open, state_half_open, CircuitBreaker, admit, conclude}

-- Requests that arrive before any of them is done: the instants are those that each reads.
pub admit_all : CircuitBreaker → List (ℕ × ℕ) → List Bool × CircuitBreaker
admit_all cb [] = ([], cb)
admit_all cb ((now, later) ∷ rest) =
    let (admitted, cb') = admit cb now later in
    let (others, last) = admit_all cb' rest in (admitted ∷ others, last)

half_open_admits :
    (cb : CircuitBreaker) (xs : List (ℕ × ℕ))
    → cb.state ≡ state_half_open
    → admit_all cb xs ≡ (replicate (length xs) true, cb)
unfolding admit_all admit
half_open_admits cb [] s = refl
half_open_admits cb ((now, later) ∷ xs) s = ground (arith, half_open_admits cb xs s)

-- There is no limit on the requests in a half-open breaker: once the timeout has passed, each of
-- any number of requests that arrive before the first is done goes through to the backend.
pub admit_all-open :
    (cb : CircuitBreaker) (now later : ℕ) (xs : List (ℕ × ℕ))
    → cb.state ≡ state_open
    → cb.timeout <ℤ elapsed now cb.last_failure_time
    → (admit_all cb ((now, later) ∷ xs)).0 ≡ replicate (length ((now, later) ∷ xs)) true
unfolding admit_all admit
admit_all-open cb now later xs s t =
    ground (arith, half_open_admits (admit cb now later).1 xs (ground arith))

-- A request that was admitted earlier and is done while the breaker is open: a failure restarts the
-- timeout, a success changes nothing.
pub conclude-open :
    (cb : CircuitBreaker) (now later : ℕ)
    → cb.state ≡ state_open
    → (conclude cb false now later ≡ cb)
      × (conclude cb true now later
          ≡ record cb { failure_count = increment cb.failure_count; last_failure_time = now })
unfolding conclude
conclude-open cb now later s = ground arith
