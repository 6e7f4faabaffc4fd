-- ===== src/CircuitBreaker/Failures.antt =====
-- How a closed breaker opens: `maxFailures` failures with no success in between.
use api_gateway.Common.{
  ℕ, suc, ◌+◌, ◌<◌, ◌≤◌, pos, max_int, increment, List, [], ◌∷◌, length, some, ◌≡◌, arith,
}
use api_gateway.CircuitBreaker.{
  state_closed, state_open, CircuitBreaker, Instants, call, admit, conclude,
}

module _ {E : Type 0} where
  -- Requests one after the other whose functions all return an error.
  unfoldable pub calls_fail : CircuitBreaker → List (Instants × E) → CircuitBreaker
  calls_fail cb [] = cb
  calls_fail cb ((at, e) ∷ rest) = calls_fail (call cb at (some e)).0 rest

  call_fails :
      (cb : CircuitBreaker) (at : Instants) (e : E) (n m : ℕ)
      → cb.state ≡ state_closed
      → cb.failure_count ≡ pos n
      → cb.max_failures ≡ pos m
      → n < m
      → m ≤ max_int
      → let after = (call cb at (some e)).0 in
        (after.failure_count ≡ pos (suc n))
        × (after.max_failures ≡ pos m)
        × (suc n < m → after.state ≡ state_closed)
        × (suc n ≡ m → after.state ≡ state_open)
        × (after.last_failure_time ≡ at.failed)
  unfolding call admit conclude increment
  call_fails cb at e n m s f c h k = ground arith

  calls_fail_from :
      (cb : CircuitBreaker) (xs : List (Instants × E)) (n m : ℕ)
      → cb.state ≡ state_closed
      → cb.failure_count ≡ pos n
      → cb.max_failures ≡ pos m
      → n + length xs ≤ m
      → m ≤ max_int
      → let after = calls_fail cb xs in
        (after.failure_count ≡ pos (n + length xs))
        × (0 < length xs → n + length xs ≡ m → after.state ≡ state_open)
        × (n + length xs < m → after.state ≡ state_closed)
  unfolding calls_fail
  calls_fail_from cb [] n m s f c h k = ground arith
  calls_fail_from cb ((at, e) ∷ []) n m s f c h k = ground (arith, call_fails cb at e n m s f c)
  calls_fail_from cb ((at, e) ∷ y ∷ ys) n m s f c h k =
      let (counted, limit, still, _, _) = call_fails cb at e n m s f c (omega arith) k in
      let after = (call cb at (some e)).0 in
      ground (
        arith,
        calls_fail_from after (y ∷ ys) (suc n) m (still (omega arith)) counted limit (omega arith)
            k,
      )

  -- Failing requests in a row leave a closed breaker that has counted no failure closed while they
  -- are fewer than `maxFailures`, and open it when they reach that number.
  pub calls_fail-state :
      (cb : CircuitBreaker) (xs : List (Instants × E)) (m : ℕ)
      → cb.state ≡ state_closed
      → cb.failure_count ≡ pos 0
      → cb.max_failures ≡ pos m
      → 0 < m
      → length xs ≤ m
      → m ≤ max_int
      → (length xs < m → (calls_fail cb xs).state ≡ state_closed)
        × (length xs ≡ m → (calls_fail cb xs).state ≡ state_open)
  calls_fail-state cb xs m s f c p h k = ground (arith, calls_fail_from cb xs 0 m s f c)
