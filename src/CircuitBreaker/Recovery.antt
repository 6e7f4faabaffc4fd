-- ===== src/CircuitBreaker/Recovery.antt =====
-- How an open breaker rejects, and how it recovers.
use mathlib.Core.Option
use native.Mathlib.Decide.{dec_lt}
use api_gateway.Common.{
  ℕ, suc, ◌+◌, ◌≤◌, ◌<◌, pos, ◌≤ℤ◌, ◌<ℤ◌, max_int, increment, elapsed, List, [], ◌∷◌, length, true,
  false, Option, none, some, ◌≡◌, refl, ◌↔◌, arith,
}
use api_gateway.CircuitBreaker.{
  state_closed, state_open, state_half_open, CircuitBreaker, Instants, circuit_open, from_fn, call,
  admit, conclude,
}

-- A breaker that does not admit a call stays as it is, and is open.
pub admit-false :
    (cb : CircuitBreaker) (now later : ℕ)
    → (admit cb now later).0 ≡ false
    → ((admit cb now later).1 ≡ cb) × (cb.state ≡ state_open)
unfolding admit
admit-false cb now later e = ground (arith, e)

-- An open breaker admits a call only after its timeout.
pub admit-true :
    (cb : CircuitBreaker) (now later : ℕ)
    → cb.state ≡ state_open
    → (admit cb now later).0 ≡ true
    → cb.timeout <ℤ elapsed now cb.last_failure_time
unfolding admit
admit-true cb now later s e = ground (arith, e)

-- A call that is admitted ends as its two sections do.
pub call_admitted :
    {E : Type 0} (cb cb' : CircuitBreaker) (at : Instants) (result : Option E)
    → admit cb at.admitted at.half_opened ≡ (true, cb')
    → (call cb at result).0
      ≡ conclude cb' (elim result [ none ↦ false | some _ ↦ true ]) at.failed at.changed
unfolding call
call_admitted cb cb' at none e = rw (e) refl
call_admitted cb cb' at (some x) e = rw (e) refl

module _ {E : Type 0} where
  -- While its timeout has not passed, an open breaker rejects: the outcome does not depend on the
  -- function, and the breaker stays as it is.
  pub call_rejects :
      (cb : CircuitBreaker) (at : Instants) (result : Option E)
      → cb.state ≡ state_open
      → elapsed at.admitted cb.last_failure_time ≤ℤ cb.timeout
      → call cb at result ≡ (cb, some circuit_open)
  unfolding call admit
  call_rejects cb at result s h = ground arith

  -- `Call` reports the open circuit exactly then, and in every other case it runs the function and
  -- hands its error on unchanged.
  pub call-eq-circuit_open_iff :
      (cb : CircuitBreaker) (at : Instants) (result : Option E)
      → let rejecting =
          (cb.state ≡ state_open) × (elapsed at.admitted cb.last_failure_time ≤ℤ cb.timeout) in
        (((call cb at result).1 ≡ some circuit_open) ↔ rejecting)
        × (¬ rejecting → (call cb at result).1 ≡ Option.map from_fn result)
  unfolding call admit
  call-eq-circuit_open_iff cb at none = ((λ h. ground arith, λ h. ground arith), λ h. ground arith)
  call-eq-circuit_open_iff cb at (some e) =
      ((λ h. ground arith, λ h. ground arith), λ h. ground arith)

  -- A failed probe opens the breaker again for a full timeout from the failure.
  pub probe_fails :
      (cb : CircuitBreaker) (at : Instants) (e : E) (at' : Instants) (result : Option E)
      → cb.state ≡ state_half_open
      → elapsed at'.admitted at.failed ≤ℤ cb.timeout
      → let after = (call cb at (some e)).0 in
        (after.state ≡ state_open)
        × (after.success_count ≡ pos 0)
        × (call after at' result ≡ (after, some circuit_open))
  unfolding call admit conclude
  probe_fails cb at e at' result s h = ground arith

module _ (E : Type 0) where
  -- Requests one after the other whose functions all succeed.
  pub calls_succeed : CircuitBreaker → List Instants → CircuitBreaker
  calls_succeed cb [] = cb
  calls_succeed cb (at ∷ rest) =
      let result : Option E = none in calls_succeed (call cb at result).0 rest

  closed_succeed :
      (cb : CircuitBreaker) (xs : List Instants)
      → cb.state ≡ state_closed
      → cb.failure_count ≡ pos 0
      → let after = calls_succeed cb xs in
        (after.state ≡ state_closed) × (after.failure_count ≡ pos 0)
  unfolding calls_succeed call admit conclude
  closed_succeed cb [] s f = (s, f)
  closed_succeed cb (at ∷ xs) s f =
      let result : Option E = none in
      closed_succeed (call cb at result).0 xs (ground arith) (ground arith)

  half_open_succeed :
      (cb : CircuitBreaker) (xs : List Instants) (n h : ℕ)
      → cb.state ≡ state_half_open
      → cb.success_count ≡ pos n
      → cb.half_open_success ≡ pos h
      → n < h
      → h ≤ max_int
      → let after = calls_succeed cb xs in
        (n + length xs < h → after.state ≡ state_half_open)
        × (h ≤ n + length xs → (after.state ≡ state_closed) × (after.failure_count ≡ pos 0))
  unfolding calls_succeed call admit conclude increment
  half_open_succeed cb [] n h s c e p k = (λ _. s, λ q. absurd (omega arith))
  half_open_succeed cb (at ∷ xs) n h s c e p k = elim (dec_lt (suc n) h) [
    | yes more ↦
        let result : Option E = none in
        ground (
          arith,
          half_open_succeed (call cb at result).0 xs (suc n) h (ground arith) (ground arith)
              (ground arith) more k,
        )
    | no last ↦
        let result : Option E = none in
        ground (arith, closed_succeed (call cb at result).0 xs (ground arith) (ground arith))
  ]

  -- Once the timeout has passed since the last failure, requests that succeed take an open breaker
  -- half-open, and close it, with its failures forgotten, as soon as they reach `halfOpenSuccess`.
  pub calls_succeed-state :
      (cb : CircuitBreaker) (at : Instants) (xs : List Instants) (h : ℕ)
      → cb.state ≡ state_open
      → cb.timeout <ℤ elapsed at.admitted cb.last_failure_time
      → cb.half_open_success ≡ pos h
      → 0 < h
      → h ≤ max_int
      → let after = calls_succeed cb (at ∷ xs) in
        (suc (length xs) < h → after.state ≡ state_half_open)
        × (h ≤ suc (length xs) → (after.state ≡ state_closed) × (after.failure_count ≡ pos 0))
  unfolding calls_succeed call admit conclude increment
  calls_succeed-state cb at xs h s t e p k = elim (dec_lt 1 h) [
    | yes more ↦
        let result : Option E = none in
        ground (
          arith,
          half_open_succeed (call cb at result).0 xs 1 h (ground arith) (ground arith)
              (ground arith) more k,
        )
    | no last ↦
        let result : Option E = none in
        ground (arith, closed_succeed (call cb at result).0 xs (ground arith) (ground arith))
  ]
