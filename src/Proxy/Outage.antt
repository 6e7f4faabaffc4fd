-- ===== src/Proxy/Outage.antt =====
-- `Handle` and the circuit breaker.
use api_gateway.Common.{
  ℕ, suc, ◌≤◌, ◌<◌, pos, ◌≤ℤ◌, max_int, elapsed, leb, if◌then◌else◌, String, str_eq, List, [], ◌∷◌,
  map, length, All, true, false, Option, none, some, Result, Bool-cases, Option-cases, Result-cases,
  Outcome-cases, ◌≡◌, refl, sym, ap, ◌∙◌, subst, ◌≢◌, ◌⊎◌, inl, inr, arith,
}
use api_gateway.Http.{Request, Url}
use api_gateway.LoadBalancer.{next}
use api_gateway.LoadBalancer.Random.{Rand}
use api_gateway.CircuitBreaker.{CircuitBreaker, Instants, call, admit, state_closed, state_open}
use api_gateway.Proxy.Forwarding.{begin-Forwards}
use api_gateway.CircuitBreaker.Recovery.{admit-false, admit-true, call_admitted}
use api_gateway.CircuitBreaker.Failures.{calls_fail, calls_fail-state}
use api_gateway.HealthCheck.{get_healthy_targets}
use api_gateway.Proxy.{
  Proxy, Begun, refused, panicking, forwarding, Served, wrote, aborted, Answer, own, forwarded,
  panicked, begin, balance, look_up, acquire, release, complete, handle, recorded, resume,
}

abbrev pub backend_failed : String
backend_failed = "backend error"

abbrev as_failure : Request × Instants → Instants × String
as_failure r = (r.1, backend_failed)

-- The error of the function that the breaker runs: an error for a status code of 500 or more.
unfoldable pub backend_error : List ℕ → Option String
backend_error codes = if leb 500 (recorded 200 codes) then some backend_failed else none

module _ (rand : Rand) (parse : String → Result String Url) where
  open rand use {Rng}

  -- The breaker `cb'` is what `Call` makes of `cb`, by the answer.
  abbrev pub Calls : CircuitBreaker → Instants → Answer → CircuitBreaker → Type 0
  Calls cb at (forwarded target codes) cb' = cb' ≡ (call cb at (backend_error codes)).0
  Calls cb at (own status_code error) cb' = (cb' ≡ cb) × (status_code ≡ 503)
  Calls cb at panicked cb' = (cb' ≡ cb) ⊎ (admit cb at.admitted at.half_opened ≡ (true, cb'))

  -- The breaker after `begin`.
  abbrev Begins : CircuitBreaker → Instants → Begun → CircuitBreaker → Type 0
  Begins cb at (forwarding target url sent) cb' = admit cb at.admitted at.half_opened ≡ (true, cb')
  Begins cb at (refused error) cb' = cb' ≡ cb
  Begins cb at panicking cb' = (cb' ≡ cb) ⊎ (admit cb at.admitted at.half_opened ≡ (true, cb'))

  look_up-Begins :
      (p : Proxy Rng) (req : Request) (at : Instants) (target : String)
      → let (p', begun) = look_up rand parse p req at target (p.proxies target) in
        Begins p.circuit_breaker at begun p'.circuit_breaker
  unfolding look_up acquire release
  look_up-Begins p req at target =
      let cb = p.circuit_breaker in
      let admitted = admit cb at.admitted at.half_opened in
      elim (Option-cases (p.proxies target)) [
        | inl none_ ↦ rw (none_) refl
        | inr (url, found) ↦ elim (Bool-cases admitted.0) [
          | inl open_ ↦ elim (Result-cases (parse target)) [
            | inl (f, q) ↦ ground (arith, found, open_, q)
            | inr (u, q) ↦ ground (arith, found, open_, q)
          ]
          | inr shut ↦ rw (found, shut) (admit-false cb at.admitted at.half_opened shut).0
        ]
      ]

  balance-Begins :
      (p : Proxy Rng) (req : Request) (at : Instants) (healthy : List String)
      → let (p', begun) = balance rand parse p req at healthy in
        Begins p.circuit_breaker at begun p'.circuit_breaker
  unfolding balance
  balance-Begins p req at [] = refl
  balance-Begins p req at (t ∷ ts) =
      let (lb, outcome) = next rand p.load_balancer (t ∷ ts) in
      elim (Outcome-cases outcome) [
        | inl e ↦ rw (e) (inl refl)
        | inr (x, e) ↦ elim (Bool-cases (str_eq x "")) [
          | inl blank ↦ rw (e, blank) refl
          | inr named ↦ rw (e, named) (look_up-Begins (record p { load_balancer = lb }) req at x)
        ]
      ]

  begin-Begins :
      (p : Proxy Rng) (req : Request) (at : Instants)
      → let (p', begun) = begin rand parse p req at in
        Begins p.circuit_breaker at begun p'.circuit_breaker
  unfolding begin
  begin-Begins p req at = balance-Begins p req at (get_healthy_targets p.health_checker)

  -- A request that the breaker does not admit.
  abbrev pub Shut : CircuitBreaker → Begun → CircuitBreaker → Type 0
  Shut cb (forwarding target url sent) cb' = ⊥
  Shut cb _ cb' = cb' ≡ cb

  Begins-Shut :
      (cb cb' : CircuitBreaker) (at : Instants) (begun : Begun)
      → (admit cb at.admitted at.half_opened).0 ≡ false
      → Begins cb at begun cb'
      → Shut cb begun cb'
  Begins-Shut cb cb' at (forwarding target url sent) shut b = absurd (cc (shut, b))
  Begins-Shut cb cb' at (refused error) shut b = b
  Begins-Shut cb cb' at panicking shut (inl b) = b
  Begins-Shut cb cb' at panicking shut (inr b) = absurd (cc (shut, b))

  -- It is not forwarded, and leaves the breaker as it is.
  pub begin-Shut :
      (p : Proxy Rng) (req : Request) (at : Instants)
      → (admit p.circuit_breaker at.admitted at.half_opened).0 ≡ false
      → let (p', begun) = begin rand parse p req at in
        Shut p.circuit_breaker begun p'.circuit_breaker
  begin-Shut p req at shut =
      let (p', begun) = begin rand parse p req at in
      Begins-Shut p.circuit_breaker p'.circuit_breaker at begun shut (begin-Begins p req at)

  wrote_Calls :
      (at : Instants) (cb : CircuitBreaker) (p : Proxy Rng) (target : String) (codes : List ℕ)
      → admit cb at.admitted at.half_opened ≡ (true, p.circuit_breaker)
      → (complete p at target (wrote codes)).0.circuit_breaker
        ≡ (call cb at (backend_error codes)).0
  unfolding complete release backend_error
  wrote_Calls at cb p target codes b = elim (Bool-cases (leb 500 (recorded 200 codes))) [
    | inl e ↦ rw (e, call_admitted cb p.circuit_breaker at (some backend_failed) b) refl
    | inr e ↦ rw (e, call_admitted {E = String} cb p.circuit_breaker at none b) refl
  ]

  resume-Calls :
      (serve : Url → Request → Served) (at : Instants) (cb : CircuitBreaker)
      (step : Proxy Rng × Begun)
      → Begins cb at step.1 step.0.circuit_breaker
      → let (p, answer) = resume rand parse serve at step in Calls cb at answer p.circuit_breaker
  unfolding resume complete release backend_error
  resume-Calls serve at cb (p, refused error) b = (b, refl)
  resume-Calls serve at cb (p, panicking) b = b
  resume-Calls serve at cb (p, forwarding target url sent) b =
      elim (serve url sent)
        as (λ served.
          let (p', answer) = complete p at target served in Calls cb at answer p'.circuit_breaker) [
            | wrote codes ↦ wrote_Calls at cb p target codes b
            | aborted codes ↦ inr b
          ]

  -- What `Handle` does to the breaker is what `Call` does: with an error if the backend's status code
  -- is 500 or more, nothing if the gateway answers by itself, which it does with 503, and the
  -- admission only, if any, if the request panics.
  pub handle-Calls :
      (serve : Url → Request → Served) (p : Proxy Rng) (req : Request) (at : Instants)
      → let (p', answer) = handle rand parse serve p req at in
        Calls p.circuit_breaker at answer p'.circuit_breaker
  unfolding handle
  handle-Calls serve p req at =
      resume-Calls serve at p.circuit_breaker (begin rand parse p req at) (begin-Begins p req at)

  -- Requests one after the other, and the answers to them.
  unfoldable pub handle_all :
      (Url → Request → Served) → Proxy Rng → List (Request × Instants) → Proxy Rng × List Answer
  handle_all serve p [] = (p, [])
  handle_all serve p ((req, at) ∷ rest) =
      let (p', answer) = handle rand parse serve p req at in
      let (p'', answers) = handle_all serve p' rest in (p'', answer ∷ answers)

  -- The backend answers with a status code of 500 or more.
  abbrev pub IsFailure : Answer → Type 0
  IsFailure (forwarded target codes) = 500 ≤ recorded 200 codes
  IsFailure _ = ⊥

  failure_Calls :
      (cb cb' : CircuitBreaker) (at : Instants) (answer : Answer)
      → IsFailure answer
      → Calls cb at answer cb'
      → cb' ≡ (call cb at (some backend_failed)).0
  unfolding backend_error
  failure_Calls cb cb' at (forwarded target codes) f c = ground (arith, f, c)
  failure_Calls cb cb' at (own status_code error) f c = absurd f
  failure_Calls cb cb' at panicked f c = absurd f

  handle_all-calls_fail :
      (serve : Url → Request → Served) (p : Proxy Rng) (reqs : List (Request × Instants))
      → let (p', answers) = handle_all serve p reqs in
        All IsFailure answers
        → p'.circuit_breaker ≡ calls_fail p.circuit_breaker (map as_failure reqs)
  unfolding handle_all calls_fail
  handle_all-calls_fail serve p [] h = refl
  handle_all-calls_fail serve p ((req, at) ∷ rest) (f, h) =
      let step = handle rand parse serve p req at in
      handle_all-calls_fail serve step.0 rest h
      ∙ ap (λ cb. calls_fail cb (map as_failure rest))
          (failure_Calls p.circuit_breaker step.0.circuit_breaker at step.1 f
            (handle-Calls serve p req at))

  length-map : {A B : Type 0} (f : A → B) (xs : List A) → length (map f xs) ≡ length xs
  length-map f [] = refl
  length-map f (x ∷ xs) = ap suc (length-map f xs)

  -- After as many failing answers in a row as a closed breaker that has counted no failure allows, the
  -- next request is not forwarded, unless the timeout has passed since the last failure.
  pub handle_all-outage :
      (serve : Url → Request → Served) (p : Proxy Rng) (reqs : List (Request × Instants)) (m : ℕ)
      (req : Request) (at : Instants) (target : String) (url : Url) (sent : Request)
      → p.circuit_breaker.state ≡ state_closed
      → p.circuit_breaker.failure_count ≡ pos 0
      → p.circuit_breaker.max_failures ≡ pos m
      → 0 < m
      → m ≤ max_int
      → length reqs ≡ m
      → let (p', answers) = handle_all serve p reqs in
        All IsFailure answers
        → elapsed at.admitted p'.circuit_breaker.last_failure_time ≤ℤ p'.circuit_breaker.timeout
        → (begin rand parse p' req at).1 ≢ forwarding target url sent
  handle_all-outage serve p reqs m req at target url sent closed none_ limit some_ small count
        failed soon e =
      let (p', answers) = handle_all serve p reqs in
      let fails = map as_failure reqs in
      let opened =
        (calls_fail-state p.circuit_breaker fails m closed none_ limit some_
            (omega (arith, length-map as_failure reqs)) small).1
          (length-map as_failure reqs ∙ count) in
      let now_open : p'.circuit_breaker.state ≡ state_open =
        subst (λ cb. cb.state ≡ state_open) (sym (handle_all-calls_fail serve p reqs failed))
          opened in
      let forwards = begin-Forwards rand parse p' req at target url sent e in
      omega
        (arith, soon, admit-true p'.circuit_breaker at.admitted at.half_opened now_open forwards.2)
