-- ===== src/Proxy/Connections.antt =====
-- The count of connections over the whole of `Handle`.
use api_gateway.Common.{
  String, str_eq, List, [], ◌∷◌, Result, Bool-cases, Option-cases, Result-cases, Outcome-cases, ◌≡◌,
  refl, inl, inr,
}
use api_gateway.Http.{Request, Url}
use api_gateway.LoadBalancer.{Strategy, round_robin, random, least_connections, next}
use api_gateway.LoadBalancer.LeastConnections.{LeastConnections, increment_target}
use api_gateway.LoadBalancer.LeastConnections.InFlight.{HasRoom, decrement_target-increment_target}
use api_gateway.LoadBalancer.Random.{Rand}
use api_gateway.CircuitBreaker.{Instants, admit}
use api_gateway.HealthCheck.{get_healthy_targets}
use api_gateway.Proxy.{
  Proxy, Begun, refused, panicking, forwarding, Served, wrote, aborted, begin, balance, look_up,
  acquire, release, complete, handle, resume,
}

module _ (rand : Rand) (parse : String → Result String Url) where
  open rand use {Rng}

  -- Both are least-connections strategies with the same counts.
  abbrev pub Same : Strategy Rng → LeastConnections → Type 0
  Same (least_connections l') l = (t : String) → l'.connections t ≡ l.connections t
  Same (round_robin r) l = ⊥
  Same (random rng) l = ⊥

  -- The strategy in between: with the target of a forwarded request counted.
  abbrev pub Between : Strategy Rng → LeastConnections → Begun → Type 0
  Between lb l (forwarding target url sent) = lb ≡ least_connections (increment_target l target)
  Between lb l _ = Same lb l

  look_up-Between :
      (p : Proxy Rng) (req : Request) (at : Instants) (l : LeastConnections) (target : String)
      → p.load_balancer ≡ least_connections l
      → HasRoom l
      → let (p', begun) = look_up rand parse p req at target (p.proxies target) in
        Between p'.load_balancer l begun
  unfolding look_up acquire release
  look_up-Between p req at l target e room =
      let admitted = admit p.circuit_breaker at.admitted at.half_opened in
      let back = λ (t : String). decrement_target-increment_target l target t room in
      elim (Option-cases (p.proxies target)) [
        | inl none_ ↦ rw (none_, e) (λ t. refl)
        | inr (url, found) ↦ elim (Bool-cases admitted.0) [
          | inl open_ ↦ elim (Result-cases (parse target)) [
            | inl (f, q) ↦ rw (found, open_, q, e) back
            | inr (u, q) ↦ rw (found, open_, q, e) refl
          ]
          | inr shut ↦ rw (found, shut, e) back
        ]
      ]

  balance-Between :
      (p : Proxy Rng) (req : Request) (at : Instants) (l : LeastConnections) (healthy : List String)
      → p.load_balancer ≡ least_connections l
      → HasRoom l
      → let (p', begun) = balance rand parse p req at healthy in Between p'.load_balancer l begun
  unfolding balance next
  balance-Between p req at l [] e room = rw (e) (λ t. refl)
  balance-Between p req at l (t ∷ ts) e room =
      let lb = (next rand p.load_balancer (t ∷ ts)).0 in
      let kept : lb ≡ least_connections l = rw (e) refl in
      elim (Outcome-cases (next rand p.load_balancer (t ∷ ts)).1) [
        | inl f ↦ rw (f, kept) (λ t. refl)
        | inr (x, f) ↦ elim (Bool-cases (str_eq x "")) [
          | inl blank ↦ rw (f, blank, kept) (λ t. refl)
          | inr named ↦
              rw (f, named) (look_up-Between (record p { load_balancer = lb }) req at l x kept room)
        ]
      ]

  -- As a request begins, only the target that it is forwarded to counts one more.
  pub begin-Between :
      (p : Proxy Rng) (req : Request) (at : Instants) (l : LeastConnections)
      → p.load_balancer ≡ least_connections l
      → HasRoom l
      → let (p', begun) = begin rand parse p req at in Between p'.load_balancer l begun
  unfolding begin
  begin-Between p req at l e room =
      balance-Between p req at l (get_healthy_targets p.health_checker) e room

  resume-Same :
      (serve : Url → Request → Served) (at : Instants) (l : LeastConnections)
      (step : Proxy Rng × Begun)
      → HasRoom l
      → Between step.0.load_balancer l step.1
      → Same (resume rand parse serve at step).0.load_balancer l
  unfolding resume complete release
  resume-Same serve at l (p, refused error) room b = b
  resume-Same serve at l (p, panicking) room b = b
  resume-Same serve at l (p, forwarding target url sent) room b =
      elim (serve url sent) as (λ served. Same (complete p at target served).0.load_balancer l) [
        | wrote codes ↦ rw (b) (λ t. decrement_target-increment_target l target t room)
        | aborted codes ↦ rw (b) (λ t. decrement_target-increment_target l target t room)
      ]

  -- Whatever becomes of a request, panics included, the counts of a least-connections strategy are
  -- after it what they were before, if they are not negative and can still grow.
  pub handle-connections :
      (serve : Url → Request → Served) (p : Proxy Rng) (req : Request) (at : Instants)
      (l : LeastConnections)
      → p.load_balancer ≡ least_connections l
      → HasRoom l
      → Same (handle rand parse serve p req at).0.load_balancer l
  unfolding handle begin
  handle-connections serve p req at l e room =
      resume-Same serve at l (begin rand parse p req at) room (begin-Between p req at l e room)
