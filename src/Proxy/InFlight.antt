-- ===== src/Proxy/InFlight.antt =====
-- The count of connections while requests are handled side by side.
use api_gateway.Common.{
  ℕ, ◌<◌, pos, max_int, String, List, [], ◌∷◌, ◌++◌, length, Result, ◌≡◌, refl, ◌∙◌, subst, arith,
}
use api_gateway.Http.{Request, Url}
use api_gateway.LoadBalancer.{Strategy, round_robin, random, least_connections}
use api_gateway.LoadBalancer.LeastConnections.{
  LeastConnections, new_least_connections, increment_target, decrement_target,
}
use api_gateway.LoadBalancer.LeastConnections.InFlight.{
  HasRoom, count, count-le-length, Counted, new-Counted, increment_target-Counted,
  decrement_target-Counted,
}
use api_gateway.LoadBalancer.Random.{Rand}
use api_gateway.CircuitBreaker.{Instants}
use api_gateway.HealthCheck.{Checker}
use api_gateway.Proxy.{
  Proxy, Begun, refused, panicking, forwarding, Served, wrote, aborted, begin, complete, release,
  reset_circuit_breaker,
}
use api_gateway.Proxy.Connections.{Same, Between, begin-Between}

-- The targets of the requests in flight, with the one that a request goes to as it begins.
abbrev pub with_begun : Begun → List String → List String
with_begun (forwarding target url req) flying = target ∷ flying
with_begun _ flying = flying

module _ (rand : Rand) (parse : String → Result String Url) where
  open rand use {Rng}

  -- The proxies that requests lead to in any order of their steps, from one that has just been made
  -- with least connections; its breaker may be reset and its checker may change in between.
  pub data Handling : Proxy Rng → List String → Type 0 where
    made :
        (p : Proxy Rng) → p.load_balancer ≡ least_connections new_least_connections → Handling p []
    begins :
        {p : Proxy Rng} {flying : List String} (req : Request) (at : Instants)
        → length flying < max_int
        → Handling p flying
        → Handling (begin rand parse p req at).0 (with_begun (begin rand parse p req at).1 flying)
    ends :
        {p : Proxy Rng} {flying : List String} (at : Instants) (before : List String)
        (target : String) (rest : List String) (served : Served)
        → flying ≡ before ++ target ∷ rest
        → Handling p flying
        → Handling (complete p at target served).0 (before ++ rest)
    resets :
        {p : Proxy Rng} {flying : List String} (now : ℕ)
        → Handling p flying
        → Handling (reset_circuit_breaker p now) flying
    checks :
        {p : Proxy Rng} {flying : List String} (checker : Checker)
        → Handling p flying
        → Handling (record p { health_checker = checker }) flying

  abbrev pub Counts : Strategy Rng → List String → Type 0
  Counts lb flying =
      (l : LeastConnections) × (lb ≡ least_connections l)
      × ((t : String) → l.connections t ≡ pos (count t flying))

  Counts-HasRoom :
      (l : LeastConnections) (flying : List String)
      → length flying < max_int
      → Counted l flying
      → HasRoom l
  Counts-HasRoom l flying room h t =
      (count t flying, h t, omega (arith, room, count-le-length t flying))

  Same-Counts :
      (lb : Strategy Rng) (l : LeastConnections) (flying : List String)
      → Same rand parse lb l
      → ((t : String) → l.connections t ≡ pos (count t flying))
      → Counts lb flying
  Same-Counts (least_connections l') l flying same h = (l', refl, λ t. same t ∙ h t)
  Same-Counts (round_robin r) l flying same h = absurd same
  Same-Counts (random rng) l flying same h = absurd same

  Between-Counts :
      (lb : Strategy Rng) (l : LeastConnections) (begun : Begun) (flying : List String)
      → length flying < max_int
      → ((t : String) → l.connections t ≡ pos (count t flying))
      → Between rand parse lb l begun
      → Counts lb (with_begun begun flying)
  Between-Counts lb l (forwarding target url sent) flying room h e =
      (increment_target l target, e, increment_target-Counted l target flying room h)
  Between-Counts lb l (refused error) flying room h same = Same-Counts lb l flying same h
  Between-Counts lb l panicking flying room h same = Same-Counts lb l flying same h

  complete-strategy :
      (p : Proxy Rng) (at : Instants) (target : String) (served : Served) (l : LeastConnections)
      → p.load_balancer ≡ least_connections l
      → (complete p at target served).0.load_balancer
        ≡ least_connections (decrement_target l target)
  unfolding complete release
  complete-strategy p at target (wrote codes) l e = rw (e) refl
  complete-strategy p at target (aborted codes) l e = rw (e) refl

  -- Whatever the order of the requests' steps, the count of each target is the number of its requests
  -- in flight.
  pub Handling-connections :
      (p : Proxy Rng) (flying : List String)
      → Handling p flying
      → (l : LeastConnections) × (p.load_balancer ≡ least_connections l)
        × ((t : String) → l.connections t ≡ pos (count t flying))
  unfolding reset_circuit_breaker
  Handling-connections p flying (made _ e) = (_, e, new-Counted)
  Handling-connections p flying (begins {p = q} {flying = before} req at room h) =
      let (l, e, counts) = Handling-connections q before h in
      Between-Counts _ l _ before room counts
        (begin-Between rand parse q req at l e (Counts-HasRoom l before room counts))
  Handling-connections p flying (ends {p = q} {flying = all} at before target rest served same h) =
      let (l, e, counts) = Handling-connections q all h in
      (
        decrement_target l target,
        complete-strategy q at target served l e,
        decrement_target-Counted l before target rest (subst (Counted l) same counts),
      )
  Handling-connections p flying (resets {p = q} {flying = all} now h) = Handling-connections q all h
  Handling-connections p flying (checks {p = q} {flying = all} checker h) =
      Handling-connections q all h
