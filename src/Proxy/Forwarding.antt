-- ===== src/Proxy/Forwarding.antt =====
-- Which requests are forwarded, and where to.
use mathlib.Core.List.{Memᴰ}
use api_gateway.Common.{
  String, str_eq, List, [], ◌∷◌, true, some, Result, ok, Bool-cases, Option-cases, Result-cases,
  Outcome-cases, ◌≡◌, subst, inl, inr, arith,
}
use api_gateway.Http.{Request, Url}
use api_gateway.LoadBalancer.{next}
use api_gateway.LoadBalancer.Random.{Rand}
use api_gateway.LoadBalancer.Membership.{next-returns}
use api_gateway.CircuitBreaker.{Instants, admit}
use api_gateway.HealthCheck.{get_healthy_targets}
use api_gateway.Proxy.{Proxy, Begun, forwarding, begin, balance, look_up, rewrite}

module _ (rand : Rand) (parse : String → Result String Url) where
  open rand use {Rng}

  -- What holds of a request that is forwarded to a target, among these healthy ones.
  abbrev pub Forwards : Proxy Rng → Request → Instants → List String → Begun → Type 0
  Forwards p req at healthy (forwarding target url sent) =
      Memᴰ target healthy
      × (p.proxies target ≡ some url)
      × ((admit p.circuit_breaker at.admitted at.half_opened).0 ≡ true)
      × (u : Url) × (parse target ≡ ok u)
      × (sent.host ≡ u.host)
      × (sent.url_host ≡ u.host)
      × (sent.url_scheme ≡ u.scheme)
      × (sent.method ≡ req.method)
      × (sent.path ≡ req.path)
      × (sent.headers "X-Forwarded-Host" ≡ req.headers "Host")
  Forwards p req at healthy _ = Unit

  look_up-Forwards :
      (p : Proxy Rng) (req : Request) (at : Instants) (healthy : List String) (target : String)
      → Memᴰ target healthy
      → Forwards p req at healthy (look_up rand parse p req at target (p.proxies target)).1
  unfolding look_up rewrite
  look_up-Forwards p req at healthy target m =
      let admitted = admit p.circuit_breaker at.admitted at.half_opened in
      elim (Option-cases (p.proxies target)) [
        | inl e ↦ rw (e) tt
        | inr (url, e) ↦ elim (Bool-cases admitted.0) [
          | inl open_ ↦ elim (Result-cases (parse target)) [
            | inl (f, q) ↦ ground (arith, e, open_, q)
            | inr (u, q) ↦ ground (arith, e, open_, q, m)
          ]
          | inr shut ↦ ground (arith, e, shut)
        ]
      ]

  balance-Forwards :
      (p : Proxy Rng) (req : Request) (at : Instants) (healthy : List String)
      → Forwards p req at healthy (balance rand parse p req at healthy).1
  unfolding balance
  balance-Forwards p req at [] = tt
  balance-Forwards p req at (t ∷ ts) =
      let (lb, outcome) = next rand p.load_balancer (t ∷ ts) in
      elim (Outcome-cases outcome) [
        | inl e ↦ rw (e) tt
        | inr (x, e) ↦ elim (Bool-cases (str_eq x "")) [
          | inl blank ↦ rw (e, blank) tt
          | inr named ↦
              rw (e, named)
                (look_up-Forwards (record p { load_balancer = lb }) req at (t ∷ ts) x
                  (next-returns rand p.load_balancer t ts x e))
        ]
      ]

  -- A request is forwarded only to a target that is healthy, has a proxy and parses, and only if the
  -- breaker admits it; it goes out with the target's host and scheme, and its own method and path.
  pub begin-Forwards :
      (p : Proxy Rng) (req : Request) (at : Instants) (target : String) (url : Url) (sent : Request)
      → (begin rand parse p req at).1 ≡ forwarding target url sent
      → Forwards p req at (get_healthy_targets p.health_checker) (forwarding target url sent)
  unfolding begin
  begin-Forwards p req at target url sent e =
      subst (Forwards p req at (get_healthy_targets p.health_checker)) e
        (balance-Forwards p req at (get_healthy_targets p.health_checker))
