-- ===== src/Proxy/Construction.antt =====
-- What the constructor makes of a configuration.
use api_gateway.Common.{
  ℕ, ◌<◌, String, str_eq, eq_iff, assign, assign_self, List, [], ◌∷◌, length, All, Option, none,
  some, returns, Result, ok, Bool-cases, Result-cases, Outcome-cases, ◌≡◌, refl, subst, inl, inr,
  arith,
}
use api_gateway.Http.{Url}
use api_gateway.LoadBalancer.{new_strategy}
use api_gateway.LoadBalancer.Random.{Rand}
use api_gateway.CircuitBreaker
use api_gateway.CircuitBreaker.{CircuitBreaker}
use api_gateway.HealthCheck.{Check, start, new_checker}
use api_gateway.Proxy.{Proxy, Config}
use api_gateway.Proxy.Making.{new_with_config, make_proxies, health_config}

ok_injective : {A : Type 0} {a b : A} → (r : Result String A) → r ≡ ok a → r ≡ ok b → a ≡ b
ok_injective r e f = cc

module _ (rand : Rand) (parse : String → Result String Url) where
  open rand use {Rng}

  -- A target parses, and has the proxy of what it parses to.
  abbrev pub HasProxy : (String → Option Url) → String → Type 0
  HasProxy proxies target = (u : Url) × (parse target ≡ ok u) × (proxies target ≡ some u)

  -- A further assignment keeps the targets that have their proxy.
  assign-HasProxy :
      (proxies : String → Option Url) (target : String) (u : Url) (t : String)
      → parse target ≡ ok u
      → HasProxy proxies t
      → HasProxy (assign proxies target (some u)) t
  assign-HasProxy proxies target u t e (v, q, p) = elim (Bool-cases (str_eq target t)) [
    | inl same ↦ (u, subst (λ x. parse x ≡ ok u) ((eq_iff target t).0 same) e, rw (same) refl)
    | inr other ↦ (v, q, rw (other) p)
  ]

  -- The loop keeps the targets that have their proxy, and adds the others'.
  make_proxies-HasProxy :
      (proxies proxies' : String → Option Url) (targets : List String)
      → make_proxies rand parse proxies targets ≡ ok proxies'
      → ((t : String) → HasProxy proxies t → HasProxy proxies' t) × All (HasProxy proxies') targets
  unfolding make_proxies
  make_proxies-HasProxy proxies proxies' [] e =
      let same : proxies ≡ proxies' = cc in (λ t h. subst (λ q. HasProxy q t) same h, tt)
  make_proxies-HasProxy proxies proxies' (target ∷ targets) e = elim (Result-cases (parse target)) [
    | inl (f, q) ↦ absurd (ground (arith, q, e))
    | inr (u, q) ↦
        let (keep, rest) =
          make_proxies-HasProxy (assign proxies target (some u)) proxies' targets
            (ground (arith, q, e)) in
        (
          λ t h. keep t (assign-HasProxy proxies target u t q h),
          (keep target (u, q, assign_self proxies target (some u)), rest),
        )
  ]

  -- A proxy that is made has at least one target, a proxy for each, and is closed; its strategy is the
  -- one that the configuration names, and the health checker is started.
  pub new_with_config-HasProxy :
      (cfg : Config) (now seed : ℕ) (clock : ℕ → ℕ) (checks : List Check) (p : Proxy Rng)
      → new_with_config rand parse cfg now seed clock checks ≡ returns (ok p)
      → (0 < length cfg.targets)
        × All (HasProxy p.proxies) cfg.targets
        × (new_strategy rand cfg.load_balancer_strategy seed ≡ ok p.load_balancer)
        × (p.circuit_breaker ≡ CircuitBreaker.new cfg.circuit_breaker now)
        × (start (new_checker (health_config rand parse cfg) clock) checks
            ≡ returns p.health_checker)
  unfolding new_with_config
  new_with_config-HasProxy cfg now seed clock checks p e =
      elim (Result-cases (new_strategy rand cfg.load_balancer_strategy seed)) [
        | inl (f, q) ↦ absurd (ground (arith, q, e))
        | inr (lb, q) ↦ elim (Result-cases (make_proxies rand parse (λ _. none) cfg.targets)) [
          | inl (f, r) ↦ absurd (ground (arith, q, r, e))
          | inr (proxies, r) ↦
              elim (Outcome-cases
                (start (new_checker (health_config rand parse cfg) clock) checks)) [
                  | inl s ↦ absurd (ground (arith, q, r, s, e))
                  | inr (hc, s) ↦
                      let has = (make_proxies-HasProxy (λ _. none) proxies cfg.targets r).1 in
                      ground (arith, q, r, s, e, has)
                ]
        ]
      ]
