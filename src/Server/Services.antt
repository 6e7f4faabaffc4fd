-- ===== src/Server/Services.antt =====
-- Which services are served, and by what.
use api_gateway.Common.{
  ℕ, suc, ◌<◌, ◌==◌, String, str_eq, eq_iff, List, [], ◌∷◌, length, All, Option, none, some,
  returns, Result, ok, err, Bool-cases, Outcome-cases, ◌≡◌, refl, subst, inl, inr, arith,
}
use mathlib.Core.List.{Memᴰ}
use api_gateway.Config.{ServiceConfig}
use api_gateway.Http.{Url}
use api_gateway.LoadBalancer.{new_strategy}
use api_gateway.LoadBalancer.Random.{Rand}
use api_gateway.Proxy.{Proxy}
use api_gateway.Proxy.Making.{new_with_config}
use api_gateway.Proxy.Construction.{HasProxy, new_with_config-HasProxy}
use api_gateway.Server.{Startup, initialize_proxies, initialize_from, add_proxy, proxy_config}

module _ (rand : Rand) (parse : String → Result String Url) where
  open rand use {Rng}

  -- The proxy under a path belongs to a service of the configuration with that path, and has the
  -- strategy that it names and a reverse proxy for each of its targets.
  unfoldable pub Serves : Proxy Rng → String → ServiceConfig → Type 0
  Serves p path svc =
      (svc.path ≡ path)
      × (0 < length svc.targets)
      × All (HasProxy rand parse p.proxies) svc.targets
      × ((seed : ℕ) × (new_strategy rand svc.load_balancer seed ≡ ok p.load_balancer))

  Mapped : List ServiceConfig → (String → Option (Proxy Rng)) → Type 0
  Mapped services proxies =
      (path : String) (p : Proxy Rng)
      → proxies path ≡ some p
      → (svc : ServiceConfig) × Memᴰ svc services × Serves p path svc

  made-Serves :
      (svc : ServiceConfig) (at : Startup rand parse) (p : Proxy Rng)
      → new_with_config rand parse (proxy_config svc) at.now at.seed at.clock at.checks
        ≡ returns (ok p)
      → Serves p svc.path svc
  unfolding Serves proxy_config
  made-Serves svc at p e =
      let (some_, has, strategy, _, _) =
        new_with_config-HasProxy rand parse (proxy_config svc) at.now at.seed at.clock at.checks p
          e in
      (refl, some_, has, (at.seed, strategy))

  add-Mapped :
      (services : List ServiceConfig) (svc : ServiceConfig) (at : Startup rand parse)
      (proxies : String → Option (Proxy Rng)) (made : Result String (Proxy Rng))
      → new_with_config rand parse (proxy_config svc) at.now at.seed at.clock at.checks
        ≡ returns made
      → Memᴰ svc services
      → Mapped services proxies
      → Mapped services (add_proxy rand parse proxies svc.path made)
  unfolding add_proxy Mapped
  add-Mapped services svc at proxies (err e) h m mapped = mapped
  add-Mapped services svc at proxies (ok q) h m mapped = λ path p found.
      elim (Bool-cases (str_eq svc.path path)) [
        | inl same ↦
            let is : q ≡ p = ground (arith, same, found) in
            (
              svc,
              m,
              subst (λ x. Serves p x svc) ((eq_iff svc.path path).0 same)
                  (subst (λ x. Serves x svc.path svc) is (made-Serves svc at q h)),
            )
        | inr other ↦ mapped path p (ground (arith, other, found))
      ]

  initialize_from-Mapped :
      (all : List ServiceConfig) (startup : ℕ → Startup rand parse) (i : ℕ)
      (proxies proxies' : String → Option (Proxy Rng)) (services : List ServiceConfig)
      → ((svc : ServiceConfig) → Memᴰ svc services → Memᴰ svc all)
      → Mapped all proxies
      → initialize_from rand parse startup i proxies services ≡ returns proxies'
      → Mapped all proxies'
  unfolding initialize_from
  initialize_from-Mapped all startup i proxies proxies' [] sub mapped e =
      let same : proxies ≡ proxies' = cc in subst (Mapped all) same mapped
  initialize_from-Mapped all startup i proxies proxies' (svc ∷ rest) sub mapped e =
      let at = startup i in
      elim (Bool-cases (length svc.targets == 0)) [
        | inl none_ ↦
            initialize_from-Mapped all startup (suc i) proxies proxies' rest
              (λ s m. sub s (Memᴰ.tail m)) mapped (ground (arith, none_, e))
        | inr some_ ↦
            elim (Outcome-cases
              (new_with_config rand parse (proxy_config svc) at.now at.seed at.clock at.checks)) [
                | inl p ↦ absurd (ground (arith, some_, p, e))
                | inr (made, p) ↦
                    initialize_from-Mapped all startup (suc i)
                      (add_proxy rand parse proxies svc.path made) proxies' rest
                      (λ s m. sub s (Memᴰ.tail m))
                      (add-Mapped all svc at proxies made p (sub svc (Memᴰ.head refl)) mapped)
                      (ground (arith, some_, p, e))
              ]
      ]

  -- Every proxy that the server routes to serves a service of the configuration under the service's
  -- path, with the strategy that it names and a reverse proxy for each of its targets.
  pub initialize_proxies-Serves :
      (startup : ℕ → Startup rand parse) (services : List ServiceConfig)
      (proxies : String → Option (Proxy Rng)) (path : String) (p : Proxy Rng)
      → initialize_proxies rand parse startup services ≡ returns proxies
      → proxies path ≡ some p
      → (svc : ServiceConfig) × Memᴰ svc services × Serves p path svc
  unfolding initialize_proxies Mapped
  initialize_proxies-Serves startup services proxies path p e found =
      initialize_from-Mapped services startup 0 (λ _. none) proxies services (λ s m. m)
        (λ path_ q h. absurd (cc)) e path p found
