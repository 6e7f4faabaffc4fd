-- ===== src/Server/Proxying/Open.antt =====
-- Requests to a proxy whose circuit breaker is open.
use api_gateway.Common.{
  String, List, [], ◌∷◌, ◌++◌, append_assoc, false, Result, ◌≡◌, refl, sym, ap, ◌∙◌, subst, ◌⊎◌,
  inl, inr,
}
use api_gateway.Http.{Request, Url}
use api_gateway.LoadBalancer.Random.{Rand}
use api_gateway.CircuitBreaker.{CircuitBreaker, Instants, admit}
use api_gateway.Proxy.{Proxy, Begun, refused, panicking, forwarding, Served, begin}
use api_gateway.Proxy.Outage.{Shut, begin-Shut}
use api_gateway.Middleware.Auth.{api_key_validator-state}
use api_gateway.Middleware.Context.{Call, json, Context, Flow, done, panicked, Gin}
use api_gateway.Middleware.Chain.{Parts, setup_middleware}
use api_gateway.Middleware.Chain.Logged.{gates, identified, logged, failed, serve-logged}
use api_gateway.Middleware.Chain.Gates.{
  judged, rated, preflight, bad_key, refused as refused_by, broken, passed, gates-Gate,
}
use api_gateway.Server.Routes.Guarded.{Refusal, status_of-Refusal}
use api_gateway.Server.Proxying.{beside_proxy, proxy_endpoint, proceed, validate, limit}

-- The ends of an answer that no backend gives.
abbrev pub OwnAnswer : Call → Type 0
OwnAnswer last = Refusal last ⊎ (last ≡ json 503)

module _ {World : Type 0} (rand : Rand) (parse : String → Result String Url)
    (parts_ : Parts World) where
  open rand use {Rng}

  parts : Parts (World × Proxy Rng)
  parts = beside_proxy parts_

  module _ (gin : Gin (World × Proxy Rng)) where
    open gin use {run, run_last}

    -- The answer of the gates and the endpoint: one of the gateway's own, or a panic, and the breaker as
    -- it is.
    abbrev Unforwarded :
        Context (World × Proxy Rng) → CircuitBreaker → Flow (World × Proxy Rng) → Type 0
    Unforwarded c cb flow =
        ((d : Context (World × Proxy Rng)) × (last : Call) × (written : List Call) × (flow ≡ done d)
          × (d.calls ≡ written ++ last ∷ [])
          × OwnAnswer last
          × (d.world.1.circuit_breaker ≡ cb))
        ⊎ ((d : Context (World × Proxy Rng)) × (flow ≡ panicked d))

    judged-proxy : (c : Context (World × Proxy Rng)) → (judged gin parts c).0.1 ≡ c.world.1
    unfolding parts beside_proxy validate
    judged-proxy c =
        elim (api_key_validator-state (validate parts_) parts_.trim_space c.world c.request) [
          | inl e ↦ ap (λ w. w.1) e
          | inr e ↦ ap (λ w. w.1) e
        ]

    rated-proxy : (c : Context (World × Proxy Rng)) → (rated gin parts c).0.1 ≡ c.world.1
    unfolding parts beside_proxy limit
    rated-proxy c = judged-proxy c

    proceed-Unforwarded :
        (serve : Url → Request → Served) (at : Instants) (c d : Context (World × Proxy Rng))
        (cb : CircuitBreaker) (step : Proxy Rng × Begun)
        → Shut rand parse cb step.1 step.0.circuit_breaker
        → Unforwarded c cb (proceed rand parse serve at d step)
    unfolding proceed
    proceed-Unforwarded serve at c d cb (p, refused error) shut =
        inl (_, json 503, d.calls, refl, refl, inr refl, shut)
    proceed-Unforwarded serve at c d cb (p, panicking) shut = inr (_, refl)
    proceed-Unforwarded serve at c d cb (p, forwarding target url sent) shut = absurd shut

    -- Behind the gates.
    gates-Unforwarded :
        (serve : Url → Request → Served) (at : Instants) (c : Context (World × Proxy Rng))
        → c.aborted ≡ false
        → (admit c.world.1.circuit_breaker at.admitted at.half_opened).0 ≡ false
        → Unforwarded c c.world.1.circuit_breaker
            (run (gates parts (proxy_endpoint rand parse serve at ∷ [])) c)
    unfolding proxy_endpoint
    gates-Unforwarded serve at c fresh shut =
        let cb_of : (World × Proxy Rng) → CircuitBreaker = λ w. w.1.circuit_breaker in
        elim (gates-Gate gin parts c fresh) [
          | preflight m (d, w, a, (b, e), f) ↦
              inl
                (d, _, c.calls ++ b, f _, e ∙ sym (append_assoc c.calls b _), inl refl, ap cb_of w)
          | bad_key m v (d, w, a, (b, e), f) ↦ inl (
            d,
            _,
            c.calls ++ b,
            f _,
            e ∙ sym (append_assoc c.calls b _),
            inl (inl refl),
            ap cb_of w ∙ ap (λ p. p.circuit_breaker) (judged-proxy c),
          )
          | refused_by m v n s (d, w, a, (b, e), f) ↦ inl (
            d,
            _,
            c.calls ++ b,
            f _,
            e ∙ sym (append_assoc c.calls b _),
            inl (status_of-Refusal _ n s),
            ap cb_of w ∙ ap (λ p. p.circuit_breaker) (rated-proxy c),
          )
          | broken m v p d more f ↦ inr (d, f _)
          | passed m v h p d more w a same k f ↦
              let proxy_same : d.world.1 ≡ c.world.1 = ap (λ x. x.1) w ∙ rated-proxy c in
              let shut_at : (p : Proxy Rng) → Type 0 =
                λ p. (admit p.circuit_breaker at.admitted at.half_opened).0 ≡ false in
              let step = begin rand parse d.world.1 d.request at in
              let stays =
                begin-Shut rand parse d.world.1 d.request at
                  (subst shut_at (sym proxy_same) shut) in
              subst (Unforwarded c c.world.1.circuit_breaker)
                (sym (f _ ∙ run_last (proxy_endpoint rand parse serve at) d a))
                (proceed-Unforwarded serve at c d c.world.1.circuit_breaker step (
                  subst (λ p. Shut rand parse p.circuit_breaker step.1 step.0.circuit_breaker)
                    proxy_same stays))
        ]

    -- While the breaker of its proxy is open and its timeout has not passed, a request is answered by
    -- the gateway, with 503, 204, 401, 429 or 500, whatever the backends would do.
    pub serve-OwnAnswer :
        (serve : Url → Request → Served) (at : Instants) (c : Context (World × Proxy Rng))
        → c.aborted ≡ false
        → (admit c.world.1.circuit_breaker at.admitted at.half_opened).0 ≡ false
        → (d : Context (World × Proxy Rng)) × (last : Call) × (written : List Call) × (run
              (setup_middleware (beside_proxy parts_) ++ proxy_endpoint rand parse serve at ∷ [])
              c
            ≡ done d)
          × (d.calls ≡ written ++ last ∷ [])
          × OwnAnswer last
    unfolding parts identified logged failed
    serve-OwnAnswer serve at c fresh shut =
        let c1 = identified parts c in
        let unforwarded = gates-Unforwarded serve at c1 fresh shut in
        elim (serve-logged gin parts (proxy_endpoint rand parse serve at ∷ []) c fresh) [
          | inr (d, f, r) ↦ (failed d, json 500, d.calls, r, refl, inl (inr (inr refl)))
          | inl (d, f, r) ↦ elim unforwarded [
            | inr (d', g) ↦ absurd (cc (f, g))
            | inl (d', last, written, g, calls, own, same) ↦
                let is : d' ≡ d = cc (f, g) in
                (logged parts c d, last, written, r, ap (λ x. x.calls) (sym is) ∙ calls, own)
          ]
        ]
