-- ===== src/Server/Routes/Guarded.antt =====
-- Requests that no route serves.
use api_gateway.Common.{
  ℕ, String, List, [], ◌∷◌, ◌++◌, All, append_assoc, false, Option, none, some, Result, ◌≡◌, refl,
  sym, ap, ◌∙◌, subst, ◌⊎◌, inl, inr,
}
use mathlib.Core.List.{Memᴰ}
use api_gateway.Http.{Request}
use api_gateway.Repository.Users.{User}
use api_gateway.Middleware.Context.{
  Call, set_header, json, abort_with_status, relayed, Context, Flow, done, Handler, Gin,
}
use api_gateway.Middleware.Auth.{AuthVerdict, unauthorized}
use api_gateway.Middleware.Tiers
use api_gateway.Middleware.Tiers.{Verdict, check_failed, limited, passes, status_of}
use api_gateway.Middleware.Chain.{check_auth, Parts}
use api_gateway.Middleware.Chain.Settled.{check_auth-Settles, check_auth-unauthorized}
use api_gateway.Middleware.Chain.Logged.{gates}
use api_gateway.Middleware.Chain.Gates.{
  judged, rated, preflight, bad_key, refused, broken, passed, gates-Gate,
}
use api_gateway.Handler.Accounts
use api_gateway.Server.Routes.{
  Route, Endpoints, admin_routes, auth_routes, me_endpoint, user_id, code,
}

All-Mem : {A : Type 0} (P : A → Type 0) {x : A} {xs : List A} → Memᴰ x xs → All P xs → P x
All-Mem P (Memᴰ.head e) h = subst P (sym e) h.0
All-Mem P (Memᴰ.tail m) h = All-Mem P m h.1

-- The ends of an answer that no route gives.
abbrev pub Refusal : Call → Type 0
Refusal (json n) = (n ≡ 401) ⊎ ((n ≡ 429) ⊎ (n ≡ 500))
Refusal (abort_with_status n) = n ≡ 204
Refusal (set_header name value) = ⊥
Refusal (relayed status_codes) = ⊥

pub status_of-Refusal : (verdict : Verdict) (n : ℕ) → status_of verdict ≡ some n → Refusal (json n)
unfolding status_of
status_of-Refusal check_failed n e = inr (inr (cc))
status_of-Refusal (limited h retry_after) n e = inr (inl (cc))
status_of-Refusal (passes h) n e = absurd (cc)
status_of-Refusal Tiers.panicked n e = absurd (cc)

module _ {World : Type 0} (gin : Gin World) (parts : Parts World) where
  open gin use {run, run_last, run_pending}

  -- The answer ends with a refusal, and the state is as the validator or the limiter leave it; or the
  -- limiter panics.
  abbrev pub TurnedAway : Context World → Flow World → Type 0
  TurnedAway c flow =
      ((d : Context World) × (last : Call) × (written : List Call) × (flow ≡ done d)
        × (d.calls ≡ c.calls ++ (written ++ last ∷ []))
        × Refusal last
        × ((d.world ≡ c.world)
            ⊎ ((d.world ≡ (judged gin parts c).0) ⊎ (d.world ≡ (rated gin parts c).0))))
      ⊎ ((rated gin parts c).1 ≡ Tiers.panicked)

  -- Routes that only refuse.
  abbrev Refuses : List (Handler World) → Context World → Type 0
  Refuses routes c =
      (d : Context World)
      → d.aborted ≡ false
      → d.request ≡ c.request
      → d.claims ≡ c.claims
      → (d' : Context World) × (run routes d ≡ done d')
        × (d'.calls ≡ d.calls ++ json 401 ∷ [])
        × (d'.world ≡ d.world)

  Refuses-TurnedAway :
      (routes : List (Handler World)) (c : Context World)
      → c.aborted ≡ false
      → Refuses routes c
      → TurnedAway c (run (gates parts routes) c)
  Refuses-TurnedAway routes c fresh refuses = elim (gates-Gate gin parts c fresh) [
    | preflight m (d, w, a, (b, e), f) ↦ inl (d, _, b, f routes, e, refl, inl w)
    | bad_key m v (d, w, a, (b, e), f) ↦ inl (d, _, b, f routes, e, inl refl, inr (inl w))
    | refused m v n s (d, w, a, (b, e), f) ↦
        inl (d, _, b, f routes, e, status_of-Refusal _ n s, inr (inr w))
    | broken m v p d more f ↦ inr p
    | passed m v h p d (b, e) w a (q, l) k f ↦
        let (d', g, calls, same) = refuses d a q l in
        inl (
          d',
          json 401,
          b,
          f routes ∙ g,
          calls ∙ ap (λ x. x ++ json 401 ∷ []) e ∙ append_assoc c.calls b (json 401 ∷ []),
          inl refl,
          inr (inr (same ∙ w)),
        )
  ]

  check_auth-Refuses :
      (verdict : Request → AuthVerdict) (endpoint : Handler World) (c : Context World) (e : String)
      → verdict c.request ≡ unauthorized e
      → Refuses (check_auth verdict ∷ endpoint ∷ []) c
  check_auth-Refuses verdict endpoint c e bad d fresh same claims = (
    _,
    run_pending _ _ d fresh (check_auth-Settles verdict d)
        ∙ check_auth-unauthorized verdict _ d e (ap verdict same ∙ bad),
    refl,
    refl,
  )

  admin_routes-All :
      (verdict : Request → AuthVerdict) (endpoints : Endpoints World) (c : Context World)
      (e : String)
      → c.aborted ≡ false
      → verdict c.request ≡ unauthorized e
      → All
          (λ route. TurnedAway c (run (gates parts route.handlers) c))
          (admin_routes verdict endpoints)
  unfolding admin_routes
  admin_routes-All verdict endpoints c e fresh bad =
      let away : (endpoint : Handler World)
          → TurnedAway c (run (gates parts (check_auth verdict ∷ endpoint ∷ [])) c) =
        λ endpoint. Refuses-TurnedAway _ c fresh (check_auth-Refuses verdict endpoint c e bad) in
      (
        away endpoints.create,
        (
          away endpoints.list,
          (
            away endpoints.get,
            (
              away endpoints.update,
              (
                away endpoints.delete,
                (
                  away endpoints.admin_status,
                  (
                    away endpoints.circuit_breaker_status,
                    (
                      away endpoints.reset_circuit_breaker,
                      (
                        away endpoints.service_health_status,
                        (
                          away endpoints.get_summary,
                          (
                            away endpoints.get_time_series,
                            (away endpoints.get_api_key_stats, (away endpoints.get_logs, tt)),
                          ),
                        ),
                      ),
                    ),
                  ),
                ),
              ),
            ),
          ),
        ),
      )

  -- A request that `RequireAuth` does not admit gets a refusal from every admin route, whose endpoint
  -- does not run.
  pub admin_routes-TurnedAway :
      (verdict : Request → AuthVerdict) (endpoints : Endpoints World) (route : Route World)
      (c : Context World) (e : String)
      → Memᴰ route (admin_routes verdict endpoints)
      → c.aborted ≡ false
      → verdict c.request ≡ unauthorized e
      → TurnedAway c (run (gates parts route.handlers) c)
  admin_routes-TurnedAway verdict endpoints route c e m fresh bad =
      All-Mem (λ r. TurnedAway c (run (gates parts r.handlers) c)) m
        (admin_routes-All verdict endpoints c e fresh bad)

  me-Refuses :
      {Error : Type 0} (service : World → String → Result Error (Option User)) (c : Context World)
      → c.claims ≡ none
      → Refuses (me_endpoint service ∷ []) c
  unfolding me_endpoint user_id code
  me-Refuses service c no_claims d fresh same claims = (
    _,
    run_last _ d fresh
        ∙ ap
            (λ claims_. done (record d {
              calls = d.calls ++ json (code (Accounts.me (service d.world) (user_id claims_))) ∷ [];
            }))
            (claims ∙ no_claims),
    ap (λ answer. d.calls ++ json (code answer) ∷ []) (Accounts.me-none (service d.world)),
    refl,
  )

  auth_routes-me :
      (endpoints : Endpoints World)
      → All
          (λ (route : Route World). route.path ≡ "/auth/me" → route.handlers ≡ endpoints.me ∷ [])
          (auth_routes endpoints)
  unfolding auth_routes
  auth_routes-me endpoints = ((λ e. absurd (cc)), ((λ e. absurd (cc)), ((λ e. refl), tt)))

  -- The route of `Me` refuses every request, with or without a token: nothing before it puts claims
  -- into the context.
  pub auth_routes-TurnedAway :
      {Error : Type 0} (service : World → String → Result Error (Option User))
      (endpoints : Endpoints World) (route : Route World) (c : Context World)
      → Memᴰ route (auth_routes endpoints)
      → route.path ≡ "/auth/me"
      → endpoints.me ≡ me_endpoint service
      → c.aborted ≡ false
      → c.claims ≡ none
      → TurnedAway c (run (gates parts route.handlers) c)
  auth_routes-TurnedAway service endpoints route c m path is fresh no_claims =
      let handlers : route.handlers ≡ me_endpoint service ∷ [] =
        All-Mem (λ r. r.path ≡ "/auth/me" → r.handlers ≡ endpoints.me ∷ []) m
          (auth_routes-me endpoints) path
        ∙ ap (λ h. h ∷ []) is in
      subst (λ hs. TurnedAway c (run (gates parts hs) c)) (sym handlers)
        (Refuses-TurnedAway _ c fresh (me-Refuses service c no_claims))
