-- ===== src/Server/Gateway.antt =====
-- `setupMiddleware` of internal/server/server.go with the parts that the server hands to it: the
-- service of the keys, the rate limits of the tiers in Redis, and the request log.
mod Tests
use mathlib.Core.List.{Memᴰ}
use api_gateway.Common.{
  ℕ, String, List, [], ◌∷◌, ◌++◌, append_assoc, false, Option, Result, ◌≡◌, refl, sym, ap, ◌∙◌, ◌≢◌,
  ◌⊎◌, inl, inr,
}
use api_gateway.Http.{Request}
use api_gateway.Config.{RateLimiterTier}
use api_gateway.Storage.{RedisClient}
use api_gateway.RateLimit.TokenBucket.{Floats, Json}
use api_gateway.Repository.ApiKeys.{ApiKey, Keys}
use api_gateway.Service.ApiKeys
use api_gateway.Service.ApiKeys.{KeyJson}
use api_gateway.Middleware.Context.{Call, Context, done, panicked, Gin}
use api_gateway.Middleware.RequestLogger.{RequestLog, LogQueue, send}
use api_gateway.Middleware.Auth.{AuthVerdict, unauthorized, api_key_validator-state}
use api_gateway.Middleware.Tiers
use api_gateway.Middleware.Tiers.{Verdict, Readings, rate_limit_with_tier}
use api_gateway.Middleware.Tiers.Verdicts.{rate_limit_with_tier-Follows}
use api_gateway.Middleware.Chain.{Parts, setup_middleware}
use api_gateway.Middleware.Chain.Logged.{identified, logged, serve-logged}
use api_gateway.Middleware.Chain.Gates.{rated, judged, key_in}
use api_gateway.Server.Routes.{Route, Endpoints, admin_routes}
use api_gateway.Server.Routes.Guarded.{Refusal, admin_routes-TurnedAway}

module _ (floats : Floats) (json : Json floats) (redis : RedisClient) (keys : Keys)
    (key_json : KeyJson) (hash : String → String) where
  -- The state that the requests share.
  pub record Gateway : Type 0 where
    pub store : redis.Store
    pub db : keys.Db
    pub queue : LogQueue

  -- What one request reads of the clock, and a new id for it.
  pub record Moments : Type 0 where
    pub new_uuid : String
    pub logger_start : ℕ
    pub logger_end : ℕ
    pub log_start : ℕ
    pub log_end : ℕ
    pub limited : Readings floats json redis

  enqueue : Gateway → RequestLog → Gateway
  enqueue g entry = record g { queue = (send g.queue entry).0 }

  validate : Gateway → String → Gateway × Result keys.Fault (Option ApiKey)
  validate g key =
      let (store, found) = ApiKeys.validate redis keys key_json hash g.store g.db key in
      (record g { store = store }, found)

  limit_by_tier :
      List RateLimiterTier
      → Readings floats json redis
      → Gateway
      → Request
      → Option ApiKey
      → Gateway × Verdict
  limit_by_tier tiers at g req api_key =
      let (store, verdict) = rate_limit_with_tier floats json redis tiers g.store at req api_key in
      (record g { store = store }, verdict)

  -- `status` and `trim_space` are of gin and of the library.
  unfoldable pub gateway_parts :
      (List Call → ℕ) → (String → String) → List RateLimiterTier → Moments → Parts Gateway
  unfolding enqueue validate limit_by_tier
  gateway_parts status trim_space tiers at = record {
    Fault = keys.Fault;
    new_uuid = at.new_uuid;
    status = status;
    enqueue = enqueue;
    validate = validate;
    trim_space = trim_space;
    limit = limit_by_tier tiers at.limited;
    logger_start = at.logger_start;
    logger_end = at.logger_end;
    log_start = at.log_start;
    log_end = at.log_end;
  }

  limit_by_tier-panicked :
      (tiers : List RateLimiterTier) (at : Readings floats json redis) (g : Gateway) (req : Request)
      (api_key : Option ApiKey)
      → (limit_by_tier tiers at g req api_key).1 ≢ Tiers.panicked
  unfolding limit_by_tier
  limit_by_tier-panicked tiers at g req api_key =
      (rate_limit_with_tier-Follows floats json redis tiers g.store at req api_key).3

  module _ (gin : Gin Gateway) (status : List Call → ℕ) (trim_space : String → String)
      (tiers : List RateLimiterTier) (at : Moments) where
    open gin use {run}

    parts : Parts Gateway
    parts = gateway_parts status trim_space tiers at

    done-panicked : (d d' : Context Gateway) → done d ≢ panicked d'
    done-panicked d d' e = cc

    done-injective : (d d' : Context Gateway) → done d ≡ done d' → d ≡ d'
    done-injective d d' e = cc

    judged-db : (c : Context Gateway) → (judged gin parts c).0.db ≡ c.world.db
    unfolding parts gateway_parts validate
    judged-db c = elim (api_key_validator-state validate trim_space c.world c.request) [
      | inl e ↦ ap (λ g. g.db) e
      | inr e ↦ ap (λ g. g.db) e
    ]

    rated-db : (c : Context Gateway) → (rated gin parts c).0.db ≡ c.world.db
    unfolding parts gateway_parts limit_by_tier
    rated-db c = judged-db c

    world-db :
        (c : Context Gateway) (g : Gateway)
        → (g ≡ c.world) ⊎ ((g ≡ (judged gin parts c).0) ⊎ (g ≡ (rated gin parts c).0))
        → g.db ≡ c.world.db
    world-db c g (inl e) = ap (λ w. w.db) e
    world-db c g (inr (inl e)) = ap (λ w. w.db) e ∙ judged-db c
    world-db c g (inr (inr e)) = ap (λ w. w.db) e ∙ rated-db c

    logged-db : (c d : Context Gateway) → (logged parts c d).world.db ≡ d.world.db
    unfolding logged parts gateway_parts enqueue
    logged-db c d = refl

    logged-calls : (c d : Context Gateway) → (logged parts c d).calls ≡ d.calls
    unfolding logged
    logged-calls c d = refl

    rated-panicked : (c : Context Gateway) → (rated gin parts c).1 ≢ Tiers.panicked
    unfolding parts gateway_parts
    rated-panicked c =
        let (g, found) = judged gin parts c in
        limit_by_tier-panicked tiers at.limited g c.request (key_in c.api_key found)

    -- A request for an admin route that `RequireAuth` does not admit ends with 204, 401, 429 or 500, and
    -- its handlers leave the database as it is; the goroutine that records the last use of a valid key
    -- is not among them.
    pub serve-denies :
        (verdict : Request → AuthVerdict) (endpoints : Endpoints Gateway) (route : Route Gateway)
        (c : Context Gateway) (e : String)
        → Memᴰ route (admin_routes verdict endpoints)
        → c.aborted ≡ false
        → verdict c.request ≡ unauthorized e
        → (d : Context Gateway) × (last : Call) × (written : List Call) × (run
              (setup_middleware (gateway_parts status trim_space tiers at) ++ route.handlers)
              c
            ≡ done d)
          × (d.calls ≡ written ++ last ∷ [])
          × Refusal last
          × (d.world.db ≡ c.world.db)
    unfolding parts identified
    serve-denies verdict endpoints route c e m fresh bad =
        let c1 = identified parts c in
        elim (admin_routes-TurnedAway gin parts verdict endpoints route c1 e m fresh bad) [
          | inr p ↦ absurd (rated-panicked c1 p)
          | inl (d, last, written, f, calls, refusal, world) ↦
              elim (serve-logged gin parts route.handlers c fresh) [
                | inr (d', g, r) ↦ absurd (done-panicked d d' (sym f ∙ g))
                | inl (d', g, r) ↦
                    let same : d' ≡ d = done-injective d' d (sym g ∙ f) in
                    (
                      logged parts c d',
                      last,
                      c1.calls ++ written,
                      r,
                      logged-calls c d'
                          ∙ ap (λ x. x.calls) same
                          ∙ calls
                          ∙ sym (append_assoc c1.calls written (last ∷ [])),
                      refusal,
                      logged-db c d' ∙ ap (λ x. x.world.db) same ∙ world-db c1 d.world world,
                    )
              ]
        ]
