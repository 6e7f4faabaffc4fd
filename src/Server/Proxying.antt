-- ===== src/Server/Proxying.antt =====
-- The routes of `setupProxyRoutes` of internal/server/server.go: `Handle` of internal/proxy/proxy.go as
-- the handler of a route, behind the whole chain.
pub mod Open
mod Tests
use api_gateway.Common.{ℕ, String, List, [], ◌∷◌, ◌++◌, Option, Result}
use api_gateway.Http.{Request, Url}
use api_gateway.LoadBalancer.Random.{Rand}
use api_gateway.CircuitBreaker.{Instants}
use api_gateway.Proxy
use api_gateway.Proxy.{
  Proxy, Begun, refused, panicking, forwarding, Served, wrote, aborted, begin, complete,
}
use api_gateway.Repository.ApiKeys.{ApiKey}
use api_gateway.Middleware.RequestLogger.{RequestLog}
use api_gateway.Middleware.Tiers.{Verdict}
use api_gateway.Middleware.Context.{
  set_header, json, relayed, Context, Flow, done, panicked, Handler,
}
use api_gateway.Middleware.Chain.{Parts}

-- The parts of the chain, where the state is that of the parts and a proxy, which they leave alone.
module _ {World P : Type 0} (parts : Parts World) where
  enqueue : World × P → RequestLog → World × P
  enqueue (w, p) entry = (parts.enqueue w entry, p)

  validate : World × P → String → (World × P) × Result parts.Fault (Option ApiKey)
  validate (w, p) key = let (w', found) = parts.validate w key in ((w', p), found)

  limit : World × P → Request → Option ApiKey → (World × P) × Verdict
  limit (w, p) req key = let (w', verdict) = parts.limit w req key in ((w', p), verdict)

  unfoldable pub beside_proxy : Parts (World × P)
  unfolding enqueue validate limit
  beside_proxy = record {
    Fault = parts.Fault;
    new_uuid = parts.new_uuid;
    status = parts.status;
    enqueue = enqueue;
    validate = validate;
    trim_space = parts.trim_space;
    limit = limit;
    logger_start = parts.logger_start;
    logger_end = parts.logger_end;
    log_start = parts.log_start;
    log_end = parts.log_end;
  }

codes_of : Served → List ℕ
codes_of (wrote codes) = codes
codes_of (aborted codes) = codes

module _ {World : Type 0} (rand : Rand) (parse : String → Result String Url) where
  open rand use {Rng}

  -- `ServeHTTP` returns or panics.
  served_flow : Served → Context (World × Proxy Rng) → Flow (World × Proxy Rng)
  served_flow (wrote codes) c = done c
  served_flow (aborted codes) c = panicked c

  proceed :
      (Url → Request → Served)
      → Instants
      → Context (World × Proxy Rng)
      → Proxy Rng × Begun
      → Flow (World × Proxy Rng)
  unfolding served_flow codes_of
  proceed serve at c (p, refused error) =
      done (record c { world = (c.world.0, p); calls = c.calls ++ json 503 ∷ [] })
  proceed serve at c (p, panicking) = panicked (record c { world = (c.world.0, p) })
  proceed serve at c (p, forwarding target url req) =
      let served = serve url req in
      served_flow served (record c {
        world = (c.world.0, (complete p at target served).0);
        request = req;
        calls = c.calls ++ set_header "X-Backend-Server" target ∷ relayed (codes_of served) ∷ [];
      })

  -- `Handle`, `serve` for the backends.
  unfoldable pub proxy_endpoint : (Url → Request → Served) → Instants → Handler (World × Proxy Rng)
  unfolding proceed
  proxy_endpoint serve at next c = proceed serve at c (begin rand parse c.world.1 c.request at)
