-- ===== src/Lib.antt =====
-- A model of the api-gateway, a reverse proxy with health checks, load balancing, a circuit breaker,
-- rate limits, API keys and JWT authentication. The definitions are translated from the Go source.
--
-- A request passes the chain of middleware (recovery from panics, the request's id, the access log, the
-- request log, CORS, the API key, the rate limit of its tier) to the handlers of its route. A proxy
-- takes the healthy targets from its health checker, lets the load balancer select one, and
-- forwards the request under its circuit breaker. The request log takes an entry of every
-- request, as long as it has room. The server makes one proxy for each service of the configuration.
--
-- Files, and what they model (paths from the repository's root):
--   Common            numbers, lists, maps and texts that the parts share. `ℤ` with `increment`,
--                     `minus_int`, `mul_int` and the like is Go's 64-bit `int`, with its wrap-around.
--   LoadBalancer      internal/loadbalancer: RoundRobin (round_robin.go), LeastConnections
--                     (least_connections.go), Random (random.go), the factory and the interface.
--   CircuitBreaker    internal/circuitbreaker: `admit` and `conclude` are the two sections of `Call`
--                     under the mutex, `call` is `Call` with nothing in between.
--   HealthCheck       internal/healthcheck: `check_all` is a round, given the checks in the order in
--                     which the goroutines take the lock.
--   Storage           internal/storage: the calls of Redis (redis.go), as a parameter; Storage.Values has
--                     what is relied on of GET and SET, Expiry of EXPIRE and of time that passes;
--                     InMemory, Texts and Expiring are servers for examples;
--                     Connections opens, asks and closes Redis and PostgreSQL (postgres.go).
--   RateLimit         internal/ratelimit: FixedWindow, SlidingWindow, TokenBucket, and Factory for
--                     factory.go and interface.go. What they rely on: FixedWindow.Counters and
--                     SlidingWindow.SortedSets of Redis, TokenBucket.Laws of floats and JSON.
--   Http              the fields of requests and URLs that the gateway reads.
--   Proxy             internal/proxy/proxy.go: `handle` is `Handle`, made of `begin`, up to the call of
--                     `ServeHTTP`, and `complete`. `begin` makes one step of sections that have a lock
--                     each: the healthy targets, the choice, the count, and the breaker's decision.
--                     Making has the constructors.
--   Config            internal/config/config.go: `load`, `apply_env_overrides`, `validate`.
--   Repository        internal/repository: ApiKeys (apikey.go), Users (authRepository.go) and RequestLogs
--                     (requestLogRepository.go), with internal/models.
--   Service           internal/service: ApiKeys (apikey.go), Auth (authService.go), and Analytics
--                     (analytics.go).
--   Middleware        internal/middleware: RequestLogger (requestlogger.go), Tiers (ratelimit.go), and
--                     Auth (authMiddleware.go and apikey.go) have the verdicts; Context is gin's context,
--                     and Chain has each file's handler on it, with recovery.go, request_id.go, logger.go
--                     and cors.go, in the order of `setupMiddleware`. Sequence is for the examples.
--   Handler           internal/handler: Logs and Analytics (analytics.go), Keys (apikey.go), Accounts
--                     (authHandler.go) and System (systemHandler.go).
--   Server            internal/server/server.go: the proxies of the services; Routes is the table of
--                     routes, Gateway the chain with the parts that the server hands to it, Status what
--                     the server says of itself and its end, New the constructor.
--   Main              cmd/gateway/main.go: `main` is the start up to the first failure, Shutdown has the
--                     steps of the goroutines from there on.
--
-- State is passed on explicitly. A Go panic is the outcome `panics`, an error result is `err`. Each
-- reading of the clock is an argument, in nanoseconds. A mutex makes the section that it guards one
-- step; where sections of several requests interleave, a data type of reachable states says so
-- (CircuitBreaker.Invariant, LoadBalancer.LeastConnections.InFlight, Proxy.InFlight,
-- SlidingWindow.Window, RequestLogger.Batches, Main.Shutdown).
--
-- Parameters: gin with its `Next` and `Abort` (Middleware.Context.Gin), Redis, the database with GORM,
-- net/http and the backends, `url.Parse`, math/rand, bcrypt,
-- the JWT library, SHA-256, encoding/json and `float64`. A theorem that relies on their documented
-- behaviour says so in its hypotheses.
--
-- Bounds: `decimal` writes a number with fuel 20, since a 64-bit number has at most 20 digits
-- (Common.Text.Decimals reads each back); the loop of HealthCheck.Loop has as much fuel as iterations
-- until it meets the closed channel; all other recursion is structural. Instants of the system clock are
-- natural numbers: they do not wrap.
--
-- Not modelled: how gin matches paths to routes; the transactions of postgres.go, which GORM runs; the
-- table of tiers (internal/models/tier.go), which no code uses; and test/dummy-backend.go, a server for
-- manual tests.
pub mod Common
pub mod LoadBalancer
pub mod CircuitBreaker
pub mod HealthCheck
pub mod Storage
pub mod RateLimit
pub mod Http
pub mod Proxy
pub mod Config
pub mod Repository
pub mod Service
pub mod Middleware
pub mod Handler
pub mod Server
pub mod Main
