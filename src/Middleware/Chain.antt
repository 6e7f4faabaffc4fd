-- ===== src/Middleware/Chain.antt =====
-- internal/middleware as handlers of gin: recovery.go, request_id.go, logger.go, cors.go, and what the
-- other files do with the verdicts of RequestLogger, Auth and Tiers; `setupMiddleware` of
-- internal/server/server.go puts them in their order.
pub mod Settled
pub mod Logged
pub mod Gates
pub mod Ids
mod Tests
use api_gateway.Common.{
  ℕ, elapsed, if◌then◌else◌, String, str_eq, List, [], ◌∷◌, ◌++◌, true, Option, none, some, Result,
}
use api_gateway.Http.{Request}
use api_gateway.Repository.ApiKeys.{ApiKey}
use api_gateway.Middleware.Context.{
  Call, set_header, json, abort_with_status, access, panic, Context, Flow, done, panicked, Handler,
  get_string,
}
use api_gateway.Middleware.RequestLogger.{RequestLog, log_entry}
use api_gateway.Middleware.Auth.{
  AuthVerdict, unauthorized, authorized, KeyVerdict, no_key, invalid_key, valid_key,
  api_key_validator,
}
use api_gateway.Middleware.Tiers
use api_gateway.Middleware.Tiers.{RateHeaders, Verdict, check_failed, limited, passes}

-- The id of a request: its header, or a new one.
unfoldable pub id_of : String → Request → String
id_of new_uuid req =
    let header = req.headers "X-Request-Id" in if str_eq header "" then new_uuid else header

unfoldable pub key_id : Option ApiKey → Option String
key_id none = none
key_id (some key) = some key.id

abbrev pub cors_headers : List Call
cors_headers =
    set_header "Access-Control-Allow-Origin" "*"
    ∷ set_header "Access-Control-Allow-Methods" "GET, POST, PUT, DELETE, OPTIONS"
    ∷ set_header "Access-Control-Allow-Headers"
        "Origin, Content-Type, Content-Length, Accept-Encoding, X-CSRF-Token, Authorization, X-API-Key"
    ∷ set_header "Access-Control-Expose-Headers"
        "Content-Length, X-RateLimit-Limit, X-RateLimit-Remaining, X-RateLimit-Reset"
    ∷ set_header "Access-Control-Allow-Credentials" "true"
    ∷ []

unfoldable pub rate_headers : RateHeaders → List Call
rate_headers h =
    set_header "X-RateLimit-Limit" h.limit
    ∷ set_header "X-RateLimit-Remaining" h.remaining
    ∷ set_header "X-RateLimit-Reset" h.reset
    ∷ set_header "X-RateLimit-Tier" h.tier
    ∷ []

module _ {World : Type 0} where
  write : Context World → List Call → Context World
  write c calls = record c { calls = c.calls ++ calls }

  -- Writes the last of the answer and aborts.
  stop : Context World → List Call → Context World
  stop c calls = record c { calls = c.calls ++ calls; aborted = true }

  recovered : Flow World → Flow World
  unfolding get_string
  recovered (done c) = done c
  recovered (panicked c) = done (record c {
    calls = c.calls ++ json 500 ∷ [];
    printed = c.printed ++ panic (get_string c.request_id) ∷ [];
    aborted = true;
  })

  unfoldable pub recovery : Handler World
  unfolding recovered
  recovery next c = recovered (next c)

  unfoldable pub request_id : String → Handler World
  unfolding id_of
  request_id new_uuid next c =
      let id = id_of new_uuid c.request in
      next (record c { request_id = some id; calls = c.calls ++ set_header "X-Request-ID" id ∷ [] })

  -- `status` is `c.Writer.Status()`, by what was written.
  print_access : (List Call → ℕ) → ℕ → ℕ → Request → Flow World → Flow World
  unfolding get_string
  print_access status start end req (panicked c) = panicked c
  print_access status start end req (done c) = done (record c {
    printed =
        c.printed
        ++ access (get_string c.request_id) req.method req.path (status c.calls) (elapsed end start)
            c.request.client_ip
          ∷ [];
  })

  unfoldable pub logger : (List Call → ℕ) → (start end : ℕ) → Handler World
  unfolding print_access
  logger status start end next c = print_access status start end c.request (next c)

  log_after :
      (List Call → ℕ) → (World → RequestLog → World) → (start end : ℕ) → Flow World → Flow World
  unfolding key_id
  log_after status enqueue start end (panicked c) = panicked c
  log_after status enqueue start end (done c) = done (record c {
    world = enqueue c.world (log_entry c.request (key_id c.api_key) (status c.calls) start end);
  })

  unfoldable pub request_logger :
      (List Call → ℕ) → (World → RequestLog → World) → (start end : ℕ) → Handler World
  unfolding log_after
  request_logger status enqueue start end next c = log_after status enqueue start end (next c)

  unfoldable pub cors : Handler World
  unfolding write stop
  cors next c =
      let c1 = write c cors_headers in
      if str_eq c.request.method "OPTIONS"
      then done (stop c1 (abort_with_status 204 ∷ []))
      else next c1

  by_key : (Context World → Flow World) → Context World → KeyVerdict → Flow World
  unfolding stop
  by_key next c no_key = next c
  by_key next c invalid_key = done (stop c (json 401 ∷ []))
  by_key next c (valid_key key) =
      next (record c { api_key = some key; last_used = c.last_used ++ key.id ∷ [] })

  unfoldable pub check_key :
      {Fault : Type 0}
      → (World → String → World × Result Fault (Option ApiKey))
      → (String → String)
      → Handler World
  unfolding by_key
  check_key validate trim_space next c =
      let (world, verdict) = api_key_validator validate trim_space c.world c.request in
      by_key next (record c { world = world }) verdict

  by_verdict : (Context World → Flow World) → Context World → Verdict → Flow World
  unfolding write stop rate_headers
  by_verdict next c check_failed = done (stop c (json 500 ∷ []))
  by_verdict next c (limited h retry_after) =
      done (stop c (rate_headers h ++ set_header "Retry-After" retry_after ∷ json 429 ∷ []))
  by_verdict next c (passes h) = next (write c (rate_headers h))
  by_verdict next c Tiers.panicked = panicked c

  -- `limit` is the limiter's verdict on a request with the key in its context, if there is one.
  unfoldable pub limit_rate : (World → Request → Option ApiKey → World × Verdict) → Handler World
  unfolding by_verdict
  limit_rate limit next c =
      let (world, verdict) = limit c.world c.request c.api_key in
      by_verdict next (record c { world = world }) verdict

  by_auth : (Context World → Flow World) → Context World → AuthVerdict → Flow World
  unfolding stop
  by_auth next c (unauthorized e) = done (stop c (json 401 ∷ []))
  by_auth next c (authorized claims) = next (record c { claims = some claims })

  -- `RequireAuth`, over its verdict on the request.
  unfoldable pub check_auth : (Request → AuthVerdict) → Handler World
  unfolding by_auth
  check_auth verdict next c = by_auth next c (verdict c.request)

-- What the chain of one request takes from elsewhere: the readings of the clock, a new id, and the
-- parts of the gateway.
pub record Parts (World : Type 0) : Type 1 where
  pub Fault : Type 0
  pub new_uuid : String
  pub status : List Call → ℕ
  pub enqueue : World → RequestLog → World
  pub validate : World → String → World × Result Fault (Option ApiKey)
  pub trim_space : String → String
  pub limit : World → Request → Option ApiKey → World × Verdict
  pub logger_start : ℕ
  pub logger_end : ℕ
  pub log_start : ℕ
  pub log_end : ℕ

module _ {World : Type 0} (parts : Parts World) where
  open parts use {
    new_uuid, status, enqueue, validate, trim_space, limit, logger_start, logger_end, log_start,
    log_end,
  }

  unfoldable pub setup_middleware : List (Handler World)
  setup_middleware =
      recovery
      ∷ request_id new_uuid
      ∷ logger status logger_start logger_end
      ∷ request_logger status enqueue log_start log_end
      ∷ cors
      ∷ check_key validate trim_space
      ∷ limit_rate limit
      ∷ []
