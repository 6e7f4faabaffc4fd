-- ===== src/Middleware/Chain/Settled.antt =====
-- Each part of the chain aborts, panics, or calls the rest once.
use api_gateway.Common.{
  ℕ, if◌then◌else◌, String, str_eq, List, [], ◌∷◌, ◌++◌, All, Bool, true, false, ◌≡◌, refl, ap, ◌∙◌,
}
use api_gateway.Http.{Request}
use api_gateway.Middleware.Context.{
  done, abort_with_status, json, Call, Context, Flow, Handler, Settles, aborts, breaks, proceeds,
}
use api_gateway.Middleware.Auth.{
  AuthVerdict, unauthorized, authorized, KeyVerdict, no_key, invalid_key, valid_key,
}
use api_gateway.Middleware.Tiers
use api_gateway.Middleware.Tiers.{Verdict, check_failed, limited, passes}
use api_gateway.Middleware.Chain.{
  recovery, recovered, cors_headers, request_id, logger, print_access, request_logger, log_after,
  cors, stop, write, check_key, by_key, limit_rate, by_verdict, check_auth, by_auth, Parts,
  setup_middleware,
}

module _ {World : Type 0} where
  pub recovery-Settles : (c : Context World) → Settles recovery c
  unfolding recovery
  recovery-Settles c = proceeds c recovered (λ next. refl)

  pub request_id-Settles : (new_uuid : String) (c : Context World) → Settles (request_id new_uuid) c
  unfolding request_id
  request_id-Settles new_uuid c = proceeds _ (λ flow. flow) (λ next. refl)

  pub logger-Settles :
      (status : List Call → ℕ) (start end : ℕ) (c : Context World)
      → Settles (logger status start end) c
  unfolding logger
  logger-Settles status start end c =
      proceeds c (print_access status start end c.request) (λ next. refl)

  pub request_logger-Settles :
      (status : List Call → ℕ) (enqueue : World → _ → World) (start end : ℕ) (c : Context World)
      → Settles (request_logger status enqueue start end) c
  unfolding request_logger
  request_logger-Settles status enqueue start end c =
      proceeds c (log_after status enqueue start end) (λ next. refl)

  -- A handler that is another one on a context of its own.
  moved-Settles :
      (h h' : Handler World) (c c' : Context World)
      → ((next : Context World → Flow World) → h next c ≡ h' next c')
      → Settles h' c'
      → Settles h c
  moved-Settles h h' c c' same (aborts d e f) = aborts d e (λ next. same next ∙ f next)
  moved-Settles h h' c c' same (breaks d f) = breaks d (λ next. same next ∙ f next)
  moved-Settles h h' c c' same (proceeds d after f) = proceeds d after (λ next. same next ∙ f next)

  if-Settles :
      (b : Bool) (h h' : Handler World) (c : Context World)
      → Settles h c
      → Settles h' c
      → Settles (λ next c'. if b then h next c' else h' next c') c
  if-Settles true h h' c settles settles' = moved-Settles _ h c c (λ next. refl) settles
  if-Settles false h h' c settles settles' = moved-Settles _ h' c c (λ next. refl) settles'

  pub cors-Settles : (c : Context World) → Settles cors c
  unfolding cors stop
  cors-Settles c =
      let c1 = write c cors_headers in
      moved-Settles _ _ c c (λ next. refl)
        (if-Settles (str_eq c.request.method "OPTIONS")
          (λ next d. done (stop c1 (abort_with_status 204 ∷ []))) (λ next d. next c1) c
          (aborts _ refl (λ next. refl)) (proceeds _ (λ flow. flow) (λ next. refl)))

  by_key-Settles :
      (c : Context World) (verdict : KeyVerdict) → Settles (λ next c'. by_key next c' verdict) c
  unfolding by_key stop
  by_key-Settles c no_key = proceeds _ (λ flow. flow) (λ next. refl)
  by_key-Settles c invalid_key = aborts _ refl (λ next. refl)
  by_key-Settles c (valid_key key) = proceeds _ (λ flow. flow) (λ next. refl)

  by_verdict-Settles :
      (c : Context World) (verdict : Verdict) → Settles (λ next c'. by_verdict next c' verdict) c
  unfolding by_verdict stop
  by_verdict-Settles c check_failed = aborts _ refl (λ next. refl)
  by_verdict-Settles c (limited h retry_after) = aborts _ refl (λ next. refl)
  by_verdict-Settles c (passes h) = proceeds _ (λ flow. flow) (λ next. refl)
  by_verdict-Settles c Tiers.panicked = breaks _ (λ next. refl)

  by_auth-Settles :
      (c : Context World) (verdict : AuthVerdict) → Settles (λ next c'. by_auth next c' verdict) c
  unfolding by_auth stop
  by_auth-Settles c (unauthorized e) = aborts _ refl (λ next. refl)
  by_auth-Settles c (authorized claims) = proceeds _ (λ flow. flow) (λ next. refl)

  pub check_auth-Settles :
      (verdict : Request → AuthVerdict) (c : Context World) → Settles (check_auth verdict) c
  unfolding check_auth
  check_auth-Settles verdict c =
      moved-Settles _ _ c c (λ next. refl) (by_auth-Settles c (verdict c.request))

  pub check_auth-unauthorized :
      (verdict : Request → AuthVerdict) (next : Context World → Flow World) (c : Context World)
      (e : String)
      → verdict c.request ≡ unauthorized e
      → check_auth verdict next c
        ≡ done (record c { calls = c.calls ++ json 401 ∷ []; aborted = true })
  unfolding check_auth by_auth stop
  check_auth-unauthorized verdict next c e bad = ap (by_auth next c) bad

module _ {World : Type 0} (parts : Parts World) where
  open parts use {
    new_uuid, status, enqueue, validate, trim_space, limit, logger_start, logger_end, log_start,
    log_end,
  }

  pub check_key-Settles : (c : Context World) → Settles (check_key validate trim_space) c
  unfolding check_key
  check_key-Settles c = moved-Settles _ _ c _ (λ next. refl) (by_key-Settles _ _)

  pub limit_rate-Settles : (c : Context World) → Settles (limit_rate limit) c
  unfolding limit_rate
  limit_rate-Settles c = moved-Settles _ _ c _ (λ next. refl) (by_verdict-Settles _ _)

  -- Each handler of the chain aborts the request, panics, or runs what is pending exactly once.
  pub setup_middleware-Settles :
      All (λ (h : Handler World). (c : Context World) → Settles h c) (setup_middleware parts)
  unfolding setup_middleware
  setup_middleware-Settles = (
    recovery-Settles,
    (
      request_id-Settles new_uuid,
      (
        logger-Settles status logger_start logger_end,
        (
          request_logger-Settles status enqueue log_start log_end,
          (cors-Settles, (check_key-Settles, (limit_rate-Settles, tt))),
        ),
      ),
    ),
  )
