-- ===== src/Middleware/Chain/Logged.antt =====
-- What a request leaves behind: its answer, the line of the access log, and its entry.
use api_gateway.Common.{
  elapsed, List, [], ◌∷◌, ◌++◌, true, false, some, ◌≡◌, refl, ap, ◌∙◌, ◌⊎◌, inl, inr,
}
use api_gateway.Middleware.Context.{
  set_header, json, access, panic, Context, Flow, done, panicked, Handler, Gin, get_string,
}
use api_gateway.Middleware.RequestLogger.{log_entry}
use api_gateway.Middleware.Chain.{
  recovery, recovered, id_of, key_id, request_id, logger, print_access, request_logger, log_after,
  cors, check_key, limit_rate, Parts, setup_middleware,
}
use api_gateway.Middleware.Chain.Settled.{
  recovery-Settles, request_id-Settles, logger-Settles, request_logger-Settles,
}

module _ {World : Type 0} where
  -- A request that panicked as `d`: 500 comes after what `d` has written, and a line of its own.
  unfoldable pub failed : Context World → Context World
  failed d = record d {
    calls = d.calls ++ json 500 ∷ [];
    printed = d.printed ++ panic (get_string d.request_id) ∷ [];
    aborted = true;
  }

module _ {World : Type 0} (parts : Parts World) where
  open parts use {
    new_uuid, status, enqueue, validate, trim_space, limit, logger_start, logger_end, log_start,
    log_end,
  }

  -- What is left of the chain once the request has its id.
  unfoldable pub gates : List (Handler World) → List (Handler World)
  gates routes = cors ∷ check_key validate trim_space ∷ limit_rate limit ∷ routes

  unfoldable pub identified : Context World → Context World
  identified c =
      let id = id_of new_uuid c.request in
      record c { request_id = some id; calls = c.calls ++ set_header "X-Request-ID" id ∷ [] }

  -- A request `c` that ended as `d` hands one entry to `enqueue` and has one line in the access log.
  unfoldable pub logged : Context World → Context World → Context World
  logged c d = record d {
    world =
        enqueue d.world (log_entry d.request (key_id d.api_key) (status d.calls) log_start log_end);
    printed =
        d.printed
        ++ access (get_string d.request_id) c.request.method c.request.path (status d.calls)
            (elapsed logger_end logger_start) d.request.client_ip
          ∷ [];
  }

  served : Context World → Flow World → Context World
  served c (done d) = logged c d
  served c (panicked d) = failed d

  recovered-eq-served :
      (c : Context World) (flow : Flow World)
      → recovered (
          print_access status logger_start logger_end c.request
            (log_after status enqueue log_start log_end flow))
        ≡ done (served c flow)
  unfolding recovered print_access log_after served logged failed
  recovered-eq-served c (done d) = refl
  recovered-eq-served c (panicked d) = refl

  served_flow :
      (c : Context World) (flow : Flow World)
      → ((d : Context World) × (flow ≡ done d) × (served c flow ≡ logged c d))
        ⊎ ((d : Context World) × (flow ≡ panicked d) × (served c flow ≡ failed d))
  unfolding served
  served_flow c (done d) = inl (d, refl, refl)
  served_flow c (panicked d) = inr (d, refl, refl)

module _ {World : Type 0} (gin : Gin World) (parts : Parts World) where
  open gin use {run, run_pending}
  open parts use {new_uuid, status, enqueue, logger_start, logger_end, log_start, log_end}

  serve-eq-recovered :
      (routes : List (Handler World)) (c : Context World)
      → c.aborted ≡ false
      → run (setup_middleware parts ++ routes) c
        ≡ recovered (
            print_access status logger_start logger_end c.request (
              log_after status enqueue log_start log_end
                (run (gates parts routes) (identified parts c))))
  unfolding setup_middleware gates identified recovery request_id logger request_logger
  serve-eq-recovered routes c fresh =
      run_pending _ _ c fresh (recovery-Settles c)
      ∙ ap recovered (
          run_pending _ _ c fresh (request_id-Settles new_uuid c)
          ∙ run_pending _ _ _ fresh (logger-Settles status logger_start logger_end _)
          ∙ ap (print_access status logger_start logger_end c.request)
              (run_pending _ _ _ fresh (request_logger-Settles status enqueue log_start log_end _)))

  -- A request that starts not aborted ends without a panic. If the rest of the chain and the routes
  -- return, its calls are theirs, one entry with their status is handed to `enqueue`, and it has one line
  -- in the access log. If they panic, `Recovery` writes 500 after the calls that they made, and nothing
  -- is handed to `enqueue` after the panic.
  pub serve-logged :
      (routes : List (Handler World)) (c : Context World)
      → c.aborted ≡ false
      → let result = run (setup_middleware parts ++ routes) c in
        let inner = run (gates parts routes) (identified parts c) in
        ((d : Context World) × (inner ≡ done d) × (result ≡ done (logged parts c d)))
        ⊎ ((d : Context World) × (inner ≡ panicked d) × (result ≡ done (failed d)))
  serve-logged routes c fresh =
      let inner = run (gates parts routes) (identified parts c) in
      let served_ = serve-eq-recovered routes c fresh ∙ recovered-eq-served parts c inner in
      elim (served_flow parts c inner) [
        | inl (d, e, f) ↦ inl (d, e, served_ ∙ ap done f)
        | inr (d, e, f) ↦ inr (d, e, served_ ∙ ap done f)
      ]
