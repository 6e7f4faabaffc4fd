-- ===== src/Middleware/Chain/Gates.antt =====
-- Which requests reach their routes.
use api_gateway.Common.{
  ℕ, str_eq, eq_iff, List, [], ◌∷◌, ◌++◌, append_assoc, true, false, Option, some, Bool-cases, ◌≡◌,
  refl, sym, ap, ◌∙◌, ◌≢◌, inl, inr, arith,
}
use api_gateway.Repository.ApiKeys.{ApiKey}
use api_gateway.Middleware.Context.{
  set_header, Call, json, abort_with_status, Context, Flow, done, panicked, Handler, Gin,
}
use api_gateway.Middleware.Auth.{KeyVerdict, no_key, invalid_key, valid_key, api_key_validator}
use api_gateway.Middleware.Tiers
use api_gateway.Middleware.Tiers.{RateHeaders, Verdict, passes, check_failed, limited, status_of}
use api_gateway.Middleware.Chain.{
  cors, stop, write, cors_headers, rate_headers, check_key, by_key, limit_rate, by_verdict, Parts,
}
use api_gateway.Middleware.Chain.Settled.{cors-Settles, check_key-Settles, limit_rate-Settles}
use api_gateway.Middleware.Chain.Logged.{gates}

-- The key that a verdict puts into the context, beside what is there.
abbrev pub key_in : Option ApiKey → KeyVerdict → Option ApiKey
key_in found (valid_key key) = some key
key_in found _ = found

abbrev pub Extends : {World : Type 0} → Context World → Context World → Type 0
Extends c d = (written : List Call) × (d.calls ≡ c.calls ++ written)

module _ {World : Type 0} (gin : Gin World) (parts : Parts World) where
  open gin use {run, run_aborted, run_pending}
  open parts use {validate, trim_space, limit}

  -- The answer with `last` as its end, for whatever routes.
  abbrev pub Answered : Context World → World → Call → Type 0
  Answered c world last =
      (d : Context World) × (d.world ≡ world)
      × (d.aborted ≡ true)
      × ((written : List Call) × (d.calls ≡ c.calls ++ (written ++ last ∷ [])))
      × ((routes : List (Handler World)) → run (gates parts routes) c ≡ done d)

  abbrev pub judged : Context World → World × KeyVerdict
  judged c = api_key_validator validate trim_space c.world c.request

  abbrev pub rated : Context World → World × Verdict
  rated c = let (world, verdict) = judged c in limit world c.request (key_in c.api_key verdict)

  -- What becomes of a request, by what it is and what the validator and the limiter make of it.
  pub data Gate (c : Context World) : Type 0 where
    preflight : c.request.method ≡ "OPTIONS" → Answered c c.world (abort_with_status 204) → Gate c
    bad_key :
        c.request.method ≢ "OPTIONS"
        → (judged c).1 ≡ invalid_key
        → Answered c (judged c).0 (json 401)
        → Gate c
    refused :
        c.request.method ≢ "OPTIONS"
        → (judged c).1 ≢ invalid_key
        → (status : ℕ) → status_of (rated c).1 ≡ some status
        → Answered c (rated c).0 (json status)
        → Gate c
    broken :
        c.request.method ≢ "OPTIONS"
        → (judged c).1 ≢ invalid_key
        → (rated c).1 ≡ Tiers.panicked
        → (d : Context World) → Extends c d
        → ((routes : List (Handler World)) → run (gates parts routes) c ≡ panicked d)
        → Gate c
    passed :
        c.request.method ≢ "OPTIONS"
        → (judged c).1 ≢ invalid_key
        → (headers : RateHeaders) → (rated c).1 ≡ passes headers
        → (d : Context World) → Extends c d
        → d.world ≡ (rated c).0
        → d.aborted ≡ false
        → (d.request ≡ c.request) × (d.claims ≡ c.claims)
        → d.api_key ≡ key_in c.api_key (judged c).1
        → ((routes : List (Handler World)) → run (gates parts routes) c ≡ run routes d)
        → Gate c

  -- The chain behind the validator's verdict and behind the limiter's.
  limited_by :
      (c : Context World) (routes : List (Handler World))
      → c.aborted ≡ false
      → let (world, verdict) = limit c.world c.request c.api_key in
        run (limit_rate limit ∷ routes) c
        ≡ by_verdict (run routes) (record c { world = world }) verdict
  unfolding limit_rate
  limited_by c routes fresh = run_pending _ routes c fresh (limit_rate-Settles parts c)

  keyed_by :
      (c : Context World) (routes : List (Handler World))
      → c.aborted ≡ false
      → let (world, verdict) = judged c in
        run (check_key validate trim_space ∷ routes) c
        ≡ by_key (run routes) (record c { world = world }) verdict
  unfolding check_key
  keyed_by c routes fresh = run_pending _ routes c fresh (check_key-Settles parts c)

  cors_by :
      (c : Context World) (routes : List (Handler World))
      → c.aborted ≡ false
      → run (gates parts routes) c
        ≡ cors (run (check_key validate trim_space ∷ limit_rate limit ∷ routes)) c
  unfolding gates
  cors_by c routes fresh = run_pending _ _ c fresh (cors-Settles c)

  cors-options :
      (c : Context World) (next : Context World → Flow World)
      → str_eq c.request.method "OPTIONS" ≡ true
      → cors next c ≡ done (stop (write c cors_headers) (abort_with_status 204 ∷ []))
  unfolding cors
  cors-options c next e = rw (e) refl

  cors-other :
      (c : Context World) (next : Context World → Flow World)
      → str_eq c.request.method "OPTIONS" ≡ false
      → cors next c ≡ next (write c cors_headers)
  unfolding cors
  cors-other c next e = rw (e) refl

  longer :
      (c d : Context World) (written calls : List Call)
      → d.calls ≡ c.calls ++ written
      → d.calls ++ calls ≡ c.calls ++ (written ++ calls)
  longer c d written calls e = ap (λ w. w ++ calls) e ∙ append_assoc c.calls written calls

  -- The gate of a request that the validator lets pass to the limiter as `d`.
  limited-Gate :
      (c d : Context World)
      → c.request.method ≢ "OPTIONS"
      → (judged c).1 ≢ invalid_key
      → Extends c d
      → d.aborted ≡ false
      → (d.request ≡ c.request) × (d.claims ≡ c.claims)
      → d.api_key ≡ key_in c.api_key (judged c).1
      → (world : World) (verdict : Verdict) → rated c ≡ (world, verdict)
      → ((routes : List (Handler World))
          → run (gates parts routes) c
            ≡ by_verdict (run routes) (record d { world = world }) verdict)
      → Gate c
  unfolding by_verdict stop status_of write rate_headers
  limited-Gate c d other valid (w, more) fresh same key world check_failed e f =
      refused other valid 500 (ap status_of (ap (λ r. r.1) e) ∙ refl)
        (_, sym (ap (λ r. r.0) e), refl, (w, longer c d w (json 500 ∷ []) more), f)
  limited-Gate c d other valid (w, more) fresh same key world (limited h retry_after) e f =
      let headers = rate_headers h ++ set_header "Retry-After" retry_after ∷ [] in
      refused other valid 429 (ap status_of (ap (λ r. r.1) e)) (
        _,
        sym (ap (λ r. r.0) e),
        refl,
        (
          w ++ headers,
          longer c d w (headers ++ json 429 ∷ []) more
              ∙ ap (◌++◌ c.calls) (sym (append_assoc w headers (json 429 ∷ []))),
        ),
        f,
      )
  limited-Gate c d other valid (w, more) fresh same key world (passes h) e f =
      passed other valid h (ap (λ r. r.1) e) _
        (w ++ rate_headers h, longer c d w (rate_headers h) more) (sym (ap (λ r. r.0) e)) fresh same
        key f
  limited-Gate c d other valid (w, more) fresh same key world Tiers.panicked e f =
      broken other valid (ap (λ r. r.1) e) _ (w, more) f

  keyed-Gate :
      (c : Context World)
      → c.request.method ≢ "OPTIONS"
      → c.aborted ≡ false
      → (world : World) (verdict : KeyVerdict) → judged c ≡ (world, verdict)
      → ((routes : List (Handler World))
          → run (gates parts routes) c
            ≡ by_key
                (run (limit_rate limit ∷ routes))
                (record (write c cors_headers) { world = world })
                verdict)
      → Gate c
  unfolding by_key stop write
  keyed-Gate c other fresh world invalid_key e f = bad_key other (ap (λ r. r.1) e) (
    _,
    sym (ap (λ r. r.0) e),
    refl,
    (cors_headers, append_assoc c.calls cors_headers (json 401 ∷ [])),
    f,
  )
  keyed-Gate c other fresh world no_key e f =
      let d = (record (write c cors_headers) { world = world }) in
      limited-Gate c d other (λ h. absurd (cc)) (cors_headers, refl) fresh (refl, refl)
        (ap (λ r. key_in c.api_key r.1) (sym e)) (limit world c.request (c.api_key)).0
        (limit world c.request (c.api_key)).1
        (ap (λ r. limit r.0 c.request (key_in c.api_key r.1)) e)
        (λ routes. f routes ∙ limited_by d routes fresh)
  keyed-Gate c other fresh world (valid_key key) e f =
      let d = (record (write c cors_headers) {
        world = world;
        api_key = some key;
        last_used = c.last_used ++ key.id ∷ [];
      }) in
      limited-Gate c d other (λ h. absurd (cc)) (cors_headers, refl) fresh (refl, refl)
        (ap (λ r. key_in c.api_key r.1) (sym e)) (limit world c.request (some key)).0
        (limit world c.request (some key)).1
        (ap (λ r. limit r.0 c.request (key_in c.api_key r.1)) e)
        (λ routes. f routes ∙ limited_by d routes fresh)

  -- Every request is answered by one of the gates, whatever its routes are, or runs them with the key
  -- that it was validated with.
  pub gates-Gate : (c : Context World) → c.aborted ≡ false → Gate c
  unfolding write stop
  gates-Gate c fresh = elim (Bool-cases (str_eq c.request.method "OPTIONS")) [
    | inl e ↦ preflight ((eq_iff c.request.method "OPTIONS").0 e) (
      _,
      refl,
      refl,
      (cors_headers, append_assoc c.calls cors_headers (abort_with_status 204 ∷ [])),
      λ routes. cors_by c routes fresh ∙ cors-options c _ e,
    )
    | inr e ↦
        let c1 = write c cors_headers in
        keyed-Gate c (λ h. absurd (ground (arith, e, eq_iff c.request.method "OPTIONS", h))) fresh
          (judged c).0 (judged c).1 refl
          (λ routes. cors_by c routes fresh ∙ cors-other c _ e ∙ keyed_by c1 _ fresh)
  ]
