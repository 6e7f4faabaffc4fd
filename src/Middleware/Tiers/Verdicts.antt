-- ===== src/Middleware/Tiers/Verdicts.antt =====
-- The verdict on a request, by the answer of its limiter.
use api_gateway.Common.{
  ◌*◌, ℤ, List, Bool, true, false, Option, none, some, Outcome, returns, panics, Result, ok, err,
  ◌≡◌, refl, ◌≢◌,
}
use api_gateway.Http.{Request}
use api_gateway.Config.{RateLimiterTier}
use api_gateway.Repository.ApiKeys.{ApiKey}
use api_gateway.Storage.{RedisClient}
use api_gateway.RateLimit.FixedWindow.{second}
use api_gateway.RateLimit.Factory.Minutes.{
  IsMinutely, minute_limiter, minute_allow, minute_remaining, minute_reset,
}
use api_gateway.RateLimit.TokenBucket.{Floats, Json}
use api_gateway.RateLimit.Factory.{Limiter, new_limiter, allow, remaining, reset}
use api_gateway.Middleware.Tiers.{
  Quota, quota, Verdict, panicked, status_of, Readings, rate_limit_with_tier, limit_by, check,
  report, conclude, remaining_or_zero, reset_or_zero,
}

module _ (floats : Floats) (json : Json floats) (redis : RedisClient) where
  open redis use {Store, Fault}

  -- The verdict that an answer of the limiter calls for.
  abbrev pub Follows : Outcome (Result Fault Bool) → Verdict → Type 0
  Follows (returns (ok true)) verdict = status_of verdict ≡ none
  Follows (returns (ok false)) verdict = status_of verdict ≡ some 429
  Follows (returns (err e)) verdict = status_of verdict ≡ some 500
  Follows panics verdict = ⊥

  report_known :
      (q : Quota) (l : Limiter) (at : Readings floats json redis) (s : Store) (allowed : Bool)
      → let (s1, left) = remaining floats json redis l s at.remained q.key in
        (r : Result Fault ℤ)
        → left ≡ returns r
        → (t : Result Fault ℤ) → (reset floats json redis l s1 at.was_reset q.key).1 ≡ returns t
        → let verdict = (report floats json redis q l at s allowed).1 in
          Follows (returns (ok allowed)) verdict × (verdict ≢ panicked)
  unfolding report conclude remaining_or_zero reset_or_zero status_of
  report_known q l at s true (ok n) e (ok t) f = rw (e, f) (refl, λ p. cc)
  report_known q l at s true (ok n) e (err t) f = rw (e, f) (refl, λ p. cc)
  report_known q l at s true (err n) e (ok t) f = rw (e, f) (refl, λ p. cc)
  report_known q l at s true (err n) e (err t) f = rw (e, f) (refl, λ p. cc)
  report_known q l at s false (ok n) e (ok t) f = rw (e, f) (refl, λ p. cc)
  report_known q l at s false (ok n) e (err t) f = rw (e, f) (refl, λ p. cc)
  report_known q l at s false (err n) e (ok t) f = rw (e, f) (refl, λ p. cc)
  report_known q l at s false (err n) e (err t) f = rw (e, f) (refl, λ p. cc)

  report-Follows :
      (q : Quota) (l : Limiter) (at : Readings floats json redis) (s : Store) (allowed : Bool)
      → IsMinutely l
      → let verdict = (report floats json redis q l at s allowed).1 in
        Follows (returns (ok allowed)) verdict × (verdict ≢ panicked)
  report-Follows q l at s allowed m =
      let (r, e) = minute_remaining floats json redis l s at.remained q.key m in
      let s1 = (remaining floats json redis l s at.remained q.key).0 in
      let (t, f) = minute_reset floats json redis l s1 at.was_reset q.key m in
      report_known q l at s allowed r e t f

  check-Follows :
      (q : Quota) (l : Limiter) (at : Readings floats json redis)
      (step : Store × Outcome (Result Fault Bool))
      → IsMinutely l
      → (r : Result Fault Bool) × (step.1 ≡ returns r)
      → let verdict = (check floats json redis q l at step).1 in
        Follows step.1 verdict × (verdict ≢ panicked)
  unfolding check status_of
  check-Follows q l at (s, panics) m (r, e) = absurd (cc)
  check-Follows q l at (s, returns (err e)) m h = (refl, λ p. cc)
  check-Follows q l at (s, returns (ok allowed)) m h = report-Follows q l at s allowed m

  -- The verdict of a request follows the answer of the limiter for its tier: it passes, or is answered
  -- with 429, or with 500 if Redis fails; and no request panics.
  pub rate_limit_with_tier-Follows :
      (tiers : List RateLimiterTier) (s : Store) (at : Readings floats json redis) (req : Request)
      (api_key : Option ApiKey)
      → let q = quota tiers req api_key in
        let verdict = (rate_limit_with_tier floats json redis tiers s at req api_key).1 in
        (l : Limiter) × (new_limiter q.algorithm q.limit (60 * second) ≡ returns l)
        × Follows (allow floats json redis l s at.allowed q.key).1 verdict
        × (verdict ≢ panicked)
  unfolding rate_limit_with_tier limit_by
  rate_limit_with_tier-Follows tiers s at req api_key =
      let q = quota tiers req api_key in
      let (l, e, m) = minute_limiter q.algorithm q.limit in
      let (follows, calm) =
        check-Follows q l at (allow floats json redis l s at.allowed q.key) m
          (minute_allow floats json redis l s at.allowed q.key m) in
      rw (e) (l, refl, follows, calm)
