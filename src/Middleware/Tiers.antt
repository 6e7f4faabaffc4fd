-- ===== src/Middleware/Tiers.antt =====
-- internal/middleware/ratelimit.go: the tier of a request, its limiter, and the answer.
pub mod Verdicts
mod Tests
use api_gateway.Common.{
  ℕ, ◌*◌, ℤ, pos, negsuc, sub_ℕ, ltb_ℤ, quotient, mul_int, add_ℤ, decimal_int, if◌then◌else◌,
  String, str_eq, List, [], ◌∷◌, Bool, Option, none, some, Outcome, returns, panics, Result, ok,
  err,
}
use api_gateway.Http.{Request}
use api_gateway.Config.{RateLimiterTier}
use api_gateway.Repository.ApiKeys.{ApiKey}
use api_gateway.Storage.{RedisClient}
use api_gateway.RateLimit.FixedWindow.{second}
use api_gateway.RateLimit.TokenBucket.{Floats, Json, Instants}
use api_gateway.RateLimit.Factory.{Limiter, new_limiter, allow, remaining, reset, limit_of}

pub find_tier_config : List RateLimiterTier → String → Option RateLimiterTier
find_tier_config [] tier_name = none
find_tier_config (tier ∷ tiers) tier_name =
    let found = find_tier_config tiers tier_name in
    if str_eq tier.name tier_name then some tier else found

-- What a request is limited by.
pub record Quota : Type 0 where
  pub tier : String
  pub key : String
  pub limit : ℤ
  pub algorithm : String

quota_of : String → String → Option RateLimiterTier → Quota
quota_of tier key none = record {
  tier = tier;
  key = key;
  limit = pos 60;
  algorithm = "fixed_window";
}
quota_of tier key (some config) = record {
  tier = tier;
  key = key;
  limit = config.requests_per_minute;
  algorithm = config.algorithm;
}

first_tier : List RateLimiterTier → Option RateLimiterTier
first_tier [] = none
first_tier (tier ∷ tiers) = some tier

-- By the key in the request's context, if there is one.
unfoldable pub quota : List RateLimiterTier → Request → Option ApiKey → Quota
unfolding quota_of first_tier
quota tiers req (some api_key) =
    quota_of api_key.tier api_key.id (find_tier_config tiers api_key.tier)
quota tiers req none = quota_of "basic" req.client_ip (first_tier tiers)

-- The headers `X-RateLimit-…`.
pub record RateHeaders : Type 0 where
  pub limit : String
  pub remaining : String
  pub reset : String
  pub tier : String

-- A failed check is answered with 500, a request over the limit with 429 and `Retry-After`.
pub data Verdict : Type 0 where
  check_failed : Verdict
  limited : RateHeaders → (retry_after : String) → Verdict
  passes : RateHeaders → Verdict
  panicked : Verdict

unfoldable pub status_of : Verdict → Option ℕ
status_of check_failed = some 500
status_of (limited h retry_after) = some 429
status_of (passes h) = none
status_of panicked = none

-- The zero time, that `Reset` returns beside an error: nanoseconds from the first of January of the year
-- 1 to 1970. A `time.Time` is not bound to the range of `int64`.
abbrev zero_time : ℤ
zero_time = negsuc 62135596799999999999

unfoldable pub seconds_until : ℤ → ℕ → ℤ
seconds_until reset_time now =
    let d = add_ℤ reset_time (sub_ℕ 0 now) in if ltb_ℤ d (pos 0) then pos 0 else quotient d second

module _ (floats : Floats) (json : Json floats) (redis : RedisClient) where
  open redis use {Store, Fault}

  -- The readings of the clock in one request.
  pub record Readings : Type 0 where
    pub allowed : Instants floats json redis
    pub remained : ℕ
    pub was_reset : ℕ
    pub until : ℕ

  -- The values that the code goes on with when it ignores an error.
  remaining_or_zero : Outcome (Result Fault ℤ) → Outcome ℤ
  remaining_or_zero panics = panics
  remaining_or_zero (returns (ok n)) = returns n
  remaining_or_zero (returns (err e)) = returns (pos 0)

  reset_or_zero : Outcome (Result Fault ℤ) → Outcome ℤ
  reset_or_zero panics = panics
  reset_or_zero (returns (ok t)) = returns t
  reset_or_zero (returns (err e)) = returns zero_time

  conclude : Quota → Limiter → ℕ → Bool → Outcome ℤ → Outcome ℤ → Verdict
  conclude q limiter until allowed panics _ = panicked
  conclude q limiter until allowed (returns left) panics = panicked
  conclude q limiter until allowed (returns left) (returns reset_time) =
      let headers : RateHeaders = record {
        limit = decimal_int (limit_of limiter);
        remaining = decimal_int left;
        reset = decimal_int (quotient reset_time second);
        tier = q.tier;
      } in
      if allowed
      then passes headers
      else limited headers (decimal_int (seconds_until reset_time until))

  report : Quota → Limiter → Readings → Store → Bool → Store × Verdict
  report q limiter at s allowed =
      let (s1, left) = remaining floats json redis limiter s at.remained q.key in
      let (s2, reset_time) = reset floats json redis limiter s1 at.was_reset q.key in
      (s2, conclude q limiter at.until allowed (remaining_or_zero left) (reset_or_zero reset_time))

  check : Quota → Limiter → Readings → Store × Outcome (Result Fault Bool) → Store × Verdict
  check q limiter at (s, panics) = (s, panicked)
  check q limiter at (s, returns (err e)) = (s, check_failed)
  check q limiter at (s, returns (ok allowed)) = report q limiter at s allowed

  limit_by : Quota → Readings → Store → Outcome Limiter → Store × Verdict
  limit_by q at s panics = (s, panicked)
  limit_by q at s (returns limiter) =
      check q limiter at (allow floats json redis limiter s at.allowed q.key)

  -- The handler that `RateLimitWithTier` returns.
  pub rate_limit_with_tier :
      List RateLimiterTier → Store → Readings → Request → Option ApiKey → Store × Verdict
  unfolding limit_by check report conclude remaining_or_zero reset_or_zero
  rate_limit_with_tier tiers s at req api_key =
      let q = quota tiers req api_key in
      limit_by q at s (new_limiter q.algorithm q.limit (60 * second))
