-- ===== src/Middleware/Tiers/Tests.antt =====
-- Examples: a request without a key, under a tier of two requests a minute.
use api_gateway.Common.{ℕ, ◌*◌, pos, String, List, [], ◌∷◌, Option, none, returns, ◌≡◌, ◌≢◌}
use api_gateway.Http.{Request}
use api_gateway.Config.{RateLimiterTier}
use api_gateway.Storage.InMemory.{in_memory}
use api_gateway.RateLimit.FixedWindow.{second}
use api_gateway.RateLimit.TokenBucket.{Json}
use api_gateway.RateLimit.TokenBucket.Whole.{whole}
use api_gateway.RateLimit.Factory.{Limiter, new_limiter, allow}
use api_gateway.Repository.ApiKeys.{ApiKey}
use api_gateway.Middleware.Tiers.{Readings, panicked, quota, rate_limit_with_tier}
use api_gateway.Middleware.Tiers.Verdicts.{Follows, rate_limit_with_tier-Follows}

abbrev free : RateLimiterTier
free = record {
  name = "free";
  requests_per_minute = pos 2;
  requests_per_hour = pos 100;
  algorithm = "fixed_window";
}

abbrev tiers : List RateLimiterTier
tiers = free ∷ []

abbrev blank : Json whole
blank = record { marshal = λ state. ""; unmarshal = λ text. record { tokens = 0; last_refill = 0 } }

abbrev at : Readings whole blank in_memory
at = record {
  allowed = record { initial = 61000000000; now = 61000000000 };
  remained = 61000000001;
  was_reset = 61000000002;
  until = 61000000003;
}

abbrev req : Request
req = record {
  method = "GET";
  path = "/";
  url_scheme = "";
  url_host = "";
  host = "gateway";
  headers = λ name. "";
  client_ip = "10.0.0.1";
}

abbrev no_key : Option ApiKey
no_key = none

abbrev empty : String → ℕ
empty key = 0

rate_limit_with_tier-Follows_example :
    let q = quota tiers req no_key in
    let verdict = (rate_limit_with_tier whole blank in_memory tiers empty at req no_key).1 in
    (l : Limiter) × (new_limiter q.algorithm q.limit (60 * second) ≡ returns l)
    × Follows whole blank in_memory (allow whole blank in_memory l empty at.allowed q.key).1 verdict
    × (verdict ≢ panicked)
rate_limit_with_tier-Follows_example =
    rate_limit_with_tier-Follows whole blank in_memory tiers empty at req no_key
