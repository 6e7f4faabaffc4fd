-- ===== src/RateLimit/Factory/Tests.antt =====
-- Examples: thirty requests in a minute.
use api_gateway.Common.{ℕ, ◌+◌, ◌*◌, ◌≤◌, ◌<◌, pos, returns, ◌≡◌, arith}
use api_gateway.RateLimit.TokenBucket.{TokenBucket}
use api_gateway.RateLimit.Factory.{new_limiter, token_bucket}
use api_gateway.RateLimit.Factory.Rates.{new_limiter-refill}

new_limiter-refill_example :
    (t : TokenBucket) × (r : ℕ) × (new_limiter "token_bucket" (pos 30) 60000000000
      ≡ returns (token_bucket t))
    × (t.capacity ≡ pos 30)
    × (t.refill_rate ≡ pos r)
    × (60 ≤ 30 → (r * 60 ≤ 30) × (30 < r * 60 + 60))
    × (30 < 60 → 30 < r * 60)
new_limiter-refill_example = new_limiter-refill 30 60000000000 (omega arith)
