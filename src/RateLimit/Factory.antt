-- ===== src/RateLimit/Factory.antt =====
-- internal/ratelimit/factory.go and interface.go: the limiters behind one interface.
pub mod Rates
pub mod Minutes
mod Tests
use api_gateway.Common.{
  ℕ, ◌*◌, ◌/◌, ℤ, pos, eq_ℤ, quotient, ◌==◌, if◌then◌else◌, String, str_eq, Bool, Outcome, returns,
  panics, Result, ok,
}
use api_gateway.Storage.{RedisClient}
use api_gateway.RateLimit.FixedWindow.{FixedWindowLimiter, second}
use api_gateway.RateLimit.SlidingWindow.{SlidingWindowLimiter}
use api_gateway.RateLimit.TokenBucket.{TokenBucket, Floats, Json, Instants, new_token_bucket}
use api_gateway.RateLimit

-- The types that implement the interface `Limiter`.
pub data Limiter : Type 0 where
  fixed_window : FixedWindowLimiter → Limiter
  sliding_window : SlidingWindowLimiter → Limiter
  token_bucket : TokenBucket → Limiter

-- Tokens per second for `limit` tokens in the window, and at least one.
pub refill_rate : ℤ → ℕ → ℤ
refill_rate limit window_seconds =
    let rate = quotient limit window_seconds in if eq_ℤ rate (pos 0) then pos 1 else rate

-- A window below one second divides by zero for a token bucket.
pub new_limiter : String → ℤ → ℕ → Outcome Limiter
unfolding refill_rate
new_limiter algorithm limit window =
    if str_eq algorithm "sliding_window"
    then returns (sliding_window (record { limit = limit; window = window }))
    else if str_eq algorithm "token_bucket"
    then (if window / second == 0
        then panics
        else returns (token_bucket (new_token_bucket limit (refill_rate limit (window / second)))))
    else returns (fixed_window (record { limit = limit; window = window }))

pub limit_of : Limiter → ℤ
limit_of (fixed_window f) = f.limit
limit_of (sliding_window f) = f.limit
limit_of (token_bucket t) = t.capacity

module _ (floats : Floats) (json : Json floats) (redis : RedisClient) where
  open redis use {Store, Fault}

  -- The readings of the clock are those of the token bucket; the others read it once.
  pub allow :
      Limiter → Store → Instants floats json redis → String → Store × Outcome (Result Fault Bool)
  allow (fixed_window f) s at key = RateLimit.FixedWindow.allow redis f s at.now key
  allow (sliding_window f) s at key =
      let (s', answer) = RateLimit.SlidingWindow.allow redis f s at.now key in (s', returns answer)
  allow (token_bucket t) s at key =
      let (s', answer) = RateLimit.TokenBucket.allow floats json redis t s at key in
      (s', returns answer)

  pub remaining : Limiter → Store → ℕ → String → Store × Outcome (Result Fault ℤ)
  remaining (fixed_window f) s now key = RateLimit.FixedWindow.remaining redis f s now key
  remaining (sliding_window f) s now key =
      let (s', answer) = RateLimit.SlidingWindow.remaining redis f s now key in (s', returns answer)
  remaining (token_bucket t) s now key =
      let (s', answer) = RateLimit.TokenBucket.remaining floats json redis t s now key in
      (s', returns answer)

  -- An instant in nanoseconds since 1970.
  pub reset : Limiter → Store → ℕ → String → Store × Outcome (Result Fault ℤ)
  reset (fixed_window f) s now key = elim (RateLimit.FixedWindow.reset f now) [
    | panics ↦ (s, panics)
    | returns r ↦ (s, returns (ok (pos (r * second))))
  ]
  reset (sliding_window f) s now key =
      let (s', instant) = RateLimit.SlidingWindow.reset redis f s now key in
      (s', returns (ok instant))
  reset (token_bucket t) s now key =
      let (s', answer) = RateLimit.TokenBucket.reset floats json redis t s now key in
      (s', returns answer)
