-- ===== src/RateLimit/Factory/Rates.antt =====
-- How many tokens a bucket made by the factory refills in the whole seconds of its window.
use api_gateway.Common.{
  ℕ, ◌+◌, ◌*◌, ◌/◌, ◌≤◌, ◌<◌, pos, quotient, ◌==◌, if◌then◌else◌, returns, Bool-cases, ◌≡◌, refl,
  ◌↔◌, inl, inr, arith,
}
use api_gateway.RateLimit.TokenBucket.{TokenBucket, new_token_bucket}
use api_gateway.RateLimit.FixedWindow.{second}
use native.Mathlib.Nat.{div-mul-le_self, div-lt_iff_lt-mul}
use api_gateway.RateLimit.Factory.{refill_rate, new_limiter, token_bucket}

div_upper : (a n : ℕ) → 0 < n → a < (a / n + 1) * n
div_upper a n h = (div-lt_iff_lt-mul {k = n} {x = a} {y = a / n + 1} h).0 (omega arith)

div_step : (a n : ℕ) → 0 < n → a < a / n * n + n
div_step a n h = omega (arith, div_upper a n h)

refill_rate_lem :
    (limit n : ℕ) → refill_rate (pos limit) n ≡ (if limit / n == 0 then pos 1 else pos (limit / n))
unfolding refill_rate quotient
refill_rate_lem limit n = ground arith

rate_bounds :
    (limit n : ℕ)
    → 0 < n
    → (r : ℕ) × (refill_rate (pos limit) n ≡ pos r)
      × (n ≤ limit → (r * n ≤ limit) × (limit < r * n + n))
      × (limit < n → limit < r * n)
rate_bounds limit n h =
    let below : (limit / n < 1) ↔ (limit < 1 * n) =
      div-lt_iff_lt-mul {k = n} {x = limit} {y = 1} h in
    elim (Bool-cases (limit / n == 0)) [
      | inl e ↦
          let zero_rate : limit / n ≡ 0 = ground (arith, e) in
          let small = below.0 (omega (arith, zero_rate)) in
          (
            1,
            ground (arith, refill_rate_lem limit n, e),
            (λ le. absurd (omega (arith, le, small))),
            (λ lt. omega (arith, lt)),
          )
      | inr e ↦
          let rate : 0 < limit / n = ground (arith, e) in
          (
            limit / n,
            ground (arith, refill_rate_lem limit n, e),
            (λ le. (div-mul-le_self limit n, div_step limit n h)),
            (λ lt. absurd (omega (arith, rate, below.1 (omega (arith, lt))))),
          )
    ]

-- A token bucket made for `limit` requests in a window of `n` whole seconds and less than one more,
-- n > 0, has a rate of r tokens a second with r * n at most the limit, and less than n below it, if the
-- limit is at least n; for a smaller limit r * n is more than the limit. If the window has a fraction of
-- a second, what it refills in it may exceed r * n.
pub new_limiter-refill :
    (limit window : ℕ)
    → 0 < window / second
    → let n = window / second in
      (t : TokenBucket) × (r : ℕ) × (new_limiter "token_bucket" (pos limit) window
        ≡ returns (token_bucket t))
      × (t.capacity ≡ pos limit)
      × (t.refill_rate ≡ pos r)
      × (n ≤ limit → (r * n ≤ limit) × (limit < r * n + n))
      × (limit < n → limit < r * n)
unfolding new_limiter new_token_bucket
new_limiter-refill limit window h =
    let (r, e, large, small) = rate_bounds limit (window / second) h in
    (new_token_bucket (pos limit) (pos r), r, ground (arith, h, e), refl, refl, large, small)
