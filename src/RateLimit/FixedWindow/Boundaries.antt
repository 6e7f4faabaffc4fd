-- ===== src/RateLimit/FixedWindow/Boundaries.antt =====
-- Where a window ends.
use api_gateway.Common.{
  ℕ, ◌+◌, ◌*◌, ◌/◌, ◌≤◌, ◌<◌, ℤ, String, Bool, returns, Result, ◌≡◌, refl, sym, ap, ◌∙◌, subst, ◌↔◌,
  arith,
}
use native.Mathlib.Nat.{div-mul-le_self, div-lt_iff_lt-mul, div-eq_of_lt-le, le_trans}
use api_gateway.Storage.{RedisClient}
use api_gateway.RateLimit.FixedWindow.{
  allow, remaining, FixedWindowLimiter, second, window_seconds, current_window, reset,
}

returns_injective : {a b : ℕ} → returns a ≡ returns b → a ≡ b
returns_injective e = cc

pub div_upper : (a n : ℕ) → 0 < n → a < (a / n + 1) * n
div_upper a n h = (div-lt_iff_lt-mul {k = n} {x = a} {y = a / n + 1} h).0 (omega arith)

current_window_lem :
    (f : FixedWindowLimiter) (now : ℕ)
    → 0 < window_seconds f
    → current_window f now ≡ returns (now / second / window_seconds f)
unfolding current_window
current_window_lem f now h = ground arith

pub reset_lem :
    (f : FixedWindowLimiter) (now : ℕ)
    → 0 < window_seconds f
    → reset f now ≡ returns ((now / second / window_seconds f + 1) * window_seconds f)
unfolding reset
reset_lem f now h = rw (current_window_lem f now h, reset)

-- For a window of a second or more, `Reset` gives the end of the current window: it lies ahead, at
-- most one window away, and a later call counts in the same window exactly if it comes before it.
pub reset-current_window :
    (f : FixedWindowLimiter) (now later : ℕ)
    → 0 < window_seconds f
    → now ≤ later
    → (r : ℕ) × (reset f now ≡ returns r)
      × (now / second < r)
      × (r ≤ now / second + window_seconds f)
      × ((current_window f later ≡ current_window f now) ↔ (later / second < r))
reset-current_window f now later h le =
    let w = window_seconds f in
    let n = now / second in
    let m = later / second in
    let low = div-mul-le_self n w in
    let grows : n ≤ m = omega arith in
    (
      (n / w + 1) * w,
      reset_lem f now h,
      div_upper n w h,
      omega (arith, low),
      (
        λ e.
            let same : m / w ≡ n / w =
              returns_injective
                (sym (current_window_lem f later h) ∙ e ∙ current_window_lem f now h) in
            subst (λ q. m < (q + 1) * w) same (div_upper m w h),
        λ b.
            current_window_lem f later h
            ∙ ap returns (div-eq_of_lt-le {k = n / w} w (le_trans low grows) b)
            ∙ sym (current_window_lem f now h),
      ),
    )

module _ (redis : RedisClient) where
  open redis use {Store, Fault}

  -- Neither call panics for a window of a second or more.
  pub allow-returns :
      (f : FixedWindowLimiter) (s : Store) (now : ℕ) (key : String)
      → 0 < window_seconds f
      → (r : Result Fault Bool) × ((allow redis f s now key).1 ≡ returns r)
  unfolding allow
  allow-returns f s now key h = rw (current_window_lem f now h) (_, refl)

  pub remaining-returns :
      (f : FixedWindowLimiter) (s : Store) (now : ℕ) (key : String)
      → 0 < window_seconds f
      → (r : Result Fault ℤ) × ((remaining redis f s now key).1 ≡ returns r)
  unfolding remaining
  remaining-returns f s now key h = rw (current_window_lem f now h) (_, refl)
