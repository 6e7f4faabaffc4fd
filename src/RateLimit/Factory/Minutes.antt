-- ===== src/RateLimit/Factory/Minutes.antt =====
-- Limiters with a window of a minute, which the middleware makes: they never panic.
use api_gateway.Common.{
  ℕ, ◌*◌, ℤ, String, str_eq, Bool, returns, Result, Bool-cases, ◌≡◌, refl, inl, inr, arith,
}
use api_gateway.Storage.{RedisClient}
use api_gateway.RateLimit.FixedWindow.{second, window_seconds}
use api_gateway.RateLimit.FixedWindow.Boundaries.{reset_lem, allow-returns, remaining-returns}
use api_gateway.RateLimit.TokenBucket.{Floats, Json, Instants}
use api_gateway.RateLimit.Factory.{
  Limiter, fixed_window, sliding_window, token_bucket, new_limiter, allow, remaining, reset,
}

-- A limiter whose window is a minute.
abbrev pub IsMinutely : Limiter → Type 0
IsMinutely (fixed_window f) = window_seconds f ≡ 60
IsMinutely (sliding_window f) = Unit
IsMinutely (token_bucket t) = Unit

pub minute_limiter :
    (algorithm : String) (limit : ℤ)
    → (l : Limiter) × (new_limiter algorithm limit (60 * second) ≡ returns l) × IsMinutely l
unfolding new_limiter
minute_limiter algorithm limit = elim (Bool-cases (str_eq algorithm "sliding_window")) [
  | inl e ↦ rw (e) (_, refl, tt)
  | inr e ↦ elim (Bool-cases (str_eq algorithm "token_bucket")) [
    | inl e' ↦ rw (e, e') (_, refl, tt)
    | inr e' ↦ rw (e, e') (_, refl, refl)
  ]
]

module _ (floats : Floats) (json : Json floats) (redis : RedisClient) where
  open redis use {Store, Fault}

  pub minute_allow :
      (l : Limiter) (s : Store) (at : Instants floats json redis) (key : String)
      → IsMinutely l
      → (r : Result Fault Bool) × ((allow floats json redis l s at key).1 ≡ returns r)
  unfolding allow
  minute_allow (fixed_window f) s at key m = allow-returns redis f s at.now key (omega (arith, m))
  minute_allow (sliding_window f) s at key m = (_, refl)
  minute_allow (token_bucket t) s at key m = (_, refl)

  pub minute_remaining :
      (l : Limiter) (s : Store) (now : ℕ) (key : String)
      → IsMinutely l
      → (r : Result Fault ℤ) × ((remaining floats json redis l s now key).1 ≡ returns r)
  unfolding remaining
  minute_remaining (fixed_window f) s now key m =
      remaining-returns redis f s now key (omega (arith, m))
  minute_remaining (sliding_window f) s now key m = (_, refl)
  minute_remaining (token_bucket t) s now key m = (_, refl)

  pub minute_reset :
      (l : Limiter) (s : Store) (now : ℕ) (key : String)
      → IsMinutely l
      → (r : Result Fault ℤ) × ((reset floats json redis l s now key).1 ≡ returns r)
  unfolding reset
  minute_reset (fixed_window f) s now key m =
      rw (reset_lem f now (omega (arith, m)), reset) (_, refl)
  minute_reset (sliding_window f) s now key m = (_, refl)
  minute_reset (token_bucket t) s now key m = (_, refl)
