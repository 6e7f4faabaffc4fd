-- ===== src/RateLimit/FixedWindow.antt =====
-- internal/ratelimit/fixed_window.go. `now` is the time that a call reads, in nanoseconds since 1970;
-- the length of the window, in nanoseconds too, is not negative.
pub mod Limit
pub mod Uncounted
pub mod Counters
pub mod Boundaries
mod Tests
use Prim.Native.String
use api_gateway.Common.{
  ℕ, ◌+◌, ◌*◌, ◌/◌, ℤ, pos, leb_ℤ, ltb_ℤ, eq_ℤ, minus_int, decimal, atoi, String, Bool, Outcome,
  returns, panics, Result, ok, err, if◌then◌else◌, ◌==◌,
}
use api_gateway.Storage.{RedisClient, Reply, value, nil, fault}

pub record FixedWindowLimiter : Type 0 where
  pub limit : ℤ
  pub window : ℕ

abbrev pub second : ℕ
second = 1000000000

abbrev pub window_seconds : FixedWindowLimiter → ℕ
window_seconds f = f.window / second

-- `time.Now().Unix() / int64(f.window.Seconds())`; a window below one second divides by zero.
pub current_window : FixedWindowLimiter → ℕ → Outcome ℕ
current_window f now =
    if window_seconds f == 0 then panics else returns (now / second / window_seconds f)

infixr 65 ◌++◌
abbrev pub ◌++◌ : String → String → String
s ++ t = String.◌++◌ s t

pub allow_key : String → ℕ → String
allow_key key window = "ratelimit:fixed:" ++ key ++ ":" ++ decimal window

pub remaining_key : String → ℕ → String
remaining_key key window = "ratelimit:" ++ key ++ ":" ++ decimal window

-- The limit less the count, and at least 0.
unfoldable pub left_over : ℤ → ℤ → ℤ
left_over limit count =
    let difference = minus_int limit count in if ltb_ℤ difference (pos 0) then pos 0 else difference

module _ (redis : RedisClient) where
  open redis use {Store, Fault}

  count_request : FixedWindowLimiter → String → Store × Result Fault ℤ → Store × Result Fault Bool
  count_request f redis_key (s, err e) = (s, err e)
  count_request f redis_key (s, ok count) =
      let s' = if eq_ℤ count (pos 1) then (redis.expire s redis_key f.window).0 else s in
      (s', ok (leb_ℤ count f.limit))

  allow_in : FixedWindowLimiter → Store → String → Outcome ℕ → Store × Outcome (Result Fault Bool)
  allow_in f s key panics = (s, panics)
  allow_in f s key (returns window) =
      let redis_key = allow_key key window in
      let (s', answer) = count_request f redis_key (redis.incr s redis_key) in (s', returns answer)

  pub allow : FixedWindowLimiter → Store → ℕ → String → Store × Outcome (Result Fault Bool)
  unfolding allow_in count_request
  allow f s now key = allow_in f s key (current_window f now)

  remaining_of : FixedWindowLimiter → Store × Reply Fault → Store × Result Fault ℤ
  remaining_of f (s, nil) = (s, ok f.limit)
  remaining_of f (s, fault e) = (s, err e)
  remaining_of f (s, value text) = (s, ok (left_over f.limit (atoi text)))

  remaining_in : FixedWindowLimiter → Store → String → Outcome ℕ → Store × Outcome (Result Fault ℤ)
  remaining_in f s key panics = (s, panics)
  remaining_in f s key (returns window) =
      let (s', answer) = remaining_of f (redis.get s (remaining_key key window)) in
      (s', returns answer)

  pub remaining : FixedWindowLimiter → Store → ℕ → String → Store × Outcome (Result Fault ℤ)
  unfolding remaining_in remaining_of
  remaining f s now key = remaining_in f s key (current_window f now)

-- The end of the current window, in seconds since 1970.
pub reset : FixedWindowLimiter → ℕ → Outcome ℕ
reset f now = elim (current_window f now) [
  | panics ↦ panics
  | returns window ↦ returns ((window + 1) * window_seconds f)
]
