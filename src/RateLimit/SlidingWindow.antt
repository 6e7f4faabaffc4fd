-- ===== src/RateLimit/SlidingWindow.antt =====
-- internal/ratelimit/sliding_window.go. Times are in nanoseconds since 1970.
pub mod SortedSets
pub mod Turns
pub mod Waiting
pub mod Window
pub mod Oldest
pub mod Race
mod Tests
use Prim.Native.String
use api_gateway.Common.{
  ℕ, ◌+◌, ℤ, pos, sub_ℕ, add_ℕ, ltb_ℤ, decimal_int, scan_int, String, List, [], ◌∷◌, Bool, true,
  false, Result, ok, err, if◌then◌else◌,
}
use api_gateway.Storage.{RedisClient, z_rem_range_by_score, z_card}
use api_gateway.RateLimit.FixedWindow.{left_over}

pub record SlidingWindowLimiter : Type 0 where
  pub limit : ℤ
  pub window : ℕ

unfoldable pub sliding_key : String → String
sliding_key key = String.◌++◌ "ratelimit:sliding:" key

abbrev pub window_start : SlidingWindowLimiter → ℕ → ℤ
window_start f now = sub_ℕ now f.window

-- `countCmd.Val()`, the second reply.
abbrev pub count_val : List ℤ → ℤ
count_val (_ ∷ n ∷ _) = n
count_val _ = pos 0

module _ (redis : RedisClient) where
  open redis use {Store, Fault}

  -- The errors of ZADD and EXPIRE are ignored.
  add_request : SlidingWindowLimiter → Store → ℕ → String → Store
  add_request f s now redis_key =
      let s' = (redis.z_add s redis_key (redis.score (pos now)) (decimal_int (pos now))).0 in
      (redis.expire s' redis_key f.window).0

  count_request :
      SlidingWindowLimiter → ℕ → String → Store × Result Fault (List ℤ) → Store × Result Fault Bool
  count_request f now redis_key (s, err e) = (s, err e)
  count_request f now redis_key (s, ok replies) =
      if ltb_ℤ (count_val replies) f.limit
      then (add_request f s now redis_key, ok true)
      else (s, ok false)

  unfoldable pub allow : SlidingWindowLimiter → Store → ℕ → String → Store × Result Fault Bool
  unfolding count_request add_request
  allow f s now key =
      let redis_key = sliding_key key in
      count_request f now redis_key (
        redis.exec s
          (z_rem_range_by_score redis_key (pos 0) (window_start f now) ∷ z_card redis_key ∷ []))

  remaining_of : SlidingWindowLimiter → Store × Result Fault ℤ → Store × Result Fault ℤ
  remaining_of f (s, err e) = (s, err e)
  remaining_of f (s, ok count) = (s, ok (left_over f.limit count))

  pub remaining : SlidingWindowLimiter → Store → ℕ → String → Store × Result Fault ℤ
  unfolding remaining_of
  remaining f s now key =
      remaining_of f (redis.z_count s (sliding_key key) (window_start f now) (pos now))

  -- `later` is read if there is no entry.
  reset_of : SlidingWindowLimiter → ℕ → Store × Result Fault (List String) → Store × ℤ
  reset_of f later (s, ok (oldest ∷ _)) = (s, add_ℕ (scan_int oldest) f.window)
  reset_of f later (s, _) = (s, pos later)

  pub reset : SlidingWindowLimiter → Store → ℕ → String → Store × ℤ
  unfolding reset_of
  reset f s later key = reset_of f later (redis.z_range s (sliding_key key) (pos 0) (pos 0))
