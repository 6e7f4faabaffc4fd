-- ===== src/RateLimit/FixedWindow/Counters.antt =====
-- What Redis documents of the counters that INCR keeps.
use api_gateway.Common.{ℕ, ◌+◌, ◌≤◌, ◌<◌, ℤ, pos, String, true, ok, ◌≡◌, ◌≢◌, ◌⊎◌}
use api_gateway.Storage.{RedisClient, nil, fault}
use api_gateway.Storage.Expiry.{Expiry, lasts, expire_seconds}

-- `count s key` is the number stored under the key, 0 if there is none. INCR adds one and replies
-- with the sum; if it reports an error it may have done so or not. It keeps the deadline of the key. A
-- counter is there until its deadline; EXPIRE for no time deletes the key. A key that was never
-- incremented has no value to GET.
pub record Counters (redis : RedisClient) : Type 0 where
  pub count : redis.Store → String → ℕ
  pub expiry : Expiry redis
  pub incr_ok :
      (s : redis.Store) (key : String) (n : ℤ)
      → (redis.incr s key).1 ≡ ok n
      → (n ≡ pos (count s key + 1)) × (count (redis.incr s key).0 key ≡ count s key + 1)
  pub incr_grows : (s : redis.Store) (key : String) → count s key ≤ count (redis.incr s key).0 key
  pub incr_other :
      (s : redis.Store) (key other : String)
      → key ≢ other
      → count (redis.incr s key).0 other ≡ count s other
  pub incr_deadline :
      (s : redis.Store) (key : String)
      → expiry.deadline (redis.incr s key).0 key ≡ expiry.deadline s key
  pub incr_clock :
      (s : redis.Store) (key : String) → expiry.clock s ≤ expiry.clock (redis.incr s key).0
  pub at_count :
      (s : redis.Store) (t : ℕ) (key : String)
      → (count (expiry.at s t) key ≡ count s key) ⊎ (count (expiry.at s t) key ≡ 0)
  pub at_keeps :
      (s : redis.Store) (t : ℕ) (key : String)
      → lasts (expiry.deadline s key) (t + 1) ≡ true
      → count (expiry.at s t) key ≡ count s key
  pub expire_keeps :
      (s : redis.Store) (key : String) (duration : ℕ)
      → 0 < expire_seconds duration
      → count (redis.expire s key duration).0 key ≡ count s key
  pub expire_other :
      (s : redis.Store) (key : String) (duration : ℕ) (other : String)
      → key ≢ other
      → count (redis.expire s key duration).0 other ≡ count s other
  pub get_absent :
      (s : redis.Store) (key : String)
      → count s key ≡ 0
      → ((redis.get s key).1 ≡ nil) ⊎ ((e : redis.Fault) × ((redis.get s key).1 ≡ fault e))
