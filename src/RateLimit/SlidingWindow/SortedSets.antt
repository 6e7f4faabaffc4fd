-- ===== src/RateLimit/SlidingWindow/SortedSets.antt =====
-- What Redis documents of the sorted set that holds the times of requests.
use api_gateway.Common.{
  ℕ, ◌+◌, ◌*◌, ◌≤◌, ◌<◌, ◌≤ℤ◌, ℤ, pos, add_ℕ, decimal_int, String, List, [], ◌∷◌, length, filter,
  All, Bool, true, false, none, some, ok, err, ◌≡◌, ◌⊎◌,
}
use api_gateway.Storage.{RedisClient, Command, z_rem_range_by_score, z_card}
use api_gateway.Storage.Expiry.{Expiry, lasts, expire_seconds}
use api_gateway.RateLimit.FixedWindow.{second}

-- `entries s key` are the times that were added under the key and not removed. Before its deadline the
-- set stays as it is, and a deadline goes with its set only. EXPIRE with a positive time sets the
-- deadline of a set that has an entry, unless it fails; for no time it would delete the set. Scores are
-- of type `float64`, so an entry stays if its score is above the bound as such: `above` compares them.
-- It is monotone, false for a time up to the bound, and true where the two lie at least 1024 apart,
-- which is the precision of scores below 2 ^ 63.
pub record SortedSets (redis : RedisClient) : Type 0 where
  pub entries : redis.Store → String → List ℕ
  pub expiry : Expiry redis
  pub above : ℤ → ℕ → Bool
  pub above_behind : (m : ℤ) (t : ℕ) → pos t ≤ℤ m → above m t ≡ false
  pub above_ahead : (m : ℤ) (t : ℕ) → add_ℕ m 1024 ≤ℤ pos t → above m t ≡ true
  pub above_mono : (m n : ℤ) (t : ℕ) → m ≤ℤ n → above n t ≡ true → above m t ≡ true
  pub exec_err :
      (s : redis.Store) (key : String) (m : ℤ) (e : redis.Fault)
      → let run = redis.exec s (z_rem_range_by_score key (pos 0) m ∷ z_card key ∷ []) in
        run.1 ≡ err e
        → (entries run.0 key ≡ entries s key)
          ⊎ (entries run.0 key ≡ filter (above m) (entries s key))
  pub exec_ok :
      (s : redis.Store) (key : String) (m : ℤ) (replies : List ℤ)
      → let run = redis.exec s (z_rem_range_by_score key (pos 0) m ∷ z_card key ∷ []) in
        run.1 ≡ ok replies
        → (entries run.0 key ≡ filter (above m) (entries s key))
          × (removed : ℤ) × (replies ≡ removed ∷ pos (length (entries run.0 key)) ∷ [])
  pub z_add_new :
      (s : redis.Store) (key : String) (t : ℕ)
      → All (λ u. u < t) (entries s key)
      → (redis.z_add s key (redis.score (pos t)) (decimal_int (pos t))).1 ≡ none
      → entries (redis.z_add s key (redis.score (pos t)) (decimal_int (pos t))).0 key
        ≡ t ∷ entries s key
  pub exec_deadline :
      (s : redis.Store) (key : String) (m : ℤ)
      → let s' = (redis.exec s (z_rem_range_by_score key (pos 0) m ∷ z_card key ∷ [])).0 in
        (expiry.deadline s' key ≡ expiry.deadline s key) ⊎ (expiry.deadline s' key ≡ none)
  pub exec_clock :
      (s : redis.Store) (commands : List Command)
      → expiry.clock s ≤ expiry.clock (redis.exec s commands).0
  pub z_add_clock :
      (s : redis.Store) (key : String) (score : redis.Score) (member : String)
      → expiry.clock s ≤ expiry.clock (redis.z_add s key score member).0
  pub at_entries :
      (s : redis.Store) (t : ℕ) (key : String)
      → (entries (expiry.at s t) key ≡ entries s key) ⊎ (entries (expiry.at s t) key ≡ [])
  pub at_keeps :
      (s : redis.Store) (t : ℕ) (key : String)
      → lasts (expiry.deadline s key) (t + 1) ≡ true
      → entries (expiry.at s t) key ≡ entries s key
  pub expire_keeps :
      (s : redis.Store) (key : String) (duration : ℕ)
      → 0 < expire_seconds duration
      → entries (redis.expire s key duration).0 key ≡ entries s key
  pub expire_ok :
      (s : redis.Store) (key : String) (duration : ℕ)
      → 0 < expire_seconds duration
      → 0 < length (entries s key)
      → (redis.expire s key duration).1 ≡ none
      → expiry.deadline (redis.expire s key duration).0 key
        ≡ some (expiry.clock s + expire_seconds duration * second)
