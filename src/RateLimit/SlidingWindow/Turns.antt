-- ===== src/RateLimit/SlidingWindow/Turns.antt =====
-- What one request does to the set of its key.
use api_gateway.Common.{
  ℕ, ◌+◌, ◌*◌, ◌≤◌, ◌<◌, pos, decimal_int, String, List, [], ◌∷◌, length, All, filter, filter-All,
  Bool, true, Option, none, Result, ok, Result-cases, ◌≡◌, sym, subst, ◌⊎◌, inl, inr, arith,
}
use api_gateway.Storage.{RedisClient, z_rem_range_by_score, z_card}
use api_gateway.Storage.Expiry.{lasts, lasts-some, expire_seconds}
use api_gateway.RateLimit.FixedWindow.{second}
use api_gateway.RateLimit.SlidingWindow.{SlidingWindowLimiter, window_start, allow, sliding_key}
use api_gateway.RateLimit.SlidingWindow.SortedSets.{SortedSets}

module _ (redis : RedisClient) (laws : SortedSets redis) where
  open redis use {Store, Fault}
  open laws use {entries, above, expiry}
  open expiry use {clock, deadline, at}

  -- The times of the requests that were let through, the latest first.
  abbrev pub admitted : Result Fault Bool → ℕ → List ℕ → List ℕ
  admitted (ok true) now times = now ∷ times
  admitted _ now times = times

  abbrev pub in_window : SlidingWindowLimiter → ℕ → List ℕ → List ℕ
  in_window f now times = filter (above (window_start f now)) times

  -- ZADD and EXPIRE report no error.
  unfoldable pub Adds : Type 0
  Adds =
      ((s : Store) (key : String) (t : ℕ)
        → (redis.z_add s key (redis.score (pos t)) (decimal_int (pos t))).1 ≡ none)
      × ((s : Store) (key : String) (d : ℕ) → (redis.expire s key d).1 ≡ none)

  -- What a request does to the entries and to the deadline `d` of their set: nothing new, or one more if
  -- there is room, with a deadline that leaves it a whole window.
  abbrev pub Turned :
      SlidingWindowLimiter
      → ℕ
      → ℕ
      → (before after : List ℕ) → (d d' : Option ℕ) → (times times' : List ℕ) → Type 0
  Turned f limit now before after d d' times times' =
      ((times' ≡ times)
        × ((after ≡ before) ⊎ (after ≡ in_window f now before))
        × ((d' ≡ d) ⊎ (d' ≡ none)))
      ⊎ ((times' ≡ now ∷ times)
          × (after ≡ now ∷ in_window f now before)
          × (length (in_window f now before) < limit)
          × (lasts d' (now + f.window) ≡ true))

  -- The whole seconds of EXPIRE are no less than the window: it is below one second, or has no fraction.
  abbrev pub Covered : SlidingWindowLimiter → Type 0
  Covered f = f.window ≤ expire_seconds f.window * second

  pub allow_turns :
      (f : SlidingWindowLimiter) (key : String) (limit now : ℕ) (s : Store) (times : List ℕ)
      → Adds
      → f.limit ≡ pos limit
      → 0 < f.window
      → Covered f
      → now ≤ clock s
      → All (λ t. t < now) (entries s (sliding_key key))
      → let (s', answer) = allow redis f s now key in
        Turned f limit now
          (entries s (sliding_key key))
          (entries s' (sliding_key key))
          (deadline s (sliding_key key))
          (deadline s' (sliding_key key))
          times
          (admitted answer now times)
  unfolding allow Adds
  allow_turns f key limit now s times (adds, expires) l wide covered late h =
      let k = sliding_key key in
      let m = window_start f now in
      let commands = z_rem_range_by_score k (pos 0) m ∷ z_card k ∷ [] in
      let run = redis.exec s commands in
      let added = redis.z_add run.0 k (redis.score (pos now)) (decimal_int (pos now)) in
      let expired = redis.expire added.0 k f.window in
      let some_time : 0 < expire_seconds f.window = omega arith in
      elim (Result-cases run.1) [
        | inl (e, r) ↦ ground (arith, r, laws.exec_err s k m e r, laws.exec_deadline s k m)
        | inr (replies, r) ↦
            let (kept, removed, shape) = laws.exec_ok s k m replies r in
            let fresh =
              subst (All (λ t. t < now)) (sym kept)
                (filter-All (λ t. t < now) (above m) (entries s k) h) in
            let new = laws.z_add_new run.0 k now fresh (adds run.0 k now) in
            let entry : 0 < length (entries added.0 k) = ground (arith, new) in
            let sets =
              laws.expire_ok added.0 k f.window some_time entry (expires added.0 k f.window) in
            let clock1 = laws.exec_clock s commands in
            let clock2 = laws.z_add_clock run.0 k (redis.score (pos now)) (decimal_int (pos now)) in
            let stays =
              lasts-some (deadline expired.0 k) (clock added.0 + expire_seconds f.window * second)
                (now + f.window) sets (omega (arith, clock1, clock2, late, covered)) in
            ground (
              arith,
              r,
              l,
              kept,
              shape,
              new,
              stays,
              laws.exec_deadline s k m,
              laws.expire_keeps added.0 k f.window some_time,
            )
      ]
