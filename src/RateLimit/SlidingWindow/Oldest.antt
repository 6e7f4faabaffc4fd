-- ===== src/RateLimit/SlidingWindow/Oldest.antt =====
-- The time that `Reset` reads back from the set that `Allow` writes.
use api_gateway.Common.{
  ℕ, ◌+◌, ◌≤◌, ◌<◌, pos, max_int, decimal_int, scan_int-decimal_int, String, List, [], ◌∷◌, ◌++◌,
  All, filter, true, ok, ◌≡◌, refl, sym, ap, ◌∙◌, subst, inl, inr, arith,
}
use api_gateway.Storage.{RedisClient}
use api_gateway.RateLimit.SlidingWindow.{
  SlidingWindowLimiter, allow, window_start, reset, reset_of, sliding_key,
}
use api_gateway.Storage.Expiry.{lasts_mono}
use api_gateway.RateLimit.SlidingWindow.Turns.{Adds, Covered, allow_turns}
use api_gateway.RateLimit.SlidingWindow.SortedSets.{SortedSets}

-- What is relied on of ZRANGE 0 0: the member with the least score, which is the time that was added
-- first, in the text that it was added with.
pub record Ranges (redis : RedisClient) (laws : SortedSets redis) : Type 0 where
  pub first_entry :
      (s : redis.Store) (key : String) (later : List ℕ) (oldest : ℕ) (members : List String)
      → laws.entries s key ≡ later ++ oldest ∷ []
      → All (λ t. oldest < t) later
      → (redis.z_range s key (pos 0) (pos 0)).1 ≡ ok members
      → members ≡ decimal_int (pos oldest) ∷ []

module _ (redis : RedisClient) (laws : SortedSets redis) (ranges : Ranges redis laws) where
  open redis use {Store}

  -- If Redis answers, `Reset` gives the time of the oldest entry and the window added.
  pub reset-oldest :
      (f : SlidingWindowLimiter) (s : Store) (now : ℕ) (key : String) (later : List ℕ) (oldest : ℕ)
      (members : List String)
      → laws.entries s (sliding_key key) ≡ later ++ oldest ∷ []
      → All (λ t. oldest < t) later
      → oldest ≤ max_int
      → (redis.z_range s (sliding_key key) (pos 0) (pos 0)).1 ≡ ok members
      → (reset redis f s now key).1 ≡ pos (oldest + f.window)
  unfolding reset reset_of
  reset-oldest f s now key later oldest members has least room answer =
      let member = ranges.first_entry s (sliding_key key) later oldest members has least answer in
      rw (answer, member, scan_int-decimal_int oldest room) refl

  -- If ZADD, EXPIRE and ZRANGE report no error, the time that `Allow` writes for a request that it lets
  -- through into an empty set is what `Reset` reads until a window later: it gives the request's time
  -- and the window added. The window is below a second or of whole seconds.
  pub reset-allow :
      (f : SlidingWindowLimiter) (s : Store) (now later : ℕ) (key : String) (limit : ℕ)
      (members : List String)
      → let s' = laws.expiry.at (allow redis f s now key).0 later in
        Adds redis laws
        → f.limit ≡ pos limit
        → Covered redis laws f
        → now ≤ laws.expiry.clock s
        → now ≤ later
        → later < now + f.window
        → now ≤ max_int
        → laws.entries s (sliding_key key) ≡ []
        → (allow redis f s now key).1 ≡ ok true
        → (redis.z_range s' (sliding_key key) (pos 0) (pos 0)).1 ≡ ok members
        → (reset redis f s' later key).1 ≡ pos (now + f.window)
  reset-allow f s now later key limit members adds l covered clock_ after_ soon room none_ passes
        answer =
      let k = sliding_key key in
      let s1 = (allow redis f s now key).0 in
      let s' = laws.expiry.at s1 later in
      let early = subst (All (λ t. t < now)) (sym none_) tt in
      elim (allow_turns redis laws f key limit now s [] adds l (omega arith) covered clock_ early) [
        | inl (same, _, _) ↦ absurd (cc (same, passes))
        | inr (_, after, _, there) ↦
            let still =
              lasts_mono (laws.expiry.deadline s1 k) (now + f.window) (later + 1) (omega arith)
                there in
            let one : laws.entries s' k ≡ now ∷ [] =
              laws.at_keeps s1 later k still
              ∙ after
              ∙ ap (λ xs. now ∷ filter (laws.above (window_start f now)) xs) none_ in
            reset-oldest f s' later key [] now members one tt room answer
      ]
