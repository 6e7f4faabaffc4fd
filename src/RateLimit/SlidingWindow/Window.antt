-- ===== src/RateLimit/SlidingWindow/Window.antt =====
-- The limit within a sliding window, for requests under one key that come one after the other.
use api_gateway.Common.{
  ℕ, ◌+◌, ◌≤◌, ◌<◌, pos, String, List, [], length, All, All-map, filter, filter-All, true, ◌≡◌,
  refl, sym, subst, inl, inr, arith,
}
use api_gateway.Storage.{RedisClient}
use api_gateway.Storage.Expiry.{lasts, lasts_mono, lasts_on}
use api_gateway.RateLimit.SlidingWindow.{SlidingWindowLimiter, window_start, allow, sliding_key}
use api_gateway.RateLimit.SlidingWindow.SortedSets.{SortedSets}
use api_gateway.RateLimit.SlidingWindow.Waiting.{
  Stay, Counted, Ready, in_window_now, in_window_twice, wait-Ready,
}
use api_gateway.RateLimit.SlidingWindow.Turns.{
  in_window, Turned, admitted, Adds, Covered, allow_turns,
}

module _ (redis : RedisClient) (laws : SortedSets redis) where
  open redis use {Store, Fault}
  open laws use {entries, above, expiry}
  open expiry use {clock, deadline, at}

  -- Requests under one key, each later than the one before, from an empty set on, and each at the instant
  -- that it reads: the store, the times let through, and the time of the last request.
  pub data Requests (f : SlidingWindowLimiter) (key : String) : Store → List ℕ → ℕ → Type 0 where
    first : (s : Store) → entries s (sliding_key key) ≡ [] → Requests f key s [] 0
    request :
        {s : Store} {times : List ℕ} {last : ℕ} (now : ℕ)
        → Requests f key s times last
        → last < now
        → Requests f key
            (allow redis f (at s now) now key).0
            (admitted redis laws (allow redis f (at s now) now key).1 now times)
            now

  turn-Stay :
      (f : SlidingWindowLimiter) (key : String) (limit now : ℕ) (s s' : Store)
      (times times' : List ℕ)
      → Ready redis laws f key limit s times now
      → Turned redis laws f limit now
          (entries s (sliding_key key))
          (entries s' (sliding_key key))
          (deadline s (sliding_key key))
          (deadline s' (sliding_key key))
          times
          times'
      → Stay redis laws f key s' (entries s' (sliding_key key))
  turn-Stay f key limit now s s' times times' (early, same, room, stay) (inl (e, after, kept)) =
      let k = sliding_key key in
      let on =
        All-map {P = λ t. lasts (deadline s k) (t + f.window) ≡ true}
          {Q = λ t. lasts (deadline s' k) (t + f.window) ≡ true}
          (λ t. lasts_on (deadline s k) (deadline s' k) (t + f.window) kept) (entries s k) stay in
      elim after [
        | inl q ↦ subst (Stay redis laws f key s') (sym q) on
        | inr q ↦ subst (Stay redis laws f key s') (sym q) (
            filter-All (λ t. lasts (deadline s' k) (t + f.window) ≡ true)
              (above (window_start f now)) (entries s k) on)
      ]
  turn-Stay f key limit now s s' times times' (early, same, room, stay)
        (inr (e, after, free, there)) =
      let k = sliding_key key in
      let on =
        All-map {P = λ t. t < now} {Q = λ t. lasts (deadline s' k) (t + f.window) ≡ true}
          (λ t le. lasts_mono (deadline s' k) (now + f.window) (t + f.window) (omega arith) there)
          (entries s k) early in
      subst (Stay redis laws f key s') (sym after) (
        there,
        filter-All (λ t. lasts (deadline s' k) (t + f.window) ≡ true) (above (window_start f now))
            (entries s k) on,
      )

  ready_All :
      (f : SlidingWindowLimiter) (now : ℕ) (xs : List ℕ)
      → All (λ t. t < now) xs
      → All (λ t. t ≤ now) xs × All (λ t. t ≤ now) (in_window redis laws f now xs)
  ready_All f now xs all =
      let late = All-map {P = λ t. t < now} {Q = λ t. t ≤ now} (λ t le. omega arith) xs all in
      (late, filter-All (λ t. t ≤ now) (above (window_start f now)) xs late)

  turn-Counted :
      (f : SlidingWindowLimiter) (key : String) (limit now : ℕ) (s s' : Store)
      (times times' : List ℕ)
      → 1024 ≤ f.window
      → Ready redis laws f key limit s times now
      → Turned redis laws f limit now
          (entries s (sliding_key key))
          (entries s' (sliding_key key))
          (deadline s (sliding_key key))
          (deadline s' (sliding_key key))
          times
          times'
      → (All (λ t. t ≤ now) (entries s' (sliding_key key)))
        × (in_window redis laws f now (entries s' (sliding_key key))
            ≡ in_window redis laws f now times')
        × (length (in_window redis laws f now times') ≤ limit)
  turn-Counted f key limit now s s' times times' wide (early, same, room, stay)
        (inl (e, after, kept)) =
      ground (
        arith,
        e,
        after,
        same,
        room,
        in_window_twice redis laws f now (entries s (sliding_key key)),
        ready_All f now (entries s (sliding_key key)) early,
      )
  turn-Counted f key limit now s s' times times' wide (early, same, room, stay)
        (inr (e, after, free, there)) =
      ground (
        arith,
        e,
        after,
        free,
        same,
        in_window_now redis laws f now wide,
        in_window_twice redis laws f now (entries s (sliding_key key)),
        ready_All f now (entries s (sliding_key key)) early,
      )

  Requests-Counted :
      (f : SlidingWindowLimiter) (key : String) (limit : ℕ) (s : Store) (times : List ℕ) (last : ℕ)
      → Adds redis laws
      → f.limit ≡ pos limit
      → 1024 ≤ f.window
      → Covered redis laws f
      → Requests f key s times last
      → Counted redis laws f key limit s times last
  Requests-Counted f key limit s times last adds l wide covered (first s' e) =
      subst
        (λ xs.
          All (λ t. t ≤ 0) xs
          × (in_window redis laws f 0 xs ≡ [])
          × (0 ≤ limit)
          × Stay redis laws f key s' xs)
        (sym e) (tt, refl, omega arith, tt)
  Requests-Counted f key limit s times last adds l wide covered
        (request {s = s0} {times = times0} {last = last0} now r h) =
      let s1 = at s0 now in
      let s2 = (allow redis f s1 now key).0 in
      let times2 = admitted redis laws (allow redis f s1 now key).1 now times0 in
      let before = Requests-Counted f key limit s0 times0 last0 adds l wide covered r in
      let ready = wait-Ready redis laws f key limit now last0 s0 times0 h before in
      let turned =
        allow_turns redis laws f key limit now s1 times0 adds l (omega (arith, wide)) covered
          (expiry.at_clock s0 now) ready.0 in
      let (early, same, room) =
        turn-Counted f key limit now s1 s2 times0 times2 wide ready turned in
      (early, same, room, turn-Stay f key limit now s1 s2 times0 times2 ready turned)

  -- Up to any request, the requests let through within the window that ends with it are at most the
  -- limit, for requests from an empty set on, each later than the one before and handled at the instant
  -- that it reads, a window of at least 1024 nanoseconds that is below a second or of whole seconds, and
  -- as long as ZADD and EXPIRE report no error.
  pub Requests-limit :
      (f : SlidingWindowLimiter) (key : String) (limit : ℕ) (s : Store) (times : List ℕ) (last : ℕ)
      → Adds redis laws
      → f.limit ≡ pos limit
      → 1024 ≤ f.window
      → Covered redis laws f
      → Requests f key s times last
      → length (filter (above (window_start f last)) times) ≤ limit
  Requests-limit f key limit s times last adds l wide covered r =
      (Requests-Counted f key limit s times last adds l wide covered r).2
