-- ===== src/RateLimit/SlidingWindow/Waiting.antt =====
-- The time between two requests: entries leave the window, and the set goes at its deadline.
use api_gateway.Common.{
  ℕ, ◌+◌, ◌≤◌, ◌<◌, String, List, [], length, All, All-map, filter-filter, length-filter, true,
  false, Bool-cases, filter-none, ◌≡◌, sym, ap, ◌∙◌, subst, inl, inr, arith,
}
use api_gateway.Storage.{RedisClient}
use api_gateway.Storage.Expiry.{lasts, lasts_on, lasts_before}
use api_gateway.RateLimit.SlidingWindow.{SlidingWindowLimiter, window_start, sliding_key}
use api_gateway.RateLimit.SlidingWindow.SortedSets.{SortedSets}
use api_gateway.RateLimit.SlidingWindow.Turns.{in_window}

module _ (redis : RedisClient) (laws : SortedSets redis) where
  open redis use {Store, Fault}
  open laws use {entries, above, expiry}
  open expiry use {clock, deadline, at}

  -- The set is there as long as one of its entries is in the window.
  abbrev pub Stay : SlidingWindowLimiter → String → Store → List ℕ → Type 0
  Stay f key s times = All (λ t. lasts (deadline s (sliding_key key)) (t + f.window) ≡ true) times

  abbrev pub Counted : SlidingWindowLimiter → String → ℕ → Store → List ℕ → ℕ → Type 0
  Counted f key limit s times last =
      All (λ t. t ≤ last) (entries s (sliding_key key))
      × (in_window redis laws f last (entries s (sliding_key key))
          ≡ in_window redis laws f last times)
      × (length (in_window redis laws f last times) ≤ limit)
      × Stay f key s (entries s (sliding_key key))

  in_window_mono :
      (f : SlidingWindowLimiter) (last now : ℕ) (times : List ℕ)
      → last ≤ now
      → in_window redis laws f now (in_window redis laws f last times)
        ≡ in_window redis laws f now times
  in_window_mono f last now times h =
      filter-filter (above (window_start f last)) (above (window_start f now)) times
        (λ t. laws.above_mono (window_start f last) (window_start f now) t (ground arith))

  pub in_window_now :
      (f : SlidingWindowLimiter) (now : ℕ) → 1024 ≤ f.window → above (window_start f now) now ≡ true
  in_window_now f now h = laws.above_ahead (window_start f now) now (ground arith)

  late_window :
      (f : SlidingWindowLimiter) (last now : ℕ) (xs ys : List ℕ)
      → last < now
      → in_window redis laws f last xs ≡ in_window redis laws f last ys
      → in_window redis laws f now xs ≡ in_window redis laws f now ys
  late_window f last now xs ys h e =
      sym (in_window_mono f last now xs (omega arith))
      ∙ ap (in_window redis laws f now) e
      ∙ in_window_mono f last now ys (omega arith)

  late_length :
      (f : SlidingWindowLimiter) (last now : ℕ) (xs : List ℕ)
      → last < now
      → length (in_window redis laws f now xs) ≤ length (in_window redis laws f last xs)
  late_length f last now xs h =
      subst (λ ys. length ys ≤ length (in_window redis laws f last xs))
        (in_window_mono f last now xs (omega arith))
        (length-filter (above (window_start f now)) (in_window redis laws f last xs))

  pub in_window_twice :
      (f : SlidingWindowLimiter) (now : ℕ) (xs : List ℕ)
      → in_window redis laws f now (in_window redis laws f now xs) ≡ in_window redis laws f now xs
  in_window_twice f now xs = in_window_mono f now now xs (omega arith)

  -- The state in which a request at the instant `now` finds the store.
  abbrev pub Ready : SlidingWindowLimiter → String → ℕ → Store → List ℕ → ℕ → Type 0
  Ready f key limit s times now =
      All (λ t. t < now) (entries s (sliding_key key))
      × (in_window redis laws f now (entries s (sliding_key key))
          ≡ in_window redis laws f now times)
      × (length (in_window redis laws f now times) ≤ limit)
      × Stay f key s (entries s (sliding_key key))

  kept-Ready :
      (f : SlidingWindowLimiter) (key : String) (limit now last : ℕ) (s : Store) (times : List ℕ)
      → last < now
      → Counted f key limit s times last
      → entries (at s now) (sliding_key key) ≡ entries s (sliding_key key)
      → Ready f key limit (at s now) times now
  kept-Ready f key limit now last s times h (early, same, room, stay) e =
      let k = sliding_key key in
      subst
        (λ xs.
          All (λ t. t < now) xs
          × (in_window redis laws f now xs ≡ in_window redis laws f now times)
          × (length (in_window redis laws f now times) ≤ limit)
          × Stay f key (at s now) xs)
        (sym e)
        (
          All-map {P = λ t. t ≤ last} {Q = λ t. t < now} (λ t le. omega arith) (entries s k) early,
          late_window f last now (entries s k) times h same,
          omega (arith, late_length f last now times h, room),
          All-map {P = λ t. lasts (deadline s k) (t + f.window) ≡ true}
              {Q = λ t. lasts (deadline (at s now) k) (t + f.window) ≡ true}
              (λ t.
                lasts_on (deadline s k) (deadline (at s now) k) (t + f.window)
                  (expiry.at_deadline s now k))
              (entries s k) stay,
        )

  -- When the set goes, none of its entries is in the window.
  gone-Ready :
      (f : SlidingWindowLimiter) (key : String) (limit now last : ℕ) (s : Store) (times : List ℕ)
      → last < now
      → Counted f key limit s times last
      → lasts (deadline s (sliding_key key)) (now + 1) ≡ false
      → entries (at s now) (sliding_key key) ≡ []
      → Ready f key limit (at s now) times now
  gone-Ready f key limit now last s times h (early, same, room, stay) due e =
      let k = sliding_key key in
      let behind =
        All-map {P = λ t. lasts (deadline s k) (t + f.window) ≡ true}
          {Q = λ t. above (window_start f now) t ≡ false}
          (λ t there.
            let old = lasts_before (deadline s k) (t + f.window) (now + 1) there due in
            laws.above_behind (window_start f now) t (ground (arith, old)))
          (entries s k) stay in
      let nothing = filter-none (above (window_start f now)) (entries s k) behind in
      subst
        (λ xs.
          All (λ t. t < now) xs
          × (in_window redis laws f now xs ≡ in_window redis laws f now times)
          × (length (in_window redis laws f now times) ≤ limit)
          × Stay f key (at s now) xs)
        (sym e)
        (
          tt,
          sym nothing ∙ late_window f last now (entries s k) times h same,
          omega (arith, late_length f last now times h, room),
          tt,
        )

  pub wait-Ready :
      (f : SlidingWindowLimiter) (key : String) (limit now last : ℕ) (s : Store) (times : List ℕ)
      → last < now
      → Counted f key limit s times last
      → Ready f key limit (at s now) times now
  wait-Ready f key limit now last s times h before =
      let k = sliding_key key in
      elim (Bool-cases (lasts (deadline s k) (now + 1))) [
        | inl there ↦ kept-Ready f key limit now last s times h before (laws.at_keeps s now k there)
        | inr due ↦ elim (laws.at_entries s now k) [
          | inl same ↦ kept-Ready f key limit now last s times h before same
          | inr gone ↦ gone-Ready f key limit now last s times h before due gone
        ]
      ]
