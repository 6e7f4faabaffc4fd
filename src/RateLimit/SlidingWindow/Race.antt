-- ===== src/RateLimit/SlidingWindow/Race.antt =====
-- The two round trips of `Allow` apart: the pipeline that counts, and the addition of the request.
use api_gateway.Common.{
  ℕ, ◌<◌, ℤ, pos, ltb_ℤ, String, List, [], ◌∷◌, map, length, length-filter, Bool, true, false,
  Result, ok, err, Bool-cases, ◌≡◌, refl, ap, ◌∙◌, inl, inr, arith,
}
use api_gateway.Storage.{RedisClient, z_rem_range_by_score, z_card}
use api_gateway.RateLimit.SlidingWindow.{
  SlidingWindowLimiter, allow, count_request, add_request, count_val, window_start, sliding_key,
}
use api_gateway.RateLimit.SlidingWindow.SortedSets.{SortedSets}

module _ (redis : RedisClient) where
  open redis use {Store, Fault}

  decide : SlidingWindowLimiter → Store × Result Fault (List ℤ) → Store × Result Fault Bool
  decide f (s, err e) = (s, err e)
  decide f (s, ok replies) = (s, ok (ltb_ℤ (count_val replies) f.limit))

  -- Up to the decision.
  unfoldable pub count_step : SlidingWindowLimiter → Store → ℕ → String → Store × Result Fault Bool
  unfolding decide
  count_step f s now key =
      let redis_key = sliding_key key in
      decide f (
        redis.exec s
          (z_rem_range_by_score redis_key (pos 0) (window_start f now) ∷ z_card redis_key ∷ []))

  -- From the decision on.
  unfoldable pub add_step : SlidingWindowLimiter → Store → ℕ → String → Result Fault Bool → Store
  unfolding add_request
  add_step f s now key (err e) = s
  add_step f s now key (ok false) = s
  add_step f s now key (ok true) = add_request redis f s now (sliding_key key)

  count_request-decide :
      (f : SlidingWindowLimiter) (now : ℕ) (key : String) (step : Store × Result Fault (List ℤ))
      → let (s', answer) = decide f step in
        count_request redis f now (sliding_key key) step ≡ (add_step f s' now key answer, answer)
  unfolding decide count_request add_step
  count_request-decide f now key (s, err e) = refl
  count_request-decide f now key (s, ok replies) =
      elim (Bool-cases (ltb_ℤ (count_val replies) f.limit)) [
        | inl y ↦ rw (y) refl
        | inr n ↦ rw (n) refl
      ]

  -- With nothing in between, the two are `Allow`.
  pub allow-eq-count_step :
      (f : SlidingWindowLimiter) (s : Store) (now : ℕ) (key : String)
      → let (s', answer) = count_step f s now key in
        allow redis f s now key ≡ (add_step f s' now key answer, answer)
  unfolding allow count_step
  allow-eq-count_step f s now key = count_request-decide f now key _

  -- Requests that all decide before one of them has added itself, with their answers.
  unfoldable pub count_all :
      SlidingWindowLimiter → String → Store → List ℕ → Store × List (Result Fault Bool)
  count_all f key s [] = (s, [])
  count_all f key s (now ∷ times) =
      let (s1, answer) = count_step f s now key in
      let (s2, answers) = count_all f key s1 times in (s2, answer ∷ answers)

  -- Redis answers the pipeline.
  unfoldable pub Answers : Type 0
  Answers =
      (s : Store) (key : String) (m : ℤ)
      → (replies : List ℤ) × ((redis.exec s
            (z_rem_range_by_score key (pos 0) m ∷ z_card key ∷ [])).1
          ≡ ok replies)

  module _ (laws : SortedSets redis) where
    open laws use {entries}

    count_step-passes :
        (f : SlidingWindowLimiter) (s : Store) (now : ℕ) (key : String) (limit : ℕ)
        → Answers
        → f.limit ≡ pos limit
        → length (entries s (sliding_key key)) < limit
        → ((count_step f s now key).1 ≡ ok true)
          × (length (entries (count_step f s now key).0 (sliding_key key)) < limit)
    unfolding count_step decide Answers
    count_step-passes f s now key limit answers l room =
        let k = sliding_key key in
        let m = window_start f now in
        let (replies, r) = answers s k m in
        let (kept, removed, shape) = laws.exec_ok s k m replies r in
        let shorter = length-filter (laws.above m) (entries s k) in
        ground (arith, r, l, shape, kept, shorter, room)

    -- Any number of requests that count before one of them has added itself are let through, as long
    -- as there is room for one.
    pub count_all-passes :
        (f : SlidingWindowLimiter) (key : String) (limit : ℕ) (s : Store) (times : List ℕ)
        → Answers
        → f.limit ≡ pos limit
        → length (entries s (sliding_key key)) < limit
        → (count_all f key s times).1 ≡ map (λ _. ok true) times
    unfolding count_all
    count_all-passes f key limit s [] answers l room = refl
    count_all-passes f key limit s (now ∷ times) answers l room =
        let (passes, room') = count_step-passes f s now key limit answers l room in
        ap (λ answer. answer ∷ (count_all f key (count_step f s now key).0 times).1) passes
        ∙ ap (◌∷◌ (ok true))
            (count_all-passes f key limit (count_step f s now key).0 times answers l room')
