-- ===== src/RateLimit/FixedWindow/Limit.antt =====
-- The limit: within one window, requests under one key.
use Prim.Native.Nat.{min}
use native.Mathlib.Nat.{div-mul-le_self}
use api_gateway.Common.{
  ◌==◌, ℕ, ◌+◌, ◌-◌, ◌*◌, ◌/◌, ◌≤◌, ◌<◌, ℤ, pos, String, Bool, true, List, [], ◌∷◌, length, All,
  Outcome, returns, Result, ok, ◌≡◌, sym, subst, ◌⊎◌, inl, inr, arith, Result-cases, Bool-cases,
}
use api_gateway.Storage.{RedisClient}
use api_gateway.Storage.Expiry.{lasts, lasts_mono, lasts-some, expire_seconds, expire_seconds_lem}
use api_gateway.RateLimit.FixedWindow.{
  FixedWindowLimiter, current_window, allow_key, allow, window_seconds, second,
}
use api_gateway.RateLimit.FixedWindow.Boundaries.{div_upper}
use api_gateway.RateLimit.FixedWindow.Counters.{Counters}

-- The instant at which a window ends.
abbrev pub window_end : FixedWindowLimiter → ℕ → ℕ
window_end f w = (w + 1) * window_seconds f * second

seconds_span :
    (now x seconds : ℕ)
    → now / second < x
    → x ≤ now / second + seconds
    → (now < x * second) × (x * second ≤ now + seconds * second)
seconds_span now x seconds low high = omega arith

next_multiple : (n m : ℕ) → (n / m + 1) * m ≤ n + m
next_multiple n m = let low = div-mul-le_self n m in omega (arith, low)

-- A reading of the clock lies in its window, which is one of whole seconds.
pub in_window :
    (f : FixedWindowLimiter) (now w : ℕ)
    → current_window f now ≡ returns w
    → (0 < window_seconds f)
      × (now < window_end f w)
      × (window_end f w ≤ now + window_seconds f * second)
unfolding current_window
in_window f now w e = elim (Bool-cases (window_seconds f == 0)) [
  | inl y ↦ absurd (ground (arith, e, y))
  | inr n ↦
      let seconds = window_seconds f in
      let positive : 0 < seconds = ground (arith, n) in
      let same : now / second / seconds ≡ w = ground (arith, e, n) in
      let span =
        seconds_span now ((now / second / seconds + 1) * seconds) seconds
          (div_upper (now / second) seconds positive) (next_multiple (now / second) seconds) in
      subst
        (λ v.
          (0 < seconds)
          × (now < (v + 1) * seconds * second)
          × ((v + 1) * seconds * second ≤ now + seconds * second))
        same (positive, span.0, span.1)
]

module _ (redis : RedisClient) (laws : Counters redis) where
  open redis use {Store, Fault}
  open laws use {count, expiry}
  open expiry use {deadline, at}

  -- Successive requests under one key, each at the instant that it reads or, if it reads an earlier
  -- one than a request before it, at the server's, and how many of them are let through.
  abbrev pub allowed_one : Outcome (Result Fault Bool) → ℕ
  allowed_one (returns (ok true)) = 1
  allowed_one _ = 0

  unfoldable pub allows : FixedWindowLimiter → Store → String → List ℕ → Store × ℕ
  allows f s key [] = (s, 0)
  allows f s key (now ∷ times) =
      let (s', answer) = allow redis f (at s now) now key in
      let (s'', n) = allows f s' key times in (s'', allowed_one answer + n)

  -- The counter of the window, if it has a deadline, has it no earlier than the window's end.
  abbrev pub Stays : FixedWindowLimiter → Store → String → ℕ → Type 0
  Stays f s key w = lasts (deadline s (allow_key key w)) (window_end f w) ≡ true

  at-Stays :
      (f : FixedWindowLimiter) (s : Store) (now : ℕ) (key : String) (w : ℕ)
      → current_window f now ≡ returns w
      → Stays f s key w
      → (count (at s now) (allow_key key w) ≡ count s (allow_key key w)) × Stays f (at s now) key w
  unfolding lasts
  at-Stays f s now key w e stays =
      let k = allow_key key w in
      let (_, before, _) = in_window f now w e in
      (
        laws.at_keeps s now k
            (lasts_mono (deadline s k) (window_end f w) (now + 1) (omega (arith, before)) stays),
        ground (arith, expiry.at_deadline s now k, stays),
      )

  -- The first request of a window sets a deadline past its end.
  expire-Stays :
      (f : FixedWindowLimiter) (s : Store) (now : ℕ) (key : String) (w : ℕ)
      → current_window f now ≡ returns w
      → now ≤ expiry.clock s
      → Stays f s key w
      → let s' = (redis.expire s (allow_key key w) f.window).0 in
        (count s' (allow_key key w) ≡ count s (allow_key key w)) × Stays f s' key w
  unfolding lasts
  expire-Stays f s now key w e late stays =
      let k = allow_key key w in
      let (positive, _, span) = in_window f now w e in
      let seconds = expire_seconds_lem f.window positive in
      let some_time : 0 < expire_seconds f.window = omega (arith, seconds, positive) in
      (
        laws.expire_keeps s k f.window some_time,
        elim (expiry.expire_deadline s k f.window some_time) [
          | inl e ↦
              lasts-some _ (expiry.clock s + expire_seconds f.window * second) (window_end f w) e
                (omega (arith, span, seconds, late))
          | inr e ↦ subst (λ d. lasts d (window_end f w) ≡ true) (sym e) stays
        ],
      )

  -- What one request does to the counter of its window.
  allow_step :
      (f : FixedWindowLimiter) (s : Store) (now : ℕ) (key : String) (w limit : ℕ)
      → current_window f now ≡ returns w
      → f.limit ≡ pos limit
      → now ≤ expiry.clock s
      → Stays f s key w
      → let k = allow_key key w in
        let (s', answer) = allow redis f s now key in
        Stays f s' key w
        × (count s k ≤ count s' k)
        × ((allowed_one answer ≡ 0)
            ⊎ (allowed_one answer ≡ 1) × (count s' k ≡ count s k + 1) × (count s k < limit))
  unfolding allow
  allow_step f s now key w limit e l late stays =
      let k = allow_key key w in
      let s1 = (redis.incr s k).0 in
      let kept =
        subst (λ d. lasts d (window_end f w) ≡ true) (sym (laws.incr_deadline s k)) stays in
      let expired = expire-Stays f s1 now key w e (omega (arith, late, laws.incr_clock s k)) kept in
      elim (Result-cases (redis.incr s k).1) [
        | inl (err_, h) ↦ ground (arith, e, h, laws.incr_grows s k, kept)
        | inr (n, h) ↦ ground (arith, e, l, h, laws.incr_ok s k n h, kept, expired)
      ]

  -- Requests under one key whose readings of the clock lie in one window, each handled at the
  -- latest instant read so far: those that are let through are at most the limit less what the
  -- window's counter has before, whatever Redis fails to answer, if the deadline of that counter,
  -- should it have one, is not before the window's end.
  pub allows-limit :
      (f : FixedWindowLimiter) (s : Store) (key : String) (w limit : ℕ) (times : List ℕ)
      → f.limit ≡ pos limit
      → Stays f s key w
      → All (λ now. current_window f now ≡ returns w) times
      → (allows f s key times).1 ≤ limit - count s (allow_key key w)
  unfolding allows
  allows-limit f s key w limit [] l stays h = omega arith
  allows-limit f s key w limit (now ∷ times) l stays h =
      let s1 = at s now in
      let (same, stays') = at-Stays f s now key w h.0 stays in
      let step = allow_step f s1 now key w limit h.0 l (expiry.at_clock s now) stays' in
      ground (
        arith,
        same,
        step,
        allows-limit f (allow redis f s1 now key).0 key w limit times l step.0 h.1,
      )

  -- Every INCR is answered.
  unfoldable pub Answers : Type 0
  Answers = (s : Store) (key : String) → (n : ℤ) × ((redis.incr s key).1 ≡ ok n)

  allow_exact :
      (f : FixedWindowLimiter) (s : Store) (now : ℕ) (key : String) (w limit : ℕ)
      → Answers
      → current_window f now ≡ returns w
      → f.limit ≡ pos limit
      → now ≤ expiry.clock s
      → Stays f s key w
      → let k = allow_key key w in
        let (s', answer) = allow redis f s now key in
        Stays f s' key w
        × (count s' k ≡ count s k + 1)
        × (allowed_one answer + (limit - (count s k + 1)) ≡ limit - count s k)
  unfolding allow Answers
  allow_exact f s now key w limit a e l late stays =
      let k = allow_key key w in
      let s1 = (redis.incr s k).0 in
      let kept =
        subst (λ d. lasts d (window_end f w) ≡ true) (sym (laws.incr_deadline s k)) stays in
      let expired = expire-Stays f s1 now key w e (omega (arith, late, laws.incr_clock s k)) kept in
      let n = (a s k).0 in
      ground (arith, e, l, (a s k).1, laws.incr_ok s k n (a s k).1, kept, expired)

  -- If Redis answers every INCR, requests under one key whose readings of the clock lie in one
  -- window, each handled at the latest instant read so far, are let through as long as the window
  -- has room, if the deadline of the window's counter, should it have one, is not before the
  -- window's end.
  pub allows-exact :
      (f : FixedWindowLimiter) (s : Store) (key : String) (w limit : ℕ) (times : List ℕ)
      → Answers
      → f.limit ≡ pos limit
      → Stays f s key w
      → All (λ now. current_window f now ≡ returns w) times
      → (allows f s key times).1 ≡ min (length times) (limit - count s (allow_key key w))
  unfolding allows
  allows-exact f s key w limit [] a l stays h = ground arith
  allows-exact f s key w limit (now ∷ times) a l stays h =
      let s1 = at s now in
      let (same, stays') = at-Stays f s now key w h.0 stays in
      let step = allow_exact f s1 now key w limit a h.0 l (expiry.at_clock s now) stays' in
      ground (
        arith,
        same,
        step,
        allows-exact f (allow redis f s1 now key).0 key w limit times a l step.0 h.1,
      )
