-- ===== src/RateLimit/FixedWindow/Uncounted.antt =====
-- `Remaining` reads another key than `Allow` counts under.
use Prim.Native.String.{count as chars}
use text.Mathlib.TextLemmas.{length-append as chars_append}
use api_gateway.Common.{
  ℕ, String, List, [], ◌∷◌, All, returns, ok, err, ◌≡◌, ◌≢◌, ◌⊎◌, inl, inr, ap, ◌∙◌, arith,
  Result-cases, decimal,
}
use api_gateway.Storage.{RedisClient}
use api_gateway.RateLimit.FixedWindow.{
  FixedWindowLimiter, current_window, allow_key, remaining_key, allow, remaining, ◌++◌,
}
use api_gateway.RateLimit.FixedWindow.Counters.{Counters}
use api_gateway.RateLimit.FixedWindow.Limit.{allows}

keys_differ : (key : String) (w : ℕ) → allow_key key w ≢ remaining_key key w
unfolding allow_key remaining_key
keys_differ key w e =
    let rest = key ++ ":" ++ decimal w in
    omega (arith, chars_append "ratelimit:fixed:" rest, chars_append "ratelimit:" rest, ap chars e)

module _ (redis : RedisClient) (laws : Counters redis) where
  open redis use {Store, Fault}
  open laws use {count, expiry}
  open expiry use {at}

  allow_other :
      (f : FixedWindowLimiter) (s : Store) (now : ℕ) (key other : String) (w : ℕ)
      → current_window f now ≡ returns w
      → allow_key key w ≢ other
      → count (allow redis f s now key).0 other ≡ count s other
  unfolding allow
  allow_other f s now key other w e ne =
      let k = allow_key key w in
      let s1 = (redis.incr s k).0 in
      elim (Result-cases (redis.incr s k).1) [
        | inl (_, h) ↦ ground (arith, e, h, laws.incr_other s k other ne)
        | inr (n, h) ↦
            ground
              (arith, e, h, laws.incr_other s k other ne, laws.expire_other s1 k f.window other ne)
      ]

  at_absent : (s : Store) (t : ℕ) (other : String) → count s other ≡ 0 → count (at s t) other ≡ 0
  at_absent s t other absent = ground (arith, laws.at_count s t other, absent)

  allows_other :
      (f : FixedWindowLimiter) (s : Store) (key other : String) (w : ℕ) (times : List ℕ)
      → All (λ now. current_window f now ≡ returns w) times
      → allow_key key w ≢ other
      → count s other ≡ 0
      → count (allows redis laws f s key times).0 other ≡ 0
  unfolding allows
  allows_other f s key other w [] h ne absent = absent
  allows_other f s key other w (now ∷ times) h ne absent =
      let s1 = at s now in
      let (s', _) = allow redis f s1 now key in
      let kept = allow_other f s1 now key other w h.0 ne in
      allows_other f s' key other w times h.1 ne (kept ∙ at_absent s now other absent)

  -- After any number of requests under a key in one window, `Remaining` in that window still gives the
  -- whole limit, or fails to read, if nothing else counts under the key that it reads.
  pub remaining-allows :
      (f : FixedWindowLimiter) (s : Store) (key : String) (w : ℕ) (times : List ℕ) (now : ℕ)
      → All (λ t. current_window f t ≡ returns w) times
      → current_window f now ≡ returns w
      → count s (remaining_key key w) ≡ 0
      → let answer = (remaining redis f (at (allows redis laws f s key times).0 now) now key).1 in
        (answer ≡ returns (ok f.limit)) ⊎ ((e : Fault) × (answer ≡ returns (err e)))
  unfolding remaining
  remaining-allows f s key w times now h e z =
      let k = remaining_key key w in
      let counted = (allows redis laws f s key times).0 in
      let s' = at counted now in
      let absent =
        at_absent counted now k (allows_other f s key k w times h (keys_differ key w) z) in
      ground (arith, e, laws.get_absent s' k absent)
