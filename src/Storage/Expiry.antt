-- ===== src/Storage/Expiry.antt =====
-- What Redis and its client library document of EXPIRE, and of keys that expire as time passes.
use api_gateway.Common.{
  ℕ, ◌+◌, ◌*◌, ◌/◌, ◌≤◌, ◌<◌, String, Bool, true, false, Option, none, some, ◌≡◌, ◌⊎◌,
  if◌then◌else◌, ◌==◌, leb, ltb, arith, refl,
}
use api_gateway.Storage.{RedisClient}
use api_gateway.RateLimit.FixedWindow.{second}

-- The whole seconds that the client sends for a duration: a fraction is cut off, but not to 0.
unfoldable pub expire_seconds : ℕ → ℕ
expire_seconds d = if d == 0 then 0 else if ltb d second then 1 else d / second

-- Whether a key with this deadline is there at all instants before `t`; a key without one stays.
unfoldable pub lasts : Option ℕ → ℕ → Bool
lasts none t = true
lasts (some d) t = leb t d

-- `clock` is the server's time in nanoseconds, and `at s t` the server when the instant `t` has come, or
-- `s` if it has come before. A key goes at its deadline, which goes with it. EXPIRE with a positive
-- number of seconds sets the deadline, unless it fails or finds no key.
pub record Expiry (redis : RedisClient) : Type 0 where
  pub clock : redis.Store → ℕ
  pub deadline : redis.Store → String → Option ℕ
  pub at : redis.Store → ℕ → redis.Store
  pub at_clock : (s : redis.Store) (t : ℕ) → t ≤ clock (at s t)
  pub at_deadline :
      (s : redis.Store) (t : ℕ) (key : String)
      → (deadline (at s t) key ≡ deadline s key) ⊎ (deadline (at s t) key ≡ none)
  pub expire_deadline :
      (s : redis.Store) (key : String) (duration : ℕ)
      → 0 < expire_seconds duration
      → let s' = (redis.expire s key duration).0 in
        (deadline s' key ≡ some (clock s + expire_seconds duration * second))
        ⊎ (deadline s' key ≡ deadline s key)

pub expire_seconds_lem : (d : ℕ) → 0 < d / second → expire_seconds d ≡ d / second
unfolding expire_seconds
expire_seconds_lem d h = ground arith

pub lasts_mono : (d : Option ℕ) (t u : ℕ) → u ≤ t → lasts d t ≡ true → lasts d u ≡ true
unfolding lasts
lasts_mono none t u le h = refl
lasts_mono (some d) t u le h = ground arith

pub lasts-some : (d : Option ℕ) (x t : ℕ) → d ≡ some x → t ≤ x → lasts d t ≡ true
unfolding lasts
lasts-some d x t e le = ground (arith, e)

pub lasts_before : (d : Option ℕ) (t u : ℕ) → lasts d t ≡ true → lasts d u ≡ false → t < u
unfolding lasts
lasts_before none t u h g = absurd (cc)
lasts_before (some d) t u h g = ground arith

pub lasts_on :
    (d d' : Option ℕ) (t : ℕ) → (d' ≡ d) ⊎ (d' ≡ none) → lasts d t ≡ true → lasts d' t ≡ true
unfolding lasts
lasts_on d d' t kept h = ground (arith, kept)
