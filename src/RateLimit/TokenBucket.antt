-- ===== src/RateLimit/TokenBucket.antt =====
-- internal/ratelimit/token_bucket.go. Instants are nanoseconds, 0 is the zero time. `float64` and
-- encoding/json are parameters.
pub mod Laws
pub mod Whole
pub mod Bounded
mod Tests
use Prim.Native.String
use api_gateway.Common.{
  ℕ, ◌*◌, ℤ, pos, eq_ℤ, mul_int, div_int, add_ℤ, elapsed, if◌then◌else◌, String, Bool, true, false,
  Outcome, returns, panics, Result, ok, err,
}
use api_gateway.Storage.{RedisClient, Reply, value, nil, fault}
use api_gateway.RateLimit.FixedWindow.{second}

-- `float64`: the operations that the code uses. `of_int` and `to_int` are Go's conversions, `seconds`
-- is `Duration.Seconds`.
pub record Floats : Type 1 where
  pub Float : Type 0
  pub of_int : ℤ → Float
  pub to_int : Float → ℤ
  pub seconds : ℤ → Float
  pub add : Float → Float → Float
  pub sub : Float → Float → Float
  pub mul : Float → Float → Float
  pub div : Float → Float → Float
  pub min : Float → Float → Float
  pub le : Float → Float → Bool

pub record TokenBucket : Type 0 where
  pub capacity : ℤ
  pub refill_rate : ℤ
  pub refill_every : ℕ

unfoldable pub new_token_bucket : ℤ → ℤ → TokenBucket
new_token_bucket capacity refill_rate = record {
  capacity = capacity;
  refill_rate = refill_rate;
  refill_every = second;
}

unfoldable pub bucket_key : String → String
bucket_key key = String.◌++◌ "ratelimit:bucket:" key

module _ (floats : Floats) where
  open floats use {Float, of_int, to_int, seconds, add, sub, mul, div, min, le}

  pub record BucketState : Type 0 where
    pub tokens : Float
    pub last_refill : ℕ

  -- The state after `now`, without the request's own token.
  pub refill : TokenBucket → BucketState → ℕ → BucketState
  refill t state now =
      let tokens_to_add = mul (seconds (elapsed now state.last_refill)) (of_int t.refill_rate) in
      record state {
        tokens = min (add state.tokens tokens_to_add) (of_int t.capacity);
        last_refill = now;
      }

  -- Whether there is a token for the request, and the state after it.
  pub consume : BucketState → Bool × BucketState
  consume state =
      if le (of_int (pos 1)) state.tokens
      then (true, record state { tokens = sub state.tokens (of_int (pos 1)) })
      else (false, state)

  -- encoding/json: `unmarshal` leaves what it can read of a text in a zero value.
  pub record Json : Type 0 where
    pub marshal : BucketState → String
    pub unmarshal : String → BucketState

  module _ (json : Json) (redis : RedisClient) where
    open redis use {Store, Fault}

    -- The instants at which `Allow` reads the clock, `initial` for a first request only.
    pub record Instants : Type 0 where
      pub initial : ℕ
      pub now : ℕ

    abbrev save : Store → String → Bool × BucketState → Store × Result Fault Bool
    save s redis_key (allowed, state) =
        ((redis.set s redis_key (json.marshal state) (3600 * second)).0, ok allowed)

    abbrev allow_from :
        TokenBucket → Store → Instants → String → BucketState → Store × Result Fault Bool
    allow_from t s at redis_key state = save s redis_key (consume (refill t state at.now))

    allow_of : TokenBucket → Instants → String → Store × Reply Fault → Store × Result Fault Bool
    allow_of t at redis_key (s, nil) =
        allow_from t s at redis_key
          (record { tokens = of_int t.capacity; last_refill = at.initial })
    allow_of t at redis_key (s, fault e) = (s, err e)
    allow_of t at redis_key (s, value data_) = allow_from t s at redis_key (json.unmarshal data_)

    pub allow : TokenBucket → Store → Instants → String → Store × Result Fault Bool
    unfolding allow_of
    allow t s at key = allow_of t at (bucket_key key) (redis.get s (bucket_key key))

    remaining_of : TokenBucket → ℕ → Store × Reply Fault → Store × Result Fault ℤ
    remaining_of t now (s, nil) = (s, ok t.capacity)
    remaining_of t now (s, fault e) = (s, err e)
    remaining_of t now (s, value data_) =
        (s, ok (to_int (refill t (json.unmarshal data_) now).tokens))

    pub remaining : TokenBucket → Store → ℕ → String → Store × Result Fault ℤ
    unfolding remaining_of
    remaining t s now key = remaining_of t now (redis.get s (bucket_key key))

    -- The instant at which the bucket is full again, in whole seconds from `now`.
    reset_of : TokenBucket → ℕ → Store × Reply Fault → Store × Result Fault ℤ
    reset_of t now (s, nil) = (s, ok (pos now))
    reset_of t now (s, fault e) = (s, err e)
    reset_of t now (s, value data_) =
        let tokens_needed = sub (of_int t.capacity) (json.unmarshal data_).tokens in
        let seconds_to_full = to_int (div tokens_needed (of_int t.refill_rate)) in
        (s, ok (add_ℤ (pos now) (mul_int seconds_to_full (pos second))))

    pub reset : TokenBucket → Store → ℕ → String → Store × Result Fault ℤ
    unfolding reset_of
    reset t s now key = reset_of t now (redis.get s (bucket_key key))

-- The time that a full bucket takes to refill, in nanoseconds; a rate of 0 divides by zero.
pub window : TokenBucket → Outcome ℤ
window t =
    if eq_ℤ t.refill_rate (pos 0)
    then panics
    else returns (mul_int (div_int t.capacity t.refill_rate) (pos second))
