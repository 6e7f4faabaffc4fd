-- ===== src/Storage.antt =====
-- internal/storage/redis.go: the calls that the gateway makes of Redis. The client library and the
-- server are a parameter: each call takes the state of the server and of the connection, and returns
-- the next one with the reply.
pub mod Expiry
pub mod Expiring
pub mod InMemory
pub mod Texts
pub mod Values
pub mod Connections
use api_gateway.Common.{ℕ, ℤ, String, List, Option, Result, ◌≡◌, refl, ◌⊎◌, inl, inr}

pub data Reply (Fault : Type 0) : Type 0 where
  value : String → Reply Fault
  nil : Reply Fault
  fault : Fault → Reply Fault

-- The commands that a pipeline queues; each has an integer reply. The code writes the bounds of a
-- range in decimal: the integer stands for its text.
pub data Command : Type 0 where
  z_rem_range_by_score : (key : String) → (min max : ℤ) → Command
  z_card : (key : String) → Command

-- Durations are in nanoseconds. `Score` is the type of the scores, `float64`, and `score` converts an
-- `int64` to it.
pub record RedisClient : Type 1 where
  pub Store : Type 0
  pub Fault : Type 0
  pub Score : Type 0
  pub score : ℤ → Score
  pub get : Store → String → Store × Reply Fault
  pub set : Store → String → String → ℕ → Store × Option Fault
  pub incr : Store → String → Store × Result Fault ℤ
  pub expire : Store → String → ℕ → Store × Option Fault
  pub exec : Store → List Command → Store × Result Fault (List ℤ)
  pub z_add : Store → String → Score → String → Store × Option Fault
  pub z_count : Store → String → ℤ → ℤ → Store × Result Fault ℤ
  pub z_range : Store → String → ℤ → ℤ → Store × Result Fault (List String)
  pub ping : Store → Store × Option Fault

pub Reply-cases :
    {Fault : Type 0} (r : Reply Fault)
    → (r ≡ nil) ⊎ (((e : Fault) × (r ≡ fault e)) ⊎ ((text : String) × (r ≡ value text)))
Reply-cases nil = inl refl
Reply-cases (fault e) = inr (inl (e, refl))
Reply-cases (value text) = inr (inr (text, refl))
