-- ===== src/LoadBalancer.antt =====
-- internal/loadbalancer: the strategies behind one interface (interface.go) and their factory
-- (factory.go).
pub mod RoundRobin
pub mod LeastConnections
pub mod Random
pub mod Selection
pub mod Membership
mod Tests
use api_gateway.Common.{
  ℕ, List, String, str_eq, if◌then◌else◌, ◌||◌, Outcome, returns, Result, ok, err,
}
use RoundRobin.{new_round_robin}
use LeastConnections.{new_least_connections}
use Random.{Rand}
use Prim.Native.String

-- The types that implement the interface `Strategy`, over the generator's state.
pub data Strategy (Rng : Type 0) : Type 0 where
  round_robin : RoundRobin.RoundRobin → Strategy Rng
  random : Rng → Strategy Rng
  least_connections : LeastConnections.LeastConnections → Strategy Rng

pub name : {Rng : Type 0} → Strategy Rng → String
name (round_robin r) = "round_robin"
name (random rng) = "random"
name (least_connections l) = "least_connections"

module _ (rand : Rand) where
  open rand use {Rng, new_rng}

  unfoldable pub next : Strategy Rng → List String → Strategy Rng × Outcome String
  next (round_robin r) targets =
      let (r', result) = RoundRobin.next r targets in (round_robin r', result)
  next (random rng) targets =
      let (rng', result) = Random.next rand rng targets in (random rng', result)
  next (least_connections l) targets =
      (least_connections l, returns (LeastConnections.next l targets))

  -- `seed` is the time at which `NewRandom` reads the clock.
  unfoldable pub new_strategy : String → ℕ → Result String (Strategy Rng)
  new_strategy strategy_name seed =
      if str_eq strategy_name "round-robin"
        || str_eq strategy_name "round_robin"
        || str_eq strategy_name ""
      then ok (round_robin new_round_robin)
      else if str_eq strategy_name "random"
      then ok (random (new_rng seed))
      else if str_eq strategy_name "least-connection" || str_eq strategy_name "least_connections"
      then ok (least_connections new_least_connections)
      else err (String.◌++◌ "unknown load balancing strategy: " strategy_name)
