-- ===== src/LoadBalancer/RoundRobin.antt =====
-- internal/loadbalancer/round_robin.go. The mutex makes each call one step on `current`.
pub mod Turns
mod Tests
use api_gateway.Common.{
  ℤ, pos, negsuc, increment, remainder, List, [], ◌∷◌, length, get_elem?, String, Outcome, returns,
  panics, none, some,
}

pub record RoundRobin : Type 0 where
  pub current : ℤ

unfoldable pub new_round_robin : RoundRobin
new_round_robin = record { current = pos 0 }

-- `targets[i]`, which panics out of range.
unfoldable pub at_index : List String → ℤ → Outcome String
at_index targets (pos i) = elim (get_elem? targets i) [ none ↦ panics | some t ↦ returns t ]
at_index targets (negsuc n) = panics

-- `current++` is reached only if the indexing has not panicked.
advance : RoundRobin → Outcome String → RoundRobin × Outcome String
advance r (returns target) = (record r { current = increment r.current }, returns target)
advance r panics = (r, panics)

unfoldable pub next : RoundRobin → List String → RoundRobin × Outcome String
unfolding advance at_index
next r [] = (r, returns "")
next r (t ∷ ts) = advance r (at_index (t ∷ ts) (remainder r.current (length (t ∷ ts))))
