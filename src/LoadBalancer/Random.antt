-- ===== src/LoadBalancer/Random.antt =====
-- internal/loadbalancer/random.go, over Go's generator of pseudo-random numbers.
use api_gateway.Common.{ℕ, zero, ◌<◌, pos, List, [], ◌∷◌, length, String, Outcome, returns}
use api_gateway.LoadBalancer.RoundRobin.{at_index}

-- math/rand: a source is seeded by a number, and `Intn(n)` is documented to lie in [0, n).
pub record Rand : Type 1 where
  pub Rng : Type 0
  pub new_rng : ℕ → Rng
  pub intn : Rng → ℕ → Rng × ℕ
  pub intn-lt : (r : Rng) (n : ℕ) → zero < n → (intn r n).1 < n

module _ (rand : Rand) where
  open rand use {Rng, intn}

  unfoldable pub next : Rng → List String → Rng × Outcome String
  next rng [] = (rng, returns "")
  next rng (t ∷ ts) =
      let (rng', i) = intn rng (length (t ∷ ts)) in (rng', at_index (t ∷ ts) (pos i))
