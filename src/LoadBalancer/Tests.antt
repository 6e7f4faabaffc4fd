-- ===== src/LoadBalancer/Tests.antt =====
-- Concrete uses of the strategies.
use api_gateway.Common.{ℕ, List, [], ◌∷◌, String}
use api_gateway.LoadBalancer.{Strategy, random}
use api_gateway.LoadBalancer.Random.{Rand}

-- A generator that always draws 0.
abbrev zeros : Rand
zeros = record { Rng = ℕ; new_rng = λ seed. seed; intn = λ r n. (r, 0); intn-lt = λ r n h. h }

abbrev abc : List String
abc = "a" ∷ "b" ∷ "c" ∷ []

abbrev drawn : Strategy ℕ
drawn = random 3
