-- ===== src/LoadBalancer/RoundRobin/Tests.antt =====
-- Concrete runs of the round robin.
use api_gateway.Common.{List, [], ◌∷◌, String, returns, ◌≡◌, refl, arith, increment, remainder}
use api_gateway.LoadBalancer.RoundRobin.{next}
use api_gateway.LoadBalancer.RoundRobin.Turns.{after, next_times, next_times-length}

abbrev abc : List String
abc = "a" ∷ "b" ∷ "c" ∷ []

-- Four calls in a row come round to the first target again.
four_turns : next_times 4 (after 1) abc ≡ returns "b" ∷ returns "c" ∷ returns "a" ∷ returns "b" ∷ []
unfolding next_times next increment remainder
four_turns = refl

next_times-length_example :
    next_times 3 (after 4) abc ≡ returns "b" ∷ returns "c" ∷ returns "a" ∷ []
next_times-length_example = next_times-length 4 abc (omega arith) (omega arith)
