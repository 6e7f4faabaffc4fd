-- ===== src/LoadBalancer/LeastConnections/Tests.antt =====
-- Concrete runs of the least-connections strategy.
use api_gateway.Common.{pos, assign, List, [], ◌∷◌, String, ◌≡◌, refl, arith, eq_iff}
use api_gateway.LoadBalancer.LeastConnections.{
  LeastConnections, new_least_connections, scan, next, increment_target, decrement_target,
}
use api_gateway.LoadBalancer.LeastConnections.Minimal.{IsFirstLeast, IsNamed, next-IsFirstLeast}
use api_gateway.LoadBalancer.LeastConnections.InFlight.{History, start, began, ended}

-- Two requests to "a" and one to "b".
abbrev busy : LeastConnections
busy = record { connections = assign (assign (λ _. pos 0) "a" (pos 2)) "b" (pos 1) }

next-busy : next busy ("a" ∷ "b" ∷ "d" ∷ "e" ∷ []) ≡ "d"
unfolding next scan
next-busy = refl

abbrev targets : List String
targets = "a" ∷ "b" ∷ []

targets-IsNamed : IsNamed targets
targets-IsNamed = (ground (arith, eq_iff "a" ""), (ground (arith, eq_iff "b" ""), tt))

next-IsFirstLeast_example : IsFirstLeast busy.connections targets (next busy targets)
next-IsFirstLeast_example = next-IsFirstLeast busy "a" ("b" ∷ []) targets-IsNamed (omega arith)

history :
    History
      (decrement_target (increment_target (increment_target new_least_connections "a") "b") "a")
      ("b" ∷ [])
history = ended ("b" ∷ []) "a" [] refl (began "b" (omega arith) (began "a" (omega arith) start))
