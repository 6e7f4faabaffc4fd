-- ===== src/LoadBalancer/LeastConnections.antt =====
-- internal/loadbalancer/least_connections.go. The mutex makes each call one step on the map.
pub mod Minimal
pub mod InFlight
mod Tests
use api_gateway.Common.{
  ℤ, pos, max_int, ltb_ℤ, increment, decrement, assign, List, [], ◌∷◌, String, str_eq,
  if◌then◌else◌,
}

-- A key that was never written reads as 0.
pub record LeastConnections : Type 0 where
  pub connections : String → ℤ

pub new_least_connections : LeastConnections
new_least_connections = record { connections = λ _. pos 0 }

-- The loop of `Next`, over the targets that are left.
unfoldable pub scan : (String → ℤ) → List String → ℤ → String → String
scan connections [] min_conn selected = selected
scan connections (target ∷ targets) min_conn selected =
    let conn = connections target in
    let less = ltb_ℤ conn min_conn in
    scan connections targets (if less then conn else min_conn) (if less then target else selected)

unfoldable pub next : LeastConnections → List String → String
next l [] = ""
next l (t ∷ ts) =
    let selected = scan l.connections (t ∷ ts) (pos max_int) "" in
    if str_eq selected "" then t else selected

pub increment_target : LeastConnections → String → LeastConnections
increment_target l target = record l {
  connections = assign l.connections target (increment (l.connections target));
}

pub decrement_target : LeastConnections → String → LeastConnections
decrement_target l target =
    if ltb_ℤ (pos 0) (l.connections target)
    then record l { connections = assign l.connections target (decrement (l.connections target)) }
    else l
