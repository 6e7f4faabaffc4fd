-- ===== src/LoadBalancer/LeastConnections/InFlight.antt =====
-- The counts against the requests in flight, for calls interleaved in any order: `Handle` of the
-- proxy calls `Increment` before it forwards a request and `Decrement` when it is done.
use api_gateway.Common.{
  ℕ, ◌+◌, ◌≤◌, ◌<◌, pos, max_int, increment, decrement, if◌then◌else◌, String, str_eq, eq_iff,
  eq_refl, List, [], ◌∷◌, ◌++◌, length, ◌≡◌, refl, subst, arith,
}
use api_gateway.LoadBalancer.LeastConnections.{
  LeastConnections, new_least_connections, increment_target, decrement_target,
}

unfoldable pub count : String → List String → ℕ
count t [] = 0
count t (x ∷ xs) = (if str_eq x t then 1 else 0) + count t xs

-- The balancers that a history of requests leads to, with the targets of the requests in flight.
pub data History : LeastConnections → List String → Type 0 where
  start : History new_least_connections []
  began :
      {l : LeastConnections} {flying : List String} (t : String)
      → length flying < max_int
      → History l flying
      → History (increment_target l t) (t ∷ flying)
  ended :
      {l : LeastConnections} (before : List String) (t : String) (rest : List String)
      → {flying : List String} → flying ≡ before ++ t ∷ rest
      → History l flying
      → History (decrement_target l t) (before ++ rest)

pub count-le-length : (t : String) (xs : List String) → count t xs ≤ length xs
unfolding count
count-le-length t [] = omega arith
count-le-length t (x ∷ xs) = ground (arith, count-le-length t xs)

count-middle :
    (t : String) (xs : List String) (y : String) (zs : List String)
    → count t (xs ++ y ∷ zs) ≡ (if str_eq y t then 1 else 0) + count t (xs ++ zs)
unfolding count
count-middle t [] y zs = refl
count-middle t (x ∷ xs) y zs = ground (arith, count-middle t xs y zs)

-- The counts of a balancer are those of the targets of the requests in flight.
abbrev pub Counted : LeastConnections → List String → Type 0
Counted l flying = (t : String) → l.connections t ≡ pos (count t flying)

pub new-Counted : Counted new_least_connections []
unfolding new_least_connections count
new-Counted t = refl

pub increment_target-Counted :
    (l : LeastConnections) (u : String) (flying : List String)
    → length flying < max_int
    → Counted l flying
    → Counted (increment_target l u) (u ∷ flying)
unfolding increment_target count increment
increment_target-Counted l u flying room h t =
    ground (arith, h u, h t, eq_iff u t, count-le-length u flying)

pub decrement_target-Counted :
    (l : LeastConnections) (before : List String) (u : String) (rest : List String)
    → Counted l (before ++ u ∷ rest)
    → Counted (decrement_target l u) (before ++ rest)
unfolding decrement_target decrement
decrement_target-Counted l before u rest h t = ground (
  arith,
  h u,
  h t,
  eq_iff u t,
  eq_refl u,
  count-middle u before u rest,
  count-middle t before u rest,
)

-- After any history the count of a target is the number of its requests in flight.
pub History-connections :
    {l : LeastConnections} {flying : List String}
    → History l flying
    → (t : String) → l.connections t ≡ pos (count t flying)
History-connections start = new-Counted
History-connections (began {l = l} {flying = flying} u room h) =
    increment_target-Counted l u flying room (History-connections h)
History-connections (ended {l = l} before u rest e h) =
    decrement_target-Counted l before u rest (subst (Counted l) e (History-connections h))

-- Counts that are not negative and can still grow.
abbrev pub HasRoom : LeastConnections → Type 0
HasRoom l = (t : String) → (n : ℕ) × (l.connections t ≡ pos n) × (n < max_int)

-- A request that begins and ends leaves the counts as they were.
pub decrement_target-increment_target :
    (l : LeastConnections) (u t : String)
    → HasRoom l
    → (decrement_target (increment_target l u) u).connections t ≡ l.connections t
unfolding decrement_target increment_target increment decrement
decrement_target-increment_target l u t room =
    let (n, e, h) = room u in ground (arith, e, h, eq_iff u t, eq_refl u)
