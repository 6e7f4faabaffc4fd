-- ===== src/LoadBalancer/Selection.antt =====
-- What every strategy promises to the proxy.
use mathlib.Core.List.{Memᴰ}
use api_gateway.Common.{
  ℕ, zero, suc, ◌<◌, ◌≤ℤ◌, pos, max_int, List, [], ◌∷◌, ◌++◌, All, length, get_elem?, drop-eq-cons,
  String, returns, ok, some, ◌≡◌, refl, ap, ◌∙◌, sym, subst, arith,
}
use api_gateway.LoadBalancer.RoundRobin
use api_gateway.LoadBalancer.RoundRobin.{RoundRobin, at_index, new_round_robin}
use api_gateway.LoadBalancer.RoundRobin.Turns.{after, next_in_turn}
use api_gateway.LoadBalancer.LeastConnections.Minimal.{IsNamed, next-IsFirstLeast}
use api_gateway.LoadBalancer.Random
use api_gateway.LoadBalancer.Random.{Rand}
use api_gateway.LoadBalancer.{
  Strategy, round_robin, random, least_connections, name, next, new_strategy,
}

pub mem_of_get_elem? : (i : ℕ) (xs : List String) (x : String) → get_elem? xs i ≡ some x → Memᴰ x xs
mem_of_get_elem? i [] x e = cc
mem_of_get_elem? zero (y ∷ ys) x e = Memᴰ.head (cc)
mem_of_get_elem? (suc i) (y ∷ ys) x e = Memᴰ.tail (mem_of_get_elem? i ys x e)

mem_middle : (xs : List String) (y : String) (zs : List String) → Memᴰ y (xs ++ y ∷ zs)
mem_middle [] y zs = Memᴰ.head refl
mem_middle (x ∷ xs) y zs = Memᴰ.tail (mem_middle xs y zs)

module _ (rand : Rand) where
  open rand use {Rng, intn, intn-lt}

  -- A round robin whose counter has not wrapped; counts that are in the range of `int`.
  abbrev pub IsReady : Strategy Rng → List String → Type 0
  IsReady (round_robin r) targets = (c : ℕ) × (r.current ≡ pos c) × (c < max_int)
  IsReady (random rng) targets = Unit
  IsReady (least_connections l) targets = All (λ t. l.connections t ≤ℤ pos max_int) targets

  random-Mem :
      (rng : Rng) (t : String) (ts : List String)
      → (x : String) × ((Random.next rand rng (t ∷ ts)).1 ≡ returns x) × Memᴰ x (t ∷ ts)
  unfolding Random.next at_index
  random-Mem rng t ts =
      let i = (intn rng (length (t ∷ ts))).1 in
      let (x, at, _) = drop-eq-cons i (t ∷ ts) (intn-lt rng (length (t ∷ ts)) (omega arith)) in
      (x, rw (at, at_index) refl, mem_of_get_elem? i (t ∷ ts) x at)

  -- Whatever the strategy, a list of named targets that is not empty yields one of them.
  pub next-Mem :
      (s : Strategy Rng) (t : String) (ts : List String)
      → IsNamed (t ∷ ts)
      → IsReady s (t ∷ ts)
      → (x : String) × ((next rand s (t ∷ ts)).1 ≡ returns x) × Memᴰ x (t ∷ ts)
  unfolding next
  next-Mem (round_robin r) t ts named (c, e, h) =
      let (x, at, step) = next_in_turn c (t ∷ ts) (omega arith) h in
      let same : r ≡ after c = λ i. record { current = e i } in
      (
        x,
        ap (λ p. p.1) (ap (λ q. RoundRobin.next q (t ∷ ts)) same ∙ step),
        mem_of_get_elem? _ (t ∷ ts) x at,
      )
  next-Mem (random rng) t ts named ready = random-Mem rng t ts
  next-Mem (least_connections l) t ts named ready =
      let f = next-IsFirstLeast l t ts named ready in
      (_, refl, subst (Memᴰ _) (sym f.split) (mem_middle f.before _ f.rest))

  -- The name of a strategy makes a strategy of that name.
  pub new_strategy-name :
      (s : Strategy Rng) (seed : ℕ)
      → (s' : Strategy Rng) × (new_strategy rand (name s) seed ≡ ok s') × (name s' ≡ name s)
  unfolding new_strategy name
  new_strategy-name (round_robin r) seed = (_, refl, refl)
  new_strategy-name (random rng) seed = (_, refl, refl)
  new_strategy-name (least_connections l) seed = (_, refl, refl)
