-- ===== src/LoadBalancer/Membership.antt =====
-- A strategy never makes up a target.
use mathlib.Core.List.{Memᴰ}
use api_gateway.Common.{
  ℤ, pos, negsuc, ltb_ℤ, max_int, remainder, String, str_eq, eq_refl, List, [], ◌∷◌, length,
  get_elem?, false, returns, Bool-cases, Option-cases, Outcome-cases, ◌≡◌, refl, sym, ◌∙◌, subst,
  ◌⊎◌, inl, inr, arith,
}
use api_gateway.LoadBalancer.RoundRobin
use api_gateway.LoadBalancer.RoundRobin.{RoundRobin, at_index}
use api_gateway.LoadBalancer.LeastConnections
use api_gateway.LoadBalancer.LeastConnections.{LeastConnections, scan}
use api_gateway.LoadBalancer.Random
use api_gateway.LoadBalancer.Random.{Rand}
use api_gateway.LoadBalancer.{Strategy, round_robin, random, least_connections, next}
use api_gateway.LoadBalancer.Selection.{mem_of_get_elem?}

returns_injective : {a b : String} → returns a ≡ returns b → a ≡ b
returns_injective e = cc

at_index-Mem :
    (targets : List String) (i : ℤ) (x : String) → at_index targets i ≡ returns x → Memᴰ x targets
unfolding at_index
at_index-Mem targets (negsuc n) x e = cc
at_index-Mem targets (pos i) x e = elim (Option-cases (get_elem? targets i)) [
  | inl none_ ↦ absurd (ground (arith, none_, e))
  | inr (t, found) ↦ mem_of_get_elem? i targets x (ground (arith, found, e))
]

-- The selection is among the targets seen, or the one it started with.
scan-Mem :
    (connections : String → ℤ) (targets all : List String) (m : ℤ) (selected : String)
    → ((t : String) → Memᴰ t targets → Memᴰ t all)
    → (selected ≡ "") ⊎ Memᴰ selected all
    → let x = scan connections targets m selected in (x ≡ "") ⊎ Memᴰ x all
unfolding scan
scan-Mem connections [] all m selected sub h = h
scan-Mem connections (t ∷ ts) all m selected sub h = elim (Bool-cases (ltb_ℤ (connections t) m)) [
  | inl e ↦ rw (e) (
      scan-Mem connections ts all (connections t) t (λ u k. sub u (Memᴰ.tail k))
        (inr (sub t (Memᴰ.head refl))))
  | inr e ↦ rw (e) (scan-Mem connections ts all m selected (λ u k. sub u (Memᴰ.tail k)) h)
]

least-Mem :
    (l : LeastConnections) (t : String) (ts : List String)
    → Memᴰ (LeastConnections.next l (t ∷ ts)) (t ∷ ts)
unfolding LeastConnections.next
least-Mem l t ts =
    let x = scan l.connections (t ∷ ts) (pos max_int) "" in
    elim (Bool-cases (str_eq x "")) [
      | inl e ↦ rw (e) (Memᴰ.head refl)
      | inr e ↦
          rw (e)
            (elim (scan-Mem l.connections (t ∷ ts) (t ∷ ts) (pos max_int) "" (λ u k. k)
              (inl refl)) [
                | inl e' ↦
                    let wrong = subst (λ y. str_eq y "" ≡ false) e' e in
                    absurd (ground (arith, sym (eq_refl "") ∙ wrong))
                | inr m ↦ m
              ])
    ]

module _ (rand : Rand) where
  open rand use {Rng}

  -- What any strategy in any state returns for a list of targets that is not empty is one of them.
  pub next-returns :
      (s : Strategy Rng) (t : String) (ts : List String) (x : String)
      → (next rand s (t ∷ ts)).1 ≡ returns x
      → Memᴰ x (t ∷ ts)
  unfolding next RoundRobin.next Random.next
  next-returns (round_robin r) t ts x e =
      let i = remainder r.current (length (t ∷ ts)) in
      elim (Outcome-cases (at_index (t ∷ ts) i)) [
        | inl p ↦ absurd (ground (arith, p, e))
        | inr (y, p) ↦ at_index-Mem (t ∷ ts) i x (ground (arith, p, e))
      ]
  next-returns (random rng) t ts x e =
      at_index-Mem (t ∷ ts) (pos (rand.intn rng (length (t ∷ ts))).1) x e
  next-returns (least_connections l) t ts x e =
      subst (λ y. Memᴰ y (t ∷ ts)) (returns_injective e) (least-Mem l t ts)
