-- ===== src/LoadBalancer/LeastConnections/Minimal.antt =====
-- `Next` returns the first of the targets with the fewest connections.
use api_gateway.Common.{
  ℤ, pos, max_int, ltb_ℤ, ◌≤ℤ◌, ◌<ℤ◌, List, [], ◌∷◌, ◌++◌, All, String, ◌≡◌, refl, ap, ◌≢◌, ◌⊎◌,
  inl, inr, Bool-cases, arith, All-map, All-middle, subst, str_ne, tests,
}
use api_gateway.LoadBalancer.LeastConnections.{LeastConnections, scan, next}

-- `x` stands in the list; whoever stands before it has more connections, whoever stands behind it
-- has no fewer.
pub record IsFirstLeast (connections : String → ℤ) (targets : List String) (x : String)
    : Type 0 where
  pub before : List String
  pub rest : List String
  pub split : targets ≡ before ++ x ∷ rest
  pub more : All (λ t. connections x <ℤ connections t) before
  pub no_fewer : All (λ t. connections x ≤ℤ connections t) rest

module _ (connections : String → ℤ) where
  IsFirstLeast-cons :
      (t : String) {ts : List String} {x : String}
      → connections x <ℤ connections t
      → IsFirstLeast connections ts x
      → IsFirstLeast connections (t ∷ ts) x
  IsFirstLeast-cons t h f = record {
    before = t ∷ f.before;
    rest = f.rest;
    split = ap (◌∷◌ t) f.split;
    more = (h, f.more);
    no_fewer = f.no_fewer;
  }

  -- The loop keeps its selection if nobody is below `min_conn`, and else finds the first least one.
  scan-cases :
      (ts : List String) (min_conn : ℤ) (selected : String)
      → (scan connections ts min_conn selected ≡ selected) × All (λ t. min_conn ≤ℤ connections t) ts
        ⊎ IsFirstLeast connections ts (scan connections ts min_conn selected)
          × (connections (scan connections ts min_conn selected) <ℤ min_conn)
  unfolding scan
  scan-cases [] min_conn selected = inl (refl, tt)
  scan-cases (t ∷ ts) min_conn selected = elim (Bool-cases (ltb_ℤ (connections t) min_conn)) [
    | inl less ↦ rw less (elim (scan-cases ts (connections t) t) [
      | inl (kept, above) ↦ inr (
        rw kept (record { before = []; rest = ts; split = refl; more = tt; no_fewer = above }),
        rw kept (omega tests),
      )
      | inr (found, below) ↦ inr (IsFirstLeast-cons t below found, omega tests)
    ])
    | inr least ↦ rw least (elim (scan-cases ts min_conn selected) [
      | inl (kept, above) ↦ inl (kept, (omega tests, above))
      | inr (found, below) ↦ inr (IsFirstLeast-cons t (omega tests) found, below)
    ])
  ]

-- The empty name, which `Next` takes for "nothing selected", is none of the targets.
abbrev pub IsNamed : List String → Type 0
IsNamed = All (λ t. t ≢ "")

-- With counts in the range of `int` and no empty name among the targets, `Next` returns the first
-- of the targets with the fewest connections.
pub next-IsFirstLeast :
    (l : LeastConnections) (t : String) (ts : List String)
    → IsNamed (t ∷ ts)
    → All (λ t. l.connections t ≤ℤ pos max_int) (t ∷ ts)
    → IsFirstLeast l.connections (t ∷ ts) (next l (t ∷ ts))
unfolding next
next-IsFirstLeast l t ts named bounded = elim (scan-cases l.connections (t ∷ ts) (pos max_int) "") [
  | inl (kept, above) ↦ rw kept (record {
    before = [];
    rest = ts;
    split = refl;
    more = tt;
    no_fewer = All-map (λ u h. omega (arith, bounded.0)) ts above.1;
  })
  | inr (found, below) ↦
      let x = scan l.connections (t ∷ ts) (pos max_int) "" in
      let in_list = subst IsNamed found.split named in
      rw (str_ne x "" (All-middle _ found.before x found.rest in_list)) found
]
