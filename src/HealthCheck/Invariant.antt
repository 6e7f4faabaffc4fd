-- ===== src/HealthCheck/Invariant.antt =====
-- What holds of a checker however its checks interleave, so that no section panics.
use api_gateway.Common.{
  ℕ, suc, ℤ, pos, increment, ◌≤ℤ◌, ◌<ℤ◌, max_int, assign, String, str_eq, List, [], ◌∷◌, true,
  Option, some, none, returns, ◌≡◌, refl, subst, arith, All, All-map, assign_self, inl, inr,
  Bool-cases,
}
use api_gateway.HealthCheck.{
  Status, Checker, Check, Config, new_checker, init_statuses, initial_status, check_each, succeed,
  fail,
}
use api_gateway.HealthCheck.Records.{
  judge, after_check, check_target_lem, IsTracked, AllTracked, after_check-IsTracked,
  after_check-AllTracked, after_check_self, after_check_other,
}

-- A healthy target has failed less often in a row than the limit.
abbrev pub IsBelow : ℤ → Status → Type 0
IsBelow limit s = s.is_healthy ≡ true → (pos 0 ≤ℤ s.failure_count) × (s.failure_count <ℤ limit)

-- What holds of a checker between two locked sections.
pub record WellFormed (c : Checker) : Type 0 where
  pub tracked : All (IsTracked c) c.targets
  pub positive : (pos 0 <ℤ c.max_failures) × (c.max_failures ≤ℤ pos max_int)
  pub below : (t : String) (s : Status) → c.health_status t ≡ some s → IsBelow c.max_failures s

judge-IsBelow :
    (c : Checker) (k : Check) (s : Status)
    → IsBelow c.max_failures s
    → (pos 0 <ℤ c.max_failures) × (c.max_failures ≤ℤ pos max_int)
    → IsBelow c.max_failures (judge c k s)
unfolding judge succeed fail increment
judge-IsBelow c k s h p up = ground arith

after_check-WellFormed :
    (c : Checker) (k : Check) (s : Status)
    → c.health_status k.target ≡ some s
    → WellFormed c
    → WellFormed (after_check c k s)
unfolding after_check
after_check-WellFormed c k s e w = record {
  tracked = All-map (λ t. after_check-IsTracked c k s t) c.targets w.tracked;
  positive = w.positive;
  below = below_after;
}
  where
    below_after :
        (t : String) (s' : Status)
        → (after_check c k s).health_status t ≡ some s'
        → IsBelow c.max_failures s'
    below_after t s' f = elim (Bool-cases (str_eq k.target t)) [
      | inl same ↦
          let now : judge c k s ≡ s' = cc (after_check_self c k s t same) in
          subst (IsBelow c.max_failures) now (judge-IsBelow c k s (w.below k.target s e) w.positive)
      | inr other ↦ w.below t s' (cc (after_check_other c k s t other))
    ]

-- What checks leave alone: only statuses change, and no target loses its status.
pub record OnlyStatuses (c c' : Checker) : Type 0 where
  pub targets : c'.targets ≡ c.targets
  pub healthy_targets : c'.healthy_targets ≡ c.healthy_targets
  pub endpoint : c'.endpoint ≡ c.endpoint
  pub max_failures : c'.max_failures ≡ c.max_failures
  pub running : c'.running ≡ c.running
  pub stop_closed : c'.stop_closed ≡ c.stop_closed
  pub tracked : (t : String) → IsTracked c t → IsTracked c' t

after_check-OnlyStatuses :
    (c : Checker) (k : Check) (s : Status) {c' : Checker}
    → OnlyStatuses (after_check c k s) c'
    → OnlyStatuses c c'
after_check-OnlyStatuses c k s o = record {
  targets = unfold after_check in o.targets;
  healthy_targets = unfold after_check in o.healthy_targets;
  endpoint = unfold after_check in o.endpoint;
  max_failures = unfold after_check in o.max_failures;
  running = unfold after_check in o.running;
  stop_closed = unfold after_check in o.stop_closed;
  tracked = λ t h. o.tracked t (after_check-IsTracked c k s t h);
}

-- Checks of targets that have a status, in any order and number, do not panic, keep the checker well
-- formed, and change nothing but statuses.
pub check_each-WellFormed :
    (c : Checker) (ks : List Check)
    → WellFormed c
    → AllTracked c ks
    → (c' : Checker) × (check_each c ks ≡ returns c') × WellFormed c' × OnlyStatuses c c'
unfolding check_each
check_each-WellFormed c [] w h = (
  c,
  refl,
  w,
  record {
    targets = refl;
    healthy_targets = refl;
    endpoint = refl;
    max_failures = refl;
    running = refl;
    stop_closed = refl;
    tracked = λ t h. h;
  },
)
check_each-WellFormed c (k ∷ ks) w ((s, e), h) =
    let (c', r, w', o) =
      check_each-WellFormed (after_check c k s) ks (after_check-WellFormed c k s e w)
        (after_check-AllTracked c k s ks h) in
    (c', rw (check_target_lem c k s e) r, w', after_check-OnlyStatuses c k s o)

init_tracked :
    (clock : ℕ → ℕ) (i : ℕ) (st : String → Option Status) (ts : List String) (t : String)
    → (s : Status) × (st t ≡ some s)
    → (s : Status) × (init_statuses clock i st ts t ≡ some s)
unfolding init_statuses
init_tracked clock i st [] t h = h
init_tracked clock i st (u ∷ ts) t (s, e) =
    init_tracked clock (suc i) _ ts t (elim (Bool-cases (str_eq u t)) [
      | inl same ↦ (initial_status u (clock i), rw same)
      | inr other ↦ (s, rw other e)
    ])

pub init-All :
    (clock : ℕ → ℕ) (i : ℕ) (st : String → Option Status) (ts : List String)
    → All (λ t. (s : Status) × (init_statuses clock i st ts t ≡ some s)) ts
unfolding init_statuses
init-All clock i st [] = tt
init-All clock i st (u ∷ ts) = (
  init_tracked clock (suc i) _ ts u (initial_status u (clock i), assign_self st u _),
  init-All clock (suc i) _ ts,
)

-- Every status is a fresh one.
pub init_fresh :
    (clock : ℕ → ℕ) (i : ℕ) (st : String → Option Status) (ts : List String)
    → ((t : String) (s : Status)
        → st t ≡ some s
        → (s.is_healthy ≡ true) × (s.failure_count ≡ pos 0))
    → (t : String) (s : Status) → init_statuses clock i st ts t ≡ some s
    → (s.is_healthy ≡ true) × (s.failure_count ≡ pos 0)
unfolding init_statuses
init_fresh clock i st [] h t s e = h t s e
init_fresh clock i st (u ∷ ts) h t s e =
    init_fresh clock (suc i) (assign st u (some (initial_status u (clock i)))) ts
      (λ t' s' e'. elim (Bool-cases (str_eq u t')) [
        | inl same ↦ ground arith
        | inr other ↦ h t' s' (ground arith)
      ])
      t s e

-- A new checker is well formed: every target has a status, which counts as healthy.
pub new_checker-WellFormed :
    (cfg : Config) (clock : ℕ → ℕ)
    → cfg.max_failures ≤ℤ pos max_int
    → WellFormed (new_checker cfg clock)
unfolding new_checker
new_checker-WellFormed cfg clock h = record {
  tracked = init-All clock 0 _ cfg.targets;
  positive = ground arith;
  below = λ t s e up.
      let fresh = init_fresh clock 0 (λ _. none) cfg.targets (λ _ _ e'. cc) t s e in ground arith;
}
