-- ===== src/HealthCheck/Loop.antt =====
-- The goroutine that `Start` of internal/healthcheck/checker.go leaves behind.
use api_gateway.Common.{
  ℕ, zero, suc, List, All-map, Option, none, some, Outcome, returns, panics, ◌≡◌, refl, ◌∙◌, ◌⊎◌,
  inl, inr,
}
use api_gateway.HealthCheck.{Checker, Check, check_all}
use api_gateway.HealthCheck.Records.{AllTracked}
use api_gateway.HealthCheck.Invariant.{WellFormed}
use api_gateway.HealthCheck.Rounds.{check_all-Selection}

-- What `select` takes: a tick with the checks of its round, or the closed channel.
pub data Event : Type 0 where
  ticked : List Check → Event
  stopped : Event

-- The loop, `events i` for its iteration `i`; no result if it goes on past the fuel.
unfoldable pub loop : ℕ → (ℕ → Event) → Checker → Option (Outcome Checker)
loop zero events c = none
loop (suc fuel) events c = elim (events 0) [
  | stopped ↦ some (returns c)
  | ticked ks ↦ elim (check_all c ks) [
    | panics ↦ some panics
    | returns c' ↦ loop fuel (λ i. events (suc i)) c'
  ]
]

Event-cases : (e : Event) → (e ≡ stopped) ⊎ ((ks : List Check) × (e ≡ ticked ks))
Event-cases stopped = inl refl
Event-cases (ticked ks) = inr (ks, refl)

-- The loop ends, and without a panic, in as many iterations as it takes until `select` meets the
-- closed channel, whatever the rounds before find; the statuses stay well-formed.
pub loop-ends :
    (n : ℕ) (events : ℕ → Event) (c : Checker)
    → WellFormed c
    → ((i : ℕ) (ks : List Check) → events i ≡ ticked ks → AllTracked c ks)
    → events n ≡ stopped
    → (c' : Checker) × (loop (suc n) events c ≡ some (returns c'))
      × WellFormed c'
      × (c'.targets ≡ c.targets)
unfolding loop
loop-ends zero events c w tracked last = (c, rw (last, loop) refl, w, refl)
loop-ends (suc n) events c w tracked last = elim (Event-cases (events 0)) [
  | inl e ↦ (c, rw (e, loop) refl, w, refl)
  | inr (ks, e) ↦
      let (c1, round, w1, targets, run, closed, keep, chosen) =
        check_all-Selection c ks w (tracked 0 ks e) in
      let (c', ends, w', same) =
        loop-ends n (λ i. events (suc i)) c1 w1
          (λ i ks' e'. All-map (λ k. keep k.target) ks' (tracked (suc i) ks' e')) last in
      (c', rw (e, loop, round) ends, w', same ∙ targets)
]
