-- ===== src/HealthCheck/Lifecycle.antt =====
-- Starting and stopping a checker, and its first round.
use api_gateway.Common.{
  ℕ, String, List, [], true, false, none, returns, panics, ◌≡◌, refl, ◌∙◌, arith, All, All-map,
}
use api_gateway.HealthCheck.{
  unhealthy, Checker, Config, Check, new_checker, and_then, start, stop, overall_health,
  get_healthy_targets,
}
use api_gateway.HealthCheck.Records.{IsTracked, AllTracked}
use api_gateway.HealthCheck.Selection.{IsUp}
use api_gateway.HealthCheck.Invariant.{WellFormed, init-All, init_fresh}
use api_gateway.HealthCheck.Rounds.{check_all-Selection}

-- The state after a round at the start of an idle checker: it runs, and its channel is as it was.
start_idle :
    (c : Checker) (ks : List Check)
    → WellFormed c
    → AllTracked c ks
    → c.running ≡ false
    → (c' : Checker) × (start c ks ≡ returns c')
      × WellFormed c'
      × (c'.running ≡ true)
      × (c'.stop_closed ≡ c.stop_closed)
      × ((t : String) → IsTracked c t → IsTracked c' t)
unfolding start
start_idle c ks w h idle =
    let c0 : Checker = record c { running = true } in
    let w0 : WellFormed c0 = record {
      tracked = w.tracked;
      positive = w.positive;
      below = w.below;
    } in
    let (c', r, w', _, run, closed, keep, _) = check_all-Selection c0 ks w0 h in
    (c', rw idle r, w', run, closed, keep)

stop_running :
    (c : Checker)
    → c.running ≡ true
    → c.stop_closed ≡ false
    → stop c ≡ returns (record c { stop_closed = true; running = false })
unfolding stop
stop_running c r s = ground arith

stop_closed_panics : (c : Checker) → c.running ≡ true → c.stop_closed ≡ true → stop c ≡ panics
unfolding stop
stop_closed_panics c r s = ground arith

-- A checker can be started once: `Stop` closes the channel for good, so a checker that is started,
-- stopped and started again panics at its next `Stop`, on closing a closed channel.
pub stop_after_restart :
    (c : Checker) (ks ks' : List Check)
    → WellFormed c
    → AllTracked c ks
    → AllTracked c ks'
    → c.running ≡ false
    → c.stop_closed ≡ false
    → (c' : Checker) × (and_then (and_then (start c ks) stop) (λ c2. start c2 ks') ≡ returns c')
      × (stop c' ≡ panics)
stop_after_restart c ks ks' w h h' idle open_channel =
    let (c1, r1, w1, run1, closed1, keep1) = start_idle c ks w h idle in
    let c2 : Checker = record c1 { stop_closed = true; running = false } in
    let w2 : WellFormed c2 = record {
      tracked = w1.tracked;
      positive = w1.positive;
      below = w1.below;
    } in
    let (c3, r3, _, run3, closed3, _) =
      start_idle c2 ks' w2 (All-map (λ k. keep1 k.target) ks' h') refl in
    (
      c3,
      rw (r1, stop_running c1 run1 (closed1 ∙ open_channel)) r3,
      stop_closed_panics c3 run3 closed3,
    )

-- Before its first round a new checker reports no healthy target and an unhealthy service, although
-- the status of every target says that it is up.
pub new_checker_unhealthy :
    (cfg : Config) (clock : ℕ → ℕ)
    → let c = new_checker cfg clock in
      All (IsUp c.health_status) cfg.targets
      × (get_healthy_targets c ≡ [])
      × (overall_health c ≡ unhealthy)
unfolding new_checker get_healthy_targets overall_health
new_checker_unhealthy cfg clock = (
  All-map
      (λ t h. (h.0, h.1, (init_fresh clock 0 (λ _. none) cfg.targets (λ _ _ e. cc) t h.0 h.1).0))
      cfg.targets (init-All clock 0 (λ _. none) cfg.targets),
  refl,
  refl,
)
