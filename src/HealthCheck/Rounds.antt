-- ===== src/HealthCheck/Rounds.antt =====
-- A whole round of checks: it does not panic, the list of healthy targets is what the statuses say,
-- and the overall health is what that list says.
use api_gateway.Common.{String, List, length, ◌<◌, returns, ◌≡◌, ◌↔◌, arith, All}
use api_gateway.HealthCheck.{
  healthy, unhealthy, Checker, Check, update_healthy_targets, check_all, overall_health,
}
use api_gateway.HealthCheck.Records.{IsTracked, AllTracked}
use api_gateway.HealthCheck.Selection.{IsUp, Selection, select_healthy_lem}
use api_gateway.HealthCheck.Invariant.{WellFormed, check_each-WellFormed}

update_healthy_targets-Selection :
    (c : Checker)
    → WellFormed c
    → (sel : List String) × (update_healthy_targets c
        ≡ returns (record c { healthy_targets = sel }))
      × Selection c.health_status c.targets sel
unfolding update_healthy_targets
update_healthy_targets-Selection c w =
    let (sel, r, q) = select_healthy_lem c.health_status c.targets w.tracked in
    (sel, rw (r, update_healthy_targets), q)

-- A round on a well-formed checker, of any checks of its targets in any order, does not panic, keeps
-- the checker well formed, its targets and its running state as they are and each of them tracked, and
-- leaves in the list of healthy targets those that are up after its checks, in the order of the targets.
pub check_all-Selection :
    (c : Checker) (ks : List Check)
    → WellFormed c
    → AllTracked c ks
    → (c' : Checker) × (check_all c ks ≡ returns c')
      × WellFormed c'
      × (c'.targets ≡ c.targets)
      × (c'.running ≡ c.running)
      × (c'.stop_closed ≡ c.stop_closed)
      × ((t : String) → IsTracked c t → IsTracked c' t)
      × Selection c'.health_status c'.targets c'.healthy_targets
unfolding check_all
check_all-Selection c ks w h =
    let (c1, r, w1, o) = check_each-WellFormed c ks w h in
    let (sel, u, q) = update_healthy_targets-Selection c1 w1 in
    let c2 : Checker = record c1 { healthy_targets = sel } in
    let w2 : WellFormed c2 = record {
      tracked = w1.tracked;
      positive = w1.positive;
      below = w1.below;
    } in
    (c2, rw (r, u), w2, o.targets, o.running, o.stop_closed, o.tracked, q)

healthy_if_full :
    (c : Checker)
    → 0 < length c.targets
    → length c.healthy_targets ≡ length c.targets
    → overall_health c ≡ healthy
unfolding overall_health
healthy_if_full c p e = ground arith

-- With a list that agrees with the statuses, a service that has targets is healthy exactly when all
-- of them are up, and unhealthy exactly when none is.
pub overall_health_iff :
    (c : Checker)
    → 0 < length c.targets
    → Selection c.health_status c.targets c.healthy_targets
    → ((overall_health c ≡ healthy) ↔ All (IsUp c.health_status) c.targets)
      × ((overall_health c ≡ unhealthy) ↔ All (λ t. ¬ IsUp c.health_status t) c.targets)
unfolding overall_health
overall_health_iff c p q = (
  (λ h. q.all_up.0 (ground (arith, q.shorter)), λ h. healthy_if_full c p (q.all_up.1 h)),
  (λ h. q.all_down.0 (ground arith), λ h. rw (q.all_down.1 h)),
)
