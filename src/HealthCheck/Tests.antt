-- ===== src/HealthCheck/Tests.antt =====
-- A checker of two targets, with three failures as its limit.
use mathlib.Core.List.{Permᴰ}
use api_gateway.Common.{
  ℕ, zero, suc, pos, String, eq_iff, assign, List, [], ◌∷◌, true, false, none, some, returns, ◌≡◌,
  refl, subst, arith,
}
use api_gateway.HealthCheck.{
  initial_status, Checker, Config, Check, response, no_response, new_checker, check_each, check_all,
  is_success,
}
use api_gateway.HealthCheck.Loop.{Event, ticked, stopped, loop, loop-ends}
use api_gateway.HealthCheck.Records.{IsTracked, AllTracked, checks_of, Falls, check_each-Falls}
use api_gateway.HealthCheck.Selection.{Selection}
use api_gateway.HealthCheck.Invariant.{WellFormed, new_checker-WellFormed}
use api_gateway.HealthCheck.Rounds.{check_all-Selection}
use api_gateway.HealthCheck.Orders.{check_all-perm}

abbrev cfg : Config
cfg = record {
  targets = "a" ∷ "b" ∷ [];
  endpoint = "";
  interval = pos 0;
  timeout = pos 0;
  max_failures = pos 3;
}

abbrev fresh : Checker
fresh = new_checker cfg (λ i. i)

abbrev down : String → ℕ → Check
down t now = record { target = t; http_get = λ url. no_response; now = now; later = now }

abbrev up : String → ℕ → Check
up t now = record { target = t; http_get = λ url. response 204; now = now; later = now }

fresh-WellFormed : WellFormed fresh
fresh-WellFormed = new_checker-WellFormed cfg (λ i. i) (omega arith)

abbrev checks : List Check
checks = down "a" 10 ∷ up "b" 11 ∷ down "a" 20 ∷ down "a" 30 ∷ []

a-IsTracked : IsTracked fresh "a"
unfolding new_checker
a-IsTracked = (initial_status "a" 0, refl)

b-IsTracked : IsTracked fresh "b"
unfolding new_checker
b-IsTracked = (initial_status "b" 1, refl)

new_checker-WellFormed_example : WellFormed (new_checker cfg (λ i. i))
new_checker-WellFormed_example = new_checker-WellFormed cfg (λ i. i) (omega arith)

check_each-Falls_example : Falls (check_each fresh checks) "a" 3 3
unfolding new_checker checks_of is_success
check_each-Falls_example =
    check_each-Falls fresh checks "a" (initial_status "a" 0) 0 3
      (a-IsTracked, (b-IsTracked, (a-IsTracked, (a-IsTracked, tt)))) refl refl refl refl
      (omega arith) (omega arith) (omega arith)
      ((λ _. refl), ((λ e. ground (arith, eq_iff "b" "a")), ((λ _. refl), ((λ _. refl), tt))))

abbrev round : List Check
round = up "a" 10 ∷ down "b" 11 ∷ []

round-AllTracked : AllTracked fresh round
round-AllTracked = (a-IsTracked, (b-IsTracked, tt))

check_all-Selection_example :
    (c' : Checker) × (check_all fresh round ≡ returns c')
    × WellFormed c'
    × (c'.targets ≡ fresh.targets)
    × (c'.running ≡ fresh.running)
    × (c'.stop_closed ≡ fresh.stop_closed)
    × ((t : String) → IsTracked fresh t → IsTracked c' t)
    × Selection c'.health_status c'.targets c'.healthy_targets
check_all-Selection_example = check_all-Selection fresh round fresh-WellFormed round-AllTracked

check_all-perm_example : check_all fresh round ≡ check_all fresh (down "b" 11 ∷ up "a" 10 ∷ [])
check_all-perm_example =
    check_all-perm fresh round (down "b" 11 ∷ up "a" 10 ∷ []) (Permᴰ.swap refl refl)
      (((λ e. ground (arith, eq_iff "a" "b")), tt), (tt, tt)) round-AllTracked

-- Two rounds, then the closed channel.
abbrev events : ℕ → Event
events zero = ticked round
events (suc zero) = ticked checks
events (suc (suc i)) = stopped

checks_in-eq : (ks ks' : List Check) → ticked ks ≡ ticked ks' → ks ≡ ks'
checks_in-eq ks ks' e = cc

events_tracked : (i : ℕ) (ks : List Check) → events i ≡ ticked ks → AllTracked fresh ks
events_tracked zero ks e = subst (AllTracked fresh) (checks_in-eq round ks e) round-AllTracked
events_tracked (suc zero) ks e =
    subst (AllTracked fresh) (checks_in-eq checks ks e)
      (a-IsTracked, (b-IsTracked, (a-IsTracked, (a-IsTracked, tt))))
events_tracked (suc (suc i)) ks e = absurd (cc)

loop-ends_example :
    (c' : Checker) × (loop 3 events fresh ≡ some (returns c'))
    × WellFormed c'
    × (c'.targets ≡ fresh.targets)
loop-ends_example = loop-ends 2 events fresh fresh-WellFormed events_tracked refl

-- One target, which is up.
abbrev alone : Checker
alone = record {
  targets = "a" ∷ [];
  health_status = assign (λ _. none) "a" (some (initial_status "a" 0));
  healthy_targets = "a" ∷ [];
  endpoint = "/health";
  interval = pos 10000000000;
  timeout = pos 5000000000;
  max_failures = pos 3;
  stop_closed = false;
  running = true;
}

alone-Selection : Selection alone.health_status ("a" ∷ []) ("a" ∷ [])
alone-Selection = record {
  chosen = refl;
  sound = ((initial_status "a" 0, refl, refl), tt);
  complete = λ t m _. m;
  shorter = omega arith;
  all_up = (λ _. ((initial_status "a" 0, refl, refl), tt), λ _. refl);
  all_down = (λ e. absurd (omega arith), λ h. absurd (h.0 (initial_status "a" 0, refl, refl)));
}
