-- ===== src/HealthCheck/Records.antt =====
-- One target: how its status follows the results of its checks, among those of other targets.
use Prim.Native.String
use native.Mathlib.Decide.{dec_lt}
use api_gateway.Common.{
  ℕ, suc, ◌+◌, ◌<◌, ◌≤◌, pos, max_int, increment, assign, String, str_eq, eq_iff, List, [], ◌∷◌,
  true, false, some, Outcome, returns, ◌≡◌, refl, ap, ◌∙◌, subst, arith, All, All-map,
  if◌then◌else◌, inl, inr, Bool-cases,
}
use api_gateway.HealthCheck.{
  Status, Checker, Check, is_success, check_target, check_each, succeed, fail, record_success,
  record_failure,
}

-- What one check makes of the status of its target.
unfoldable pub judge : Checker → Check → Status → Status
judge c k status = elim (is_success (k.http_get (String.◌++◌ k.target c.endpoint))) [
  | true ↦ succeed status k.now k.later
  | false ↦ fail status c.max_failures k.now k.later
]

unfoldable pub after_check : Checker → Check → Status → Checker
after_check c k s = record c {
  health_status = assign c.health_status k.target (some (judge c k s));
}

pub check_target_lem :
    (c : Checker) (k : Check) (s : Status)
    → c.health_status k.target ≡ some s
    → check_target c k ≡ returns (after_check c k s)
unfolding check_target record_success record_failure judge after_check
check_target_lem c k s e = ground arith

abbrev pub IsTracked : Checker → String → Type 0
IsTracked c t = (s : Status) × (c.health_status t ≡ some s)

abbrev pub AllTracked : Checker → List Check → Type 0
AllTracked c = All (λ k. IsTracked c k.target)

-- No check makes a target lose its status.
pub after_check-IsTracked :
    (c : Checker) (k : Check) (s : Status) (t : String)
    → IsTracked c t
    → IsTracked (after_check c k s) t
unfolding after_check
after_check-IsTracked c k s t (u, e) = elim (Bool-cases (str_eq k.target t)) [
  | inl same ↦ (judge c k s, rw same refl)
  | inr other ↦ (u, rw other e)
]

pub after_check-AllTracked :
    (c : Checker) (k : Check) (s : Status) (ks : List Check)
    → AllTracked c ks
    → AllTracked (after_check c k s) ks
after_check-AllTracked c k s ks h = All-map (λ j. after_check-IsTracked c k s j.target) ks h

-- The checks of one target in a list.
unfoldable pub checks_of : String → List Check → ℕ
checks_of t [] = 0
checks_of t (k ∷ ks) = (if str_eq k.target t then 1 else 0) + checks_of t ks

checks_of_self :
    (t : String) (k : Check) (ks : List Check)
    → str_eq k.target t ≡ true
    → checks_of t (k ∷ ks) ≡ suc (checks_of t ks)
unfolding checks_of
checks_of_self t k ks same = ground arith

checks_of_other :
    (t : String) (k : Check) (ks : List Check)
    → str_eq k.target t ≡ false
    → checks_of t (k ∷ ks) ≡ checks_of t ks
unfolding checks_of
checks_of_other t k ks other = ground arith

-- Every check of the target gets an answer that is no success.
abbrev pub IsDown : String → String → List Check → Type 0
IsDown endpoint t =
    All (λ k. k.target ≡ t → is_success (k.http_get (String.◌++◌ k.target endpoint)) ≡ false)

judge_down :
    (c : Checker) (k : Check) (s : Status) (n m : ℕ)
    → is_success (k.http_get (String.◌++◌ k.target c.endpoint)) ≡ false
    → s.is_healthy ≡ true
    → s.failure_count ≡ pos n
    → c.max_failures ≡ pos m
    → n < m
    → m ≤ max_int
    → let s' = judge c k s in
      (s'.failure_count ≡ pos (suc n))
      × (suc n < m → s'.is_healthy ≡ true)
      × (suc n ≡ m → s'.is_healthy ≡ false)
unfolding judge fail increment
judge_down c k s n m d h f e p q = ground arith

pub after_check_other :
    (c : Checker) (k : Check) (s : Status) (t : String)
    → str_eq k.target t ≡ false
    → (after_check c k s).health_status t ≡ c.health_status t
unfolding after_check
after_check_other c k s t other = rw other

pub after_check_self :
    (c : Checker) (k : Check) (s : Status) (t : String)
    → str_eq k.target t ≡ true
    → (after_check c k s).health_status t ≡ some (judge c k s)
unfolding after_check
after_check_self c k s t same = rw same

-- Checks of other targets leave a status alone, and none of them panics.
check_each-other :
    (c : Checker) (ks : List Check) (t : String)
    → AllTracked c ks
    → checks_of t ks ≡ 0
    → (c' : Checker) × (check_each c ks ≡ returns c') × (c'.health_status t ≡ c.health_status t)
unfolding check_each checks_of
check_each-other c [] t h z = (c, refl, refl)
check_each-other c (k ∷ ks) t ((s, e), h) z =
    let c1 = after_check c k s in
    let (c', r, same) =
      check_each-other c1 ks t (after_check-AllTracked c k s ks h) (ground arith) in
    (c', rw (check_target_lem c k s e) r, same ∙ after_check_other c k s t (ground arith))

-- A round in which `t` has failed `count` times in a row, against the limit `m`.
pub record Falls (result : Outcome Checker) (t : String) (count m : ℕ) : Type 0 where
  pub checker : Checker
  pub status : Status
  pub ran : result ≡ returns checker
  pub found : checker.health_status t ≡ some status
  pub counted : status.failure_count ≡ pos count
  pub up : count < m → status.is_healthy ≡ true
  pub down : count ≡ m → status.is_healthy ≡ false

check_each-down_self :
    (c : Checker) (ks : List Check) (t : String) (s : Status) (m : ℕ)
    → AllTracked c ks
    → c.health_status t ≡ some s
    → s.is_healthy ≡ false
    → s.failure_count ≡ pos m
    → checks_of t ks ≡ 0
    → Falls (check_each c ks) t m m
check_each-down_self c ks t s m h e u f z =
    let (c', r, same) = check_each-other c ks t h z in
    record {
      checker = c';
      status = s;
      ran = r;
      found = same ∙ e;
      counted = f;
      up = λ q. absurd (omega arith);
      down = λ _. u;
    }

-- A target that was healthy after `n` failures in a row, below `maxFailures`, and whose next checks
-- all fail, counts them, and is unhealthy exactly when they reach `maxFailures`; the checks of other
-- targets in between do not matter, and nothing panics.
pub check_each-Falls :
    (c : Checker) (ks : List Check) (t : String) (s : Status) (n m : ℕ)
    → AllTracked c ks
    → c.health_status t ≡ some s
    → s.is_healthy ≡ true
    → s.failure_count ≡ pos n
    → c.max_failures ≡ pos m
    → n + checks_of t ks ≤ m
    → n < m
    → m ≤ max_int
    → IsDown c.endpoint t ks
    → Falls (check_each c ks) t (n + checks_of t ks) m
unfolding check_each
check_each-Falls c [] t s n m h e u f x b p q d = record {
  checker = c;
  status = s;
  ran = refl;
  found = e;
  counted = unfold checks_of in ground arith;
  up = λ _. u;
  down = λ z. absurd (unfold checks_of in omega arith);
}
check_each-Falls c (k ∷ ks) t s n m ((s0, e0), h) e u f x b p q (d0, d) =
    let c1 = after_check c k s0 in
    let tracked = after_check-AllTracked c k s0 ks h in
    let limit : c1.max_failures ≡ pos m = unfold after_check in x in
    let still_down : IsDown c1.endpoint t ks = unfold after_check in d in
    rw (check_target_lem c k s0 e0) (elim (Bool-cases (str_eq k.target t)) [
      | inl same ↦
          let one = checks_of_self t k ks same in
          let hit : k.target ≡ t = (eq_iff k.target t).0 same in
          let found = after_check_self c k s0 t same in
          let is_s : s0 ≡ s = cc in
          let (counted, up, down) = judge_down c k s0 n m (d0 hit) (cc) (cc) x p q in
          elim (dec_lt (suc n) m) [
            | yes more ↦
                subst (λ i. Falls (check_each c1 ks) t i m) (omega arith)
                  (check_each-Falls c1 ks t (judge c k s0) (suc n) m tracked found (up more) counted
                    limit (omega arith) more q still_down)
            | no last ↦
                let full : suc n ≡ m = omega arith in
                subst (λ i. Falls (check_each c1 ks) t i m) (omega arith)
                  (check_each-down_self c1 ks t (judge c k s0) m tracked found (down full)
                    (counted ∙ ap pos full) (omega arith))
          ]
      | inr other ↦
          let none_more = checks_of_other t k ks other in
          rw none_more (
            check_each-Falls c1 ks t s n m tracked (after_check_other c k s0 t other ∙ e) u f limit
              (omega arith) p q still_down)
    ])
