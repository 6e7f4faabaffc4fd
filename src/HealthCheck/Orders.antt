-- ===== src/HealthCheck/Orders.antt =====
-- The goroutines of one round: the order in which they take the lock does not matter.
use mathlib.Core.List.{Permᴰ}
use mathlib.Core.Path.{ap₂}
use api_gateway.Common.{
  List, [], ◌∷◌, some, ◌≡◌, ◌≢◌, refl, ap, sym, ◌∙◌, subst, All, assign_comm, str_ne,
}
use api_gateway.HealthCheck.{
  Status, Checker, Check, check_each, and_then, check_all, update_healthy_targets,
}
use api_gateway.HealthCheck.Records.{
  judge, after_check, check_target_lem, after_check_other, IsTracked, AllTracked,
  after_check-AllTracked,
}

-- No two checks of the list are of the same target.
abbrev pub Distinct : List Check → Type 0
Distinct [] = Unit
Distinct (k ∷ ks) = All (λ j. k.target ≢ j.target) ks × Distinct ks

All-perm : (P : Check → Type 0) {ks js : List Check} → Permᴰ ks js → All P ks → All P js
All-perm P Permᴰ.nil h = tt
All-perm P (Permᴰ.cons e p) (x, h) = (subst P e x, All-perm P p h)
All-perm P (Permᴰ.swap e f) (x, (y, h)) = (subst P f y, (subst P e x, h))
All-perm P (Permᴰ.trans p q) h = All-perm P q (All-perm P p h)

Distinct-perm : {ks js : List Check} → Permᴰ ks js → Distinct ks → Distinct js
Distinct-perm Permᴰ.nil d = tt
Distinct-perm (Permᴰ.cons {b = b} {l₁ = l₁} e p) (x, d) = (
  All-perm (λ j. b.target ≢ j.target) p
      (subst (λ (k : Check). All {A = Check} (λ j. k.target ≢ j.target) l₁) e x),
  Distinct-perm p d,
)
Distinct-perm (Permᴰ.swap {l = l} e f) ((ne, xs), (ys, d)) = (
  (
    λ same. ne (ap (λ (k : Check). k.target) e ∙ sym same ∙ sym (ap (λ (k : Check). k.target) f)),
    subst (λ (k : Check). All {A = Check} (λ j. k.target ≢ j.target) l) f ys,
  ),
  (subst (λ (k : Check). All {A = Check} (λ j. k.target ≢ j.target) l) e xs, d),
)
Distinct-perm (Permᴰ.trans p q) d = Distinct-perm q (Distinct-perm p d)

after_check_comm :
    (c : Checker) (k j : Check) (s u : Status)
    → k.target ≢ j.target
    → after_check (after_check c k s) j u ≡ after_check (after_check c j u) k s
unfolding after_check judge
after_check_comm c k j s u ne =
    ap (λ m. record c { health_status = m }) (assign_comm c.health_status k.target j.target _ _ ne)

check_each_swap :
    (c : Checker) (k j : Check) (ks : List Check)
    → k.target ≢ j.target
    → IsTracked c k.target
    → IsTracked c j.target
    → check_each c (k ∷ j ∷ ks) ≡ check_each c (j ∷ k ∷ ks)
unfolding check_each
check_each_swap c k j ks ne (s, e) (u, f) =
    let f' = after_check_other c k s j.target (str_ne _ _ ne) ∙ f in
    let e' = after_check_other c j u k.target (str_ne _ _ (λ same. ne (sym same))) ∙ e in
    rw (check_target_lem c k s e, check_target_lem c j u f)
      (rw (check_target_lem (after_check c k s) j u f', check_target_lem (after_check c j u) k s e')
        (ap (λ d. check_each d ks) (after_check_comm c k j s u ne)))

check_each_cons :
    (c : Checker) (k : Check) (ks : List Check) (s : Status)
    → c.health_status k.target ≡ some s
    → check_each c (k ∷ ks) ≡ check_each (after_check c k s) ks
unfolding check_each
check_each_cons c k ks s e = rw (check_target_lem c k s e)

check_each-perm :
    {ks js : List Check}
    → Permᴰ ks js
    → (c : Checker) → Distinct ks
    → AllTracked c ks
    → check_each c ks ≡ check_each c js
unfolding check_each
check_each-perm Permᴰ.nil c d h = refl
check_each-perm (Permᴰ.cons {a = a} {l₁ = l₁} {l₂ = l₂} e p) c (_, d) ((s, t), h) =
    check_each_cons c a l₁ s t
    ∙ check_each-perm p (after_check c a s) d (after_check-AllTracked c a s l₁ h)
    ∙ sym (check_each_cons c a l₂ s t)
    ∙ ap (λ k. check_each c (k ∷ l₂)) e
check_each-perm (Permᴰ.swap {a = a} {b = b} {l = l} e f) c ((ne, _), _) (x, (y, _)) =
    check_each_swap c a b l ne x y ∙ ap₂ (λ k j. check_each c (k ∷ j ∷ l)) f e
check_each-perm (Permᴰ.trans p q) c d h =
    check_each-perm p c d h ∙ check_each-perm q c (Distinct-perm p d) (All-perm _ p h)

-- If the targets are distinct, the result of a round does not depend on the order in which the
-- goroutines take the lock.
pub check_all-perm :
    (c : Checker) (ks js : List Check)
    → Permᴰ ks js
    → Distinct ks
    → AllTracked c ks
    → check_all c ks ≡ check_all c js
unfolding check_all
check_all-perm c ks js p d h = ap (λ r. and_then r update_healthy_targets) (check_each-perm p c d h)
