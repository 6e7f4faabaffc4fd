-- ===== src/HealthCheck/Selection.antt =====
-- The loop of `updateHealthyTargets`: which targets it selects.
use mathlib.Core.List.{Memᴰ}
use api_gateway.Common.{
  suc, ◌≤◌, String, List, [], ◌∷◌, Bool, true, false, length, filter, Option, none, some, ◌≡◌, ◌↔◌,
  refl, ap, subst, arith, All, inl, inr, Bool-cases,
}
use api_gateway.HealthCheck.{Status, select_healthy}

abbrev pub IsUp : (String → Option Status) → String → Type 0
IsUp statuses t = (s : Status) × (statuses t ≡ some s) × (s.is_healthy ≡ true)

abbrev pub up_now : Option Status → Bool
up_now none = false
up_now (some s) = s.is_healthy

-- The targets that are up, in the order of the list and as often as they stand in it.
pub record Selection (statuses : String → Option Status) (ts sel : List String) : Type 0 where
  pub chosen : sel ≡ filter (λ t. up_now (statuses t)) ts
  pub sound : All (IsUp statuses) sel
  pub complete : (t : String) → Memᴰ t ts → IsUp statuses t → Memᴰ t sel
  pub shorter : length sel ≤ length ts
  pub all_up : (length sel ≡ length ts) ↔ All (IsUp statuses) ts
  pub all_down : (length sel ≡ 0) ↔ All (λ t. ¬ IsUp statuses t) ts

Selection-up :
    {statuses : String → Option Status} {ts sel : List String} (t : String)
    → IsUp statuses t
    → Selection statuses ts sel
    → Selection statuses (t ∷ ts) (t ∷ sel)
Selection-up {statuses} {ts} {sel} t u r = record {
  chosen = ground (arith, u.1, u.2, r.chosen);
  sound = (u, r.sound);
  complete = keep;
  shorter = omega (arith, r.shorter);
  all_up = (λ e. (u, r.all_up.0 (omega arith)), λ h. ap suc (r.all_up.1 h.1));
  all_down = (λ e. absurd (omega arith), λ h. absurd (h.0 u));
}
  where
    keep : (x : String) → Memᴰ x (t ∷ ts) → IsUp statuses x → Memᴰ x (t ∷ sel)
    keep x (Memᴰ.head e) v = Memᴰ.head e
    keep x (Memᴰ.tail m) v = Memᴰ.tail (r.complete x m v)

Selection-down :
    {statuses : String → Option Status} {ts sel : List String} (t : String)
    → ¬ IsUp statuses t
    → up_now (statuses t) ≡ false
    → Selection statuses ts sel
    → Selection statuses (t ∷ ts) sel
Selection-down {statuses} {ts} {sel} t d off r = record {
  chosen = ground (arith, off, r.chosen);
  sound = r.sound;
  complete = keep;
  shorter = omega (arith, r.shorter);
  all_up = (λ e. absurd (omega (arith, r.shorter)), λ h. absurd (d h.0));
  all_down = (λ e. (d, r.all_down.0 e), λ h. r.all_down.1 h.1);
}
  where
    keep : (x : String) → Memᴰ x (t ∷ ts) → IsUp statuses x → Memᴰ x sel
    keep x (Memᴰ.head e) v = absurd (d (subst (IsUp statuses) e v))
    keep x (Memᴰ.tail m) v = r.complete x m v

not-IsUp :
    (statuses : String → Option Status) (t : String) (s : Status)
    → statuses t ≡ some s
    → s.is_healthy ≡ false
    → ¬ IsUp statuses t
not-IsUp statuses t s e down (s', e', up) = cc

pub select_healthy_lem :
    (statuses : String → Option Status) (ts : List String)
    → All (λ t. (s : Status) × (statuses t ≡ some s)) ts
    → (sel : List String) × (select_healthy statuses ts ≡ some sel) × Selection statuses ts sel
unfolding select_healthy
select_healthy_lem statuses [] h = (
  [],
  refl,
  record {
    chosen = refl;
    sound = tt;
    complete = λ t m _. m;
    shorter = omega arith;
    all_up = (λ _. tt, λ _. refl);
    all_down = (λ _. tt, λ _. refl);
  },
)
select_healthy_lem statuses (t ∷ ts) ((s, e), h) =
    let (sel, r, q) = select_healthy_lem statuses ts h in
    elim (Bool-cases s.is_healthy) [
      | inl up ↦ (t ∷ sel, ground arith, Selection-up t (s, e, up) q)
      | inr down ↦ (
        sel,
        ground arith,
        Selection-down t (λ v. not-IsUp statuses t s e down v) (ground (arith, e, down)) q,
      )
    ]
