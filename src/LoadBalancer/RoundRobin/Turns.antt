-- ===== src/LoadBalancer/RoundRobin/Turns.antt =====
-- Whose turn it is: successive calls of `Next` on the same targets.
use native.Mathlib.Nat.{suc-add, zero-add, mod-lt, mod-eq_of_lt, mod-add-mod, mod_self, add-zero}
use mathlib.Core.List.{map-append}
use api_gateway.Common.{
  ℕ, zero, suc, ◌+◌, ◌-◌, ◌%◌, ◌≤◌, ◌<◌, pos, negsuc, max_int, increment, increment_pos, remainder,
  List, [], ◌∷◌, ◌++◌, map, length, get_elem?, take, drop, drop-eq-cons, length-drop, take_all,
  String, Outcome, returns, panics, some, ◌≡◌, refl, ap, sym, subst, ◌∙◌, ◌≢◌, arith,
}
use api_gateway.LoadBalancer.RoundRobin.{RoundRobin, at_index, next}

-- The results of `m` calls in a row.
unfoldable pub next_times : ℕ → RoundRobin → List String → List (Outcome String)
next_times zero r targets = []
next_times (suc m) r targets = let (r', result) = next r targets in result ∷ next_times m r' targets

abbrev pub after : ℕ → RoundRobin
after c = record { current = pos c }

-- One call below the wrap-around: the target at `c % len(targets)`, and the counter grows by one.
pub next_turn :
    (c : ℕ) (targets : List String) (x : String)
    → c < max_int
    → get_elem? targets (c % length targets) ≡ some x
    → next (after c) targets ≡ (after (c + 1), returns x)
unfolding next remainder
next_turn c [] x h e = cc
next_turn c (t ∷ ts) x h e = rw (e, at_index) (rw (increment_pos c h))

next_times_add :
    (a b c : ℕ) (targets : List String)
    → 0 < length targets
    → c + a ≤ max_int
    → next_times (a + b) (after c) targets
      ≡ next_times a (after c) targets ++ next_times b (after (c + a)) targets
unfolding next_times
next_times_add zero b c targets h k = simp (zero-add, add-zero)
next_times_add (suc a) b c targets h k =
    let (x, at, _) = drop-eq-cons (c % length targets) targets (mod-lt c h) in
    let moved : c + suc a ≡ c + 1 + a = omega arith in
    rw (suc-add, moved, next_turn c targets x (omega arith) at)
      (ap (◌∷◌ (returns x)) (next_times_add a b (c + 1) targets h (omega arith)))

suc_mod : (c n i : ℕ) → c % n ≡ i → suc i < n → (c + 1) % n ≡ suc i
suc_mod c n i e h =
    rw (← mod-add-mod c n 1, e, mod-eq_of_lt {n = i + 1} {m = n} (omega arith)) (omega arith)

-- From position `i`, up to the end of the list.
next_times_within :
    (m i c : ℕ) (targets : List String)
    → i + m ≤ length targets
    → (0 < m → c % length targets ≡ i)
    → c + m ≤ max_int
    → next_times m (after c) targets ≡ map returns (take m (drop i targets))
unfolding next_times
next_times_within zero i c targets h e k = refl
next_times_within (suc m) i c targets h e k =
    let (x, at, rest) = drop-eq-cons i targets (omega arith) in
    rw (rest, next_turn c targets x (omega arith) (ap (get_elem? targets) (e (omega arith)) ∙ at))
      (ap (◌∷◌ (returns x)) (
        next_times_within m (suc i) (c + 1) targets (omega arith)
          (λ more. suc_mod c (length targets) i (e (omega arith)) (omega arith)) (omega arith)))

-- The position after the last one is the first.
mod-wrap : (c n : ℕ) → 0 < n → (c + (n - c % n)) % n ≡ 0
mod-wrap c n h =
    let whole : c % n + (n - c % n) ≡ n = omega (arith, mod-lt c h) in
    rw (← mod-add-mod c n (n - c % n), whole) (mod_self n)

-- As many calls in a row as there are targets serve each target once, in the order of the list,
-- starting where the counter stands, as long as the counter does not pass the largest `int`.
pub next_times-length :
    (c : ℕ) (targets : List String)
    → 0 < length targets
    → c + length targets ≤ max_int
    → let i = c % length targets in
      next_times (length targets) (after c) targets ≡ map returns (drop i targets ++ take i targets)
next_times-length c targets h k =
    let n = length targets in
    let i = c % n in
    let below : i < n = mod-lt c h in
    let split : n - i + i ≡ n = omega arith in
    let first = next_times_within (n - i) i c targets (omega arith) (λ _. refl) (omega arith) in
    let second =
      next_times_within i 0 (c + (n - i)) targets (omega arith) (λ _. mod-wrap c n h)
        (omega arith) in
    subst (λ m. next_times m (after c) targets ≡ map returns (drop i targets ++ take i targets))
      split
      (next_times_add (n - i) i c targets h (omega arith)
        ∙ rw
            (
              first,
              second,
              take_all (n - i) (drop i targets) (omega (arith, length-drop i targets)),
            )
            (sym (map-append returns (drop i targets) (take i targets))))

-- On a list that is not empty and with a counter that has not wrapped, `Next` returns one of the
-- targets, it does not panic, and the counter grows by one.
pub next_in_turn :
    (c : ℕ) (targets : List String)
    → 0 < length targets
    → c < max_int
    → (x : String) × (get_elem? targets (c % length targets) ≡ some x)
      × (next (after c) targets ≡ (after (c + 1), returns x))
next_in_turn c targets h k =
    let (x, at, _) = drop-eq-cons (c % length targets) targets (mod-lt c h) in
    (x, at, next_turn c targets x k at)

abbrev pub wrapped : RoundRobin
wrapped = record { current = negsuc max_int }

next_at_max :
    (targets : List String) → 0 < length targets → (next (after max_int) targets).0 ≡ wrapped
unfolding next remainder increment
next_at_max [] h = absurd (omega arith)
next_at_max (t ∷ ts) h =
    let (x, at, _) = drop-eq-cons (max_int % length (t ∷ ts)) (t ∷ ts) (mod-lt max_int h) in
    rw (at, at_index) refl

next-wrapped :
    (targets : List String)
    → suc max_int % length targets ≢ 0
    → 0 < length targets
    → next wrapped targets ≡ (wrapped, panics)
unfolding next remainder at_index
next-wrapped [] h k = absurd (omega arith)
next-wrapped (t ∷ ts) h k = ground arith

-- The call at the largest `int` wraps the counter, and the next call panics without changing it,
-- so every later one does, whenever 2 ^ 63 is no multiple of the number of targets.
pub next_panics :
    (targets : List String)
    → suc max_int % length targets ≢ 0
    → 0 < length targets
    → let after_max = (next (after max_int) targets).0 in
      next after_max targets ≡ (after_max, panics)
next_panics targets h k = rw (next_at_max targets k) (next-wrapped targets h k)
