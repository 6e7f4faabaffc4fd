-- ===== src/RateLimit/FixedWindow/Tests.antt =====
-- Examples: a limit of two requests in a minute.
use api_gateway.Common.{
  decimal, ℕ, ◌+◌, ◌-◌, ◌≤◌, none, pos, [], ◌∷◌, returns, ok, err, ◌≡◌, ◌⊎◌, refl,
}
use Prim.Native.Nat.{min}
use api_gateway.Storage.InMemory.{expiring, expiring_counters}
use api_gateway.Storage.Expiry.{lasts, expire_seconds}
use api_gateway.Storage.Expiring
use api_gateway.Storage.Expiring.{Keyspace}
use api_gateway.RateLimit.FixedWindow.{
  FixedWindowLimiter, current_window, allow_key, allow, remaining,
}
use api_gateway.RateLimit.FixedWindow.Limit.{allows, allows-limit, allows-exact, Answers}
use api_gateway.RateLimit.FixedWindow.Uncounted.{remaining-allows}

abbrev two_a_minute : FixedWindowLimiter
two_a_minute = record { limit = pos 2; window = 60000000000 }

abbrev empty : Keyspace ℕ
empty = record { items = λ key. 0; deadlines = λ key. none; time = 0 }

-- Seconds 61, 62 and 119 lie in the second minute.
abbrev t1 : ℕ
t1 = 61000000000

abbrev t2 : ℕ
t2 = 62000000000

abbrev t3 : ℕ
t3 = 119000000000

t1_window : current_window two_a_minute t1 ≡ returns 1
unfolding current_window
t1_window = refl

t2_window : current_window two_a_minute t2 ≡ returns 1
unfolding current_window
t2_window = refl

t3_window : current_window two_a_minute t3 ≡ returns 1
unfolding current_window
t3_window = refl

allows_two : (allows expiring expiring_counters two_a_minute empty "k" (t1 ∷ t2 ∷ t3 ∷ [])).1 ≡ 2
unfolding allows allow current_window allow_key decimal lasts expire_seconds
allows_two = refl

allows-limit_example :
    (allows expiring expiring_counters two_a_minute empty "k" (t1 ∷ t2 ∷ t3 ∷ [])).1 ≤ 2 - 0
unfolding lasts
allows-limit_example =
    allows-limit expiring expiring_counters two_a_minute empty "k" 1 2 (t1 ∷ t2 ∷ t3 ∷ []) refl refl
      (t1_window, (t2_window, (t3_window, tt)))

allows-exact_example :
    (allows expiring expiring_counters two_a_minute empty "k" (t1 ∷ t2 ∷ t3 ∷ [])).1 ≡ min 3 (2 - 0)
unfolding Answers lasts
allows-exact_example =
    allows-exact expiring expiring_counters two_a_minute empty "k" 1 2 (t1 ∷ t2 ∷ t3 ∷ [])
      (λ s key. (pos (s.items key + 1), refl)) refl refl (t1_window, (t2_window, (t3_window, tt)))

remaining-allows_example :
    let answer =
      (remaining expiring two_a_minute
        (Expiring.at 0
          (allows expiring expiring_counters two_a_minute empty "k" (t1 ∷ t2 ∷ [])).0
          t3)
        t3
        "k").1 in
    (answer ≡ returns (ok (pos 2))) ⊎ ((e : Unit) × (answer ≡ returns (err e)))
remaining-allows_example =
    remaining-allows expiring expiring_counters two_a_minute empty "k" 1 (t1 ∷ t2 ∷ []) t3
      (t1_window, (t2_window, tt)) t3_window refl
