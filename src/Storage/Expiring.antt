-- ===== src/Storage/Expiring.antt =====
-- Examples: stores in memory whose keys expire.
use api_gateway.Common.{
  ℕ, ◌+◌, ◌*◌, ◌≤◌, ◌<◌, String, assign, assign_self, assign_ne, ◌≢◌, true, Option, none, some, ◌≡◌,
  refl, ◌⊎◌, inl, inr, if◌then◌else◌, ◌==◌, leb, arith, Bool-cases,
}
use api_gateway.Storage.Expiry.{expire_seconds, lasts}
use api_gateway.RateLimit.FixedWindow.{second}

pub record Keyspace (A : Type 0) : Type 0 where
  pub items : String → A
  pub deadlines : String → Option ℕ
  pub time : ℕ

module _ {A : Type 0} (blank : A) where
  -- Keys whose deadline has come are gone.
  abbrev pub at : Keyspace A → ℕ → Keyspace A
  at s t = if leb t s.time then s else record {
    items = λ key. if lasts (s.deadlines key) (t + 1) then s.items key else blank;
    deadlines = λ key. if lasts (s.deadlines key) (t + 1) then s.deadlines key else none;
    time = t;
  }

  abbrev pub expire : Keyspace A → String → ℕ → Keyspace A
  expire s key duration =
      if expire_seconds duration == 0
      then record s { items = assign s.items key blank; deadlines = assign s.deadlines key none }
      else record s {
        deadlines = assign s.deadlines key (some (s.time + expire_seconds duration * second));
      }

  pub at_clock : (s : Keyspace A) (t : ℕ) → t ≤ (at s t).time
  at_clock s t = ground arith

  pub at_deadline :
      (s : Keyspace A) (t : ℕ) (key : String)
      → ((at s t).deadlines key ≡ s.deadlines key) ⊎ ((at s t).deadlines key ≡ none)
  at_deadline s t key = elim (Bool-cases (leb t s.time)) [
    | inl y ↦ inl (rw (y) refl)
    | inr n ↦ elim (Bool-cases (lasts (s.deadlines key) (t + 1))) [
      | inl y ↦ inl (rw (n, y) refl)
      | inr m ↦ inr (rw (n, m) refl)
    ]
  ]

  pub at_items :
      (s : Keyspace A) (t : ℕ) (key : String)
      → ((at s t).items key ≡ s.items key) ⊎ ((at s t).items key ≡ blank)
  at_items s t key = elim (Bool-cases (leb t s.time)) [
    | inl y ↦ inl (rw (y) refl)
    | inr n ↦ elim (Bool-cases (lasts (s.deadlines key) (t + 1))) [
      | inl y ↦ inl (rw (n, y) refl)
      | inr m ↦ inr (rw (n, m) refl)
    ]
  ]

  pub at_keeps :
      (s : Keyspace A) (t : ℕ) (key : String)
      → lasts (s.deadlines key) (t + 1) ≡ true
      → (at s t).items key ≡ s.items key
  at_keeps s t key h = elim (Bool-cases (leb t s.time)) [
    | inl y ↦ rw (y) refl
    | inr n ↦ rw (n, h) refl
  ]

  pub expire_keeps :
      (s : Keyspace A) (key : String) (duration : ℕ)
      → 0 < expire_seconds duration
      → (expire s key duration).items key ≡ s.items key
  expire_keeps s key duration h = ground arith

  pub expire_deadline :
      (s : Keyspace A) (key : String) (duration : ℕ)
      → 0 < expire_seconds duration
      → (expire s key duration).deadlines key ≡ some (s.time + expire_seconds duration * second)
  expire_deadline s key duration h =
      ground (arith, assign_self s.deadlines key (some (s.time + expire_seconds duration * second)))

  pub expire_other :
      (s : Keyspace A) (key : String) (duration : ℕ) (other : String)
      → key ≢ other
      → (expire s key duration).items other ≡ s.items other
  expire_other s key duration other ne = ground (arith, assign_ne s.items key other blank ne)
