-- ===== src/Storage/InMemory.antt =====
-- A Redis server for the examples: counters in memory that never expire, sorted sets that stay empty.
use api_gateway.Common.{
  ℕ, ◌+◌, ◌≤◌, ℤ, pos, String, [], map, none, ok, assign, assign_self, assign_ne, decimal, ◌≡◌, ◌⊎◌,
  inl, refl, arith, if◌then◌else◌, ◌==◌,
}
use api_gateway.Storage.{RedisClient, value, nil, fault}
use api_gateway.Storage.Expiring
use api_gateway.Storage.Expiring.{Keyspace}
use api_gateway.RateLimit.FixedWindow.Counters.{Counters}

abbrev pub in_memory : RedisClient
in_memory = record {
  Store = String → ℕ;
  Fault = Unit;
  Score = ℤ;
  score = λ n. n;
  get = λ s key. (s, if s key == 0 then nil else value (decimal (s key)));
  set = λ s key text duration. (s, none);
  incr = λ s key. (assign s key (s key + 1), ok (pos (s key + 1)));
  expire = λ s key duration. (s, none);
  exec = λ s commands. (s, ok (map (λ _. pos 0) commands));
  z_add = λ s key score member. (s, none);
  z_count = λ s key low high. (s, ok (pos 0));
  z_range = λ s key start stop. (s, ok []);
  ping = λ s. (s, none);
}

-- The same, with counters that expire.
abbrev pub expiring : RedisClient
expiring = record {
  Store = Keyspace ℕ;
  Fault = Unit;
  Score = ℤ;
  score = λ n. n;
  get = λ s key. (s, if s.items key == 0 then nil else value (decimal (s.items key)));
  set = λ s key text duration. (s, none);
  incr = λ s key.
      (record s { items = assign s.items key (s.items key + 1) }, ok (pos (s.items key + 1)));
  expire = λ s key duration. (Expiring.expire 0 s key duration, none);
  exec = λ s commands. (s, ok (map (λ _. pos 0) commands));
  z_add = λ s key score member. (s, none);
  z_count = λ s key low high. (s, ok (pos 0));
  z_range = λ s key start stop. (s, ok []);
  ping = λ s. (s, none);
}

pub incr_counts :
    (s : Keyspace ℕ) (key : String) (n : ℤ)
    → (expiring.incr s key).1 ≡ ok n
    → (n ≡ pos (s.items key + 1)) × ((expiring.incr s key).0.items key ≡ s.items key + 1)
incr_counts s key n h = (cc, assign_self s.items key (s.items key + 1))

pub get_absent :
    (s : Keyspace ℕ) (key : String)
    → s.items key ≡ 0
    → ((expiring.get s key).1 ≡ nil) ⊎ ((e : Unit) × ((expiring.get s key).1 ≡ fault e))
get_absent s key h = inl (ground (arith, h))

pub incr_grows : (s : Keyspace ℕ) (key : String) → s.items key ≤ (expiring.incr s key).0.items key
incr_grows s key = omega (arith, assign_self s.items key (s.items key + 1))

abbrev pub expiring_counters : Counters expiring
expiring_counters = record {
  count = λ s key. s.items key;
  expiry = record {
    clock = λ s. s.time;
    deadline = λ s key. s.deadlines key;
    at = Expiring.at 0;
    at_clock = Expiring.at_clock 0;
    at_deadline = Expiring.at_deadline 0;
    expire_deadline = λ s key duration h. inl (Expiring.expire_deadline 0 s key duration h);
  };
  incr_ok = incr_counts;
  incr_grows = incr_grows;
  incr_other = λ s key other ne. assign_ne s.items key other (s.items key + 1) ne;
  incr_deadline = λ s key. refl;
  incr_clock = λ s key. omega arith;
  at_count = Expiring.at_items 0;
  at_keeps = Expiring.at_keeps 0;
  expire_keeps = Expiring.expire_keeps 0;
  expire_other = Expiring.expire_other 0;
  get_absent = get_absent;
}
