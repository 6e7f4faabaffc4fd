-- ===== src/RateLimit/SlidingWindow/Tests.antt =====
-- Examples: two requests in ten microseconds, and a Redis server that holds sorted sets in memory, with
-- the exact times as scores.
use api_gateway.Common.{
  inl, if◌then◌else◌, ◌==◌, ℕ, ◌-◌, ◌≤◌, ◌<◌, ℤ, pos, pos_part, add_ℕ, ◌≤ℤ◌, ltb_ℤ, decimal,
  decimal_int, String, assign, assign_self, List, [], ◌∷◌, ◌++◌, length, All, filter, Bool, true,
  false, none, Result, ok, err, ◌≡◌, refl, sym, ap, ◌∙◌, ◌⊎◌, arith,
}
use api_gateway.Storage.{RedisClient, nil, Command, z_rem_range_by_score, z_card}
use api_gateway.Storage.Expiry.{lasts, expire_seconds}
use api_gateway.Storage.Expiring
use api_gateway.Storage.Expiring.{Keyspace}
use api_gateway.RateLimit.SlidingWindow.{
  SlidingWindowLimiter, window_start, allow, sliding_key, reset,
}
use api_gateway.RateLimit.SlidingWindow.Race.{Answers, count_all, count_all-passes}
use api_gateway.RateLimit.SlidingWindow.Oldest.{Ranges, reset-allow}
use api_gateway.RateLimit.SlidingWindow.SortedSets.{SortedSets}
use api_gateway.RateLimit.SlidingWindow.Turns.{Adds}
use api_gateway.RateLimit.SlidingWindow.Window.{Requests, first, request, Requests-limit}

abbrev above : ℤ → ℕ → Bool
above m t = ltb_ℤ m (pos t)

abbrev Sets : Type 0
Sets = Keyspace (List ℕ)

-- Entries up to the bound are removed; a set without entries is gone, and its deadline with it.
abbrev removed : Sets → String → ℤ → Sets
removed s k high =
    let left = filter (above high) (s.items k) in
    record s {
      items = assign s.items k left;
      deadlines = assign s.deadlines k (if length left == 0 then none else s.deadlines k);
    }

abbrev exec_sets : Sets → List Command → Sets × Result Bool (List ℤ)
exec_sets s (z_rem_range_by_score k low high ∷ z_card k' ∷ []) =
    let s' = removed s k high in
    (s', ok (pos (length (s.items k) - length (s'.items k)) ∷ pos (length (s'.items k')) ∷ []))
exec_sets s _ = (s, err false)

abbrev oldest_of : List ℕ → List String
oldest_of [] = []
oldest_of (t ∷ []) = decimal_int (pos t) ∷ []
oldest_of (t ∷ u ∷ us) = oldest_of (u ∷ us)

abbrev sets_in_memory : RedisClient
sets_in_memory = record {
  Store = Sets;
  Fault = Bool;
  Score = ℤ;
  score = λ n. n;
  get = λ s key. (s, nil);
  set = λ s key text duration. (s, none);
  incr = λ s key. (s, err false);
  expire = λ s key duration. (Expiring.expire [] s key duration, none);
  exec = exec_sets;
  z_add = λ s key score member.
      (record s { items = assign s.items key (pos_part score ∷ s.items key) }, none);
  z_count = λ s key low high. (s, err false);
  z_range = λ s key start stop. (s, ok (oldest_of (s.items key)));
  ping = λ s. (s, none);
}

exec_ok :
    (s : Sets) (key : String) (m : ℤ) (replies : List ℤ)
    → let run = exec_sets s (z_rem_range_by_score key (pos 0) m ∷ z_card key ∷ []) in
      run.1 ≡ ok replies
      → (run.0.items key ≡ filter (above m) (s.items key))
        × (removed : ℤ) × (replies ≡ removed ∷ pos (length (run.0.items key)) ∷ [])
exec_ok s key m replies h =
    let s' = removed s key m in
    (
      assign_self s.items key (filter (above m) (s.items key)),
      pos (length (s.items key) - length (s'.items key)),
      cc,
    )

exec_err :
    (s : Sets) (key : String) (m : ℤ) (e : Bool)
    → let run = exec_sets s (z_rem_range_by_score key (pos 0) m ∷ z_card key ∷ []) in
      run.1 ≡ err e
      → (run.0.items key ≡ s.items key) ⊎ (run.0.items key ≡ filter (above m) (s.items key))
exec_err s key m e h = cc

exec_deadline :
    (s : Sets) (key : String) (m : ℤ)
    → ((removed s key m).deadlines key ≡ s.deadlines key) ⊎ ((removed s key m).deadlines key ≡ none)
exec_deadline s key m =
    let left = length (filter (above m) (s.items key)) in
    ground (arith, assign_self s.deadlines key (if left == 0 then none else s.deadlines key))

exec_clock : (s : Sets) (commands : List Command) → s.time ≤ (exec_sets s commands).0.time
exec_clock s [] = omega arith
exec_clock s (z_card k ∷ cs) = omega arith
exec_clock s (z_rem_range_by_score k low high ∷ []) = omega arith
exec_clock s (z_rem_range_by_score k low high ∷ z_card k' ∷ []) = omega arith
exec_clock s (z_rem_range_by_score k low high ∷ z_card k' ∷ _ ∷ _) = omega arith
exec_clock s (z_rem_range_by_score k low high ∷ z_rem_range_by_score k' low' high' ∷ cs) =
    omega arith

above_behind : (m : ℤ) (t : ℕ) → pos t ≤ℤ m → above m t ≡ false
above_behind m t le = ground arith

above_mono : (m n : ℤ) (t : ℕ) → m ≤ℤ n → above n t ≡ true → above m t ≡ true
above_mono m n t le h = ground arith

above_ahead : (m : ℤ) (t : ℕ) → add_ℕ m 1024 ≤ℤ pos t → above m t ≡ true
above_ahead m t le = ground arith

abbrev sorted_sets : SortedSets sets_in_memory
sorted_sets = record {
  entries = λ s key. s.items key;
  expiry = record {
    clock = λ s. s.time;
    deadline = λ s key. s.deadlines key;
    at = Expiring.at [];
    at_clock = Expiring.at_clock [];
    at_deadline = Expiring.at_deadline [];
    expire_deadline = λ s key duration h. inl (Expiring.expire_deadline [] s key duration h);
  };
  above = above;
  above_behind = above_behind;
  above_ahead = above_ahead;
  above_mono = above_mono;
  exec_err = exec_err;
  exec_ok = exec_ok;
  z_add_new = λ s key t new done. assign_self s.items key (t ∷ s.items key);
  exec_deadline = exec_deadline;
  exec_clock = exec_clock;
  z_add_clock = λ s key score member. omega arith;
  at_entries = Expiring.at_items [];
  at_keeps = Expiring.at_keeps [];
  expire_keeps = Expiring.expire_keeps [];
  expire_ok =
      λ s key duration some_time entry done. Expiring.expire_deadline [] s key duration some_time;
}

abbrev two_in_ten : SlidingWindowLimiter
two_in_ten = record { limit = pos 2; window = 10000 }

abbrev empty : Sets
empty = record { items = λ key. []; deadlines = λ key. none; time = 7000 }

abbrev three_requests :
    (s : Sets) × (times : List ℕ) × Requests sets_in_memory sorted_sets two_in_ten "k" s times 9000
three_requests = (
  _,
  _,
  request 9000 (request 8000 (request 7000 (first empty refl) (omega arith)) (omega arith))
      (omega arith),
)

two_admitted : three_requests.1 ≡ 8000 ∷ 7000 ∷ []
unfolding allow sliding_key lasts expire_seconds
two_admitted = refl

Requests-limit_example : length (filter (above (window_start two_in_ten 9000)) three_requests.1) ≤ 2
unfolding Adds expire_seconds
Requests-limit_example =
    Requests-limit sets_in_memory sorted_sets two_in_ten "k" 2 three_requests.0 three_requests.1
      9000 (λ s key t. refl, λ s key d. refl) refl (omega arith) (omega arith) three_requests.2

oldest_of-last : (later : List ℕ) (t : ℕ) → oldest_of (later ++ t ∷ []) ≡ decimal_int (pos t) ∷ []
oldest_of-last [] t = refl
oldest_of-last (u ∷ []) t = refl
oldest_of-last (u ∷ v ∷ vs) t = oldest_of-last (v ∷ vs) t

first_entry :
    (s : Sets) (key : String) (later : List ℕ) (oldest : ℕ) (members : List String)
    → s.items key ≡ later ++ oldest ∷ []
    → All (λ t. oldest < t) later
    → (sets_in_memory.z_range s key (pos 0) (pos 0)).1 ≡ ok members
    → members ≡ decimal_int (pos oldest) ∷ []
first_entry s key later oldest members has least answer =
    let read : oldest_of (s.items key) ≡ members = cc in
    sym read ∙ ap oldest_of has ∙ oldest_of-last later oldest

abbrev ranges : Ranges sets_in_memory sorted_sets
ranges = record { first_entry = first_entry }

passes : (allow sets_in_memory two_in_ten empty 7000 "k").1 ≡ ok true
unfolding allow sliding_key lasts expire_seconds
passes = refl

read_back :
    (sets_in_memory.z_range
      (Expiring.at [] (allow sets_in_memory two_in_ten empty 7000 "k").0 9000)
      (sliding_key "k")
      (pos 0)
      (pos 0)).1
    ≡ ok ("7000" ∷ [])
unfolding allow sliding_key decimal_int decimal lasts expire_seconds
read_back = refl

reset-allow_example :
    (reset sets_in_memory two_in_ten
      (Expiring.at [] (allow sets_in_memory two_in_ten empty 7000 "k").0 9000)
      9000
      "k").1
    ≡ pos 17000
unfolding Adds expire_seconds
reset-allow_example =
    reset-allow sets_in_memory sorted_sets ranges two_in_ten empty 7000 9000 "k" 2 ("7000" ∷ [])
      (λ s key t. refl, λ s key d. refl) refl (omega arith) (omega arith) (omega arith)
      (omega arith) (omega arith) refl passes read_back

answered : Answers sets_in_memory
unfolding Answers
answered s key m = (_, refl)

-- Three requests at once under a limit of two.
count_all-passes_example :
    (count_all sets_in_memory two_in_ten "k" empty (7000 ∷ 7001 ∷ 7002 ∷ [])).1
    ≡ ok true ∷ ok true ∷ ok true ∷ []
count_all-passes_example =
    count_all-passes sets_in_memory sorted_sets two_in_ten "k" 2 empty (7000 ∷ 7001 ∷ 7002 ∷ [])
      answered refl (omega arith)
