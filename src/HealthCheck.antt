-- ===== src/HealthCheck.antt =====
-- internal/healthcheck: checker.go and status.go. Instants are nanoseconds, read from the clock in
-- the order of the source. The goroutines of `checkAll` each end in one locked section, so a round
-- is a list of checks in the order in which these sections run.
pub mod Loop
pub mod Records
pub mod Selection
pub mod Invariant
pub mod Rounds
pub mod Orders
pub mod Lifecycle
mod Tests
use Prim.Native.String
use api_gateway.Common.{
  ℕ, suc, ℤ, pos, ltb, leb, leb_ℤ, increment, assign, String, str_eq, List, [], ◌∷◌, length, Bool,
  true, false, ◌&&◌, Option, none, some, Outcome, returns, panics, if◌then◌else◌, ◌==◌,
}

pub record Status : Type 0 where
  pub target : String
  pub is_healthy : Bool
  pub last_check : ℕ
  pub last_success : ℕ
  pub last_failure : ℕ
  pub failure_count : ℤ

pub data HealthStatus : Type 0 where
  healthy degraded unhealthy : HealthStatus

pub to_string : HealthStatus → String
to_string healthy = "healthy"
to_string degraded = "degraded"
to_string unhealthy = "unhealthy"

-- `stop_closed` says whether the channel `stopChan` is closed.
pub record Checker : Type 0 where
  pub targets : List String
  pub health_status : String → Option Status
  pub healthy_targets : List String
  pub endpoint : String
  pub interval : ℤ
  pub timeout : ℤ
  pub max_failures : ℤ
  pub stop_closed : Bool
  pub running : Bool

pub record Config : Type 0 where
  pub targets : List String
  pub endpoint : String
  pub interval : ℤ
  pub timeout : ℤ
  pub max_failures : ℤ

abbrev initial_status : String → ℕ → Status
initial_status target now = record {
  target = target;
  is_healthy = true;
  last_check = now;
  last_success = 0;
  last_failure = 0;
  failure_count = pos 0;
}

-- The loop over the targets; `clock i` is read in its round `i`.
pub init_statuses : (ℕ → ℕ) → ℕ → (String → Option Status) → List String → String → Option Status
init_statuses clock i statuses [] = statuses
init_statuses clock i statuses (target ∷ targets) =
    init_statuses clock (suc i) (assign statuses target (some (initial_status target (clock i))))
      targets

unfoldable pub new_checker : Config → (ℕ → ℕ) → Checker
unfolding init_statuses
new_checker cfg clock = record {
  targets = cfg.targets;
  health_status = init_statuses clock 0 (λ _. none) cfg.targets;
  healthy_targets = [];
  endpoint = if str_eq cfg.endpoint "" then "/health" else cfg.endpoint;
  interval = if leb_ℤ cfg.interval (pos 0) then pos 10000000000 else cfg.interval;
  timeout = if leb_ℤ cfg.timeout (pos 0) then pos 5000000000 else cfg.timeout;
  max_failures = if leb_ℤ cfg.max_failures (pos 0) then pos 3 else cfg.max_failures;
  stop_closed = false;
  running = false;
}

pub succeed : Status → ℕ → ℕ → Status
succeed status now later = record status {
  last_check = now;
  last_success = later;
  failure_count = pos 0;
  is_healthy = true;
}

pub fail : Status → ℤ → ℕ → ℕ → Status
fail status max_failures now later =
    let failed = record status {
      last_check = now;
      last_failure = later;
      failure_count = increment status.failure_count;
    } in
    if failed.is_healthy && leb_ℤ max_failures failed.failure_count
    then record failed { is_healthy = false }
    else failed

-- A target without a status is a nil pointer, which the first assignment dereferences.
update_status : Checker → String → (Status → Status) → Option Status → Outcome Checker
update_status c target change none = panics
update_status c target change (some status) =
    returns (record c { health_status = assign c.health_status target (some (change status)) })

pub record_success : Checker → String → ℕ → ℕ → Outcome Checker
unfolding update_status succeed
record_success c target now later =
    update_status c target (λ status. succeed status now later) (c.health_status target)

pub record_failure : Checker → String → ℕ → ℕ → Outcome Checker
unfolding update_status fail
record_failure c target now later =
    update_status c target (λ status. fail status c.max_failures now later) (c.health_status target)

-- What net/http makes of a URL: no request, no response in time, or a response with its status code.
pub data Reply : Type 0 where
  no_request no_response : Reply
  response : ℕ → Reply

pub is_success : Reply → Bool
is_success (response status_code) = leb 200 status_code && ltb status_code 400
is_success _ = false

-- One check: the target, what the network answers at that time, and the readings of the clock.
pub record Check : Type 0 where
  pub target : String
  pub http_get : String → Reply
  pub now : ℕ
  pub later : ℕ

pub check_target : Checker → Check → Outcome Checker
unfolding is_success
check_target c k =
    if is_success (k.http_get (String.◌++◌ k.target c.endpoint))
    then record_success c k.target k.now k.later
    else record_failure c k.target k.now k.later

abbrev pub and_then : Outcome Checker → (Checker → Outcome Checker) → Outcome Checker
and_then (returns c) f = f c
and_then panics f = panics

unfoldable pub check_each : Checker → List Check → Outcome Checker
check_each c [] = returns c
check_each c (k ∷ ks) = and_then (check_target c k) (λ c'. check_each c' ks)

-- The loop of `updateHealthyTargets`; a target without a status is dereferenced here too.
unfoldable pub select_healthy : (String → Option Status) → List String → Option (List String)
select_healthy statuses [] = some []
select_healthy statuses (target ∷ targets) = elim (statuses target) [
  | none ↦ none
  | some status ↦ elim (select_healthy statuses targets) [
    | none ↦ none
    | some rest ↦ some (if status.is_healthy then target ∷ rest else rest)
  ]
]

unfoldable pub update_healthy_targets : Checker → Outcome Checker
unfolding select_healthy
update_healthy_targets c = elim (select_healthy c.health_status c.targets) [
  | none ↦ panics
  | some selected ↦ returns (record c { healthy_targets = selected })
]

-- `checkAll`, for checks of the targets in the order in which the goroutines take the lock.
unfoldable pub check_all : Checker → List Check → Outcome Checker
check_all c ks = and_then (check_each c ks) update_healthy_targets

-- `Start` up to the point where the ticker's goroutine goes on with further rounds.
unfoldable pub start : Checker → List Check → Outcome Checker
start c ks = if c.running then returns c else check_all (record c { running = true }) ks

-- Closing a closed channel panics.
pub stop : Checker → Outcome Checker
stop c =
    if c.running
    then (if c.stop_closed
        then panics
        else returns (record c { stop_closed = true; running = false }))
    else returns c

unfoldable pub get_healthy_targets : Checker → List String
get_healthy_targets c = c.healthy_targets

pub get_all_targets : Checker → List String
get_all_targets c = c.targets

-- The copy of a status is the status: values are not shared here.
pub get_status : Checker → String → Option Status
get_status c target = c.health_status target

pub get_all_status : Checker → String → Option Status
get_all_status c = c.health_status

pub overall_health : Checker → HealthStatus
overall_health c =
    if length c.healthy_targets == 0
    then unhealthy
    else if ltb (length c.healthy_targets) (length c.targets)
    then degraded
    else healthy
