-- ===== src/Service/Analytics/Rates.antt =====
-- The numbers of a summary, against counts over the logs.
use api_gateway.Common.{
  ℕ, ◌+◌, ◌≤◌, ◌<◌, ℤ, pos, negsuc, pos_part, ◌≤ℤ◌, max_int, wrap_int, increment, add_ℤ, String,
  List, [], ◌∷◌, length, All, filter, length-filter, Bool, ok, Bool-cases, ◌≡◌, refl, ap, ◌∙◌, ◌⊎◌,
  inl, inr, arith,
}
use api_gateway.RateLimit.TokenBucket.{Floats}
use api_gateway.Middleware.RequestLogger.{RequestLog}
use api_gateway.Repository.RequestLogs.{LogTable, find_by_api_key}
use api_gateway.Service.Analytics.{
  Tally, within, tally_log, tally, AnalyticsSummary, empty_summary, rate, with_rates, stats_of,
  get_api_key_stats,
}

abbrev pub has_status : ℕ → ℕ → RequestLog → Bool
has_status least greatest log = within least greatest log.status_code

abbrev pub count_of : (least greatest : ℕ) → List RequestLog → ℕ
count_of least greatest logs = length (filter (has_status least greatest) logs)

abbrev pub time_of : List RequestLog → ℕ
time_of [] = 0
time_of (log ∷ logs) = pos_part log.response_time_ms + time_of logs

-- The errors are the client's and the server's.
count_of-add :
    (logs : List RequestLog) → count_of 400 499 logs + count_of 500 599 logs ≡ count_of 400 599 logs
count_of-add [] = refl
count_of-add (log ∷ logs) = ground (arith, count_of-add logs)

tally-client :
    (t : Tally) (n : ℕ) (logs : List RequestLog)
    → t.client_errors ≡ pos n
    → n + length logs ≤ max_int
    → (tally t logs).client_errors ≡ pos (n + count_of 400 499 logs)
unfolding tally tally_log increment
tally-client t n [] e room = ground (arith, e)
tally-client t n (log ∷ logs) e room = elim (Bool-cases (within 400 499 log.status_code)) [
  | inl y ↦ rw (y) ground (arith, e, room, y, tally-client (tally_log t log) (n + 1) logs)
  | inr y ↦ rw (y) ground (arith, e, room, y, tally-client (tally_log t log) n logs)
]

tally-server :
    (t : Tally) (n : ℕ) (logs : List RequestLog)
    → t.server_errors ≡ pos n
    → n + length logs ≤ max_int
    → (tally t logs).server_errors ≡ pos (n + count_of 500 599 logs)
unfolding tally tally_log increment
tally-server t n [] e room = ground (arith, e)
tally-server t n (log ∷ logs) e room = elim (Bool-cases (within 500 599 log.status_code)) [
  | inl y ↦ rw (y) ground (arith, e, room, y, tally-server (tally_log t log) (n + 1) logs)
  | inr y ↦ rw (y) ground (arith, e, room, y, tally-server (tally_log t log) n logs)
]

add_time :
    (a : ℤ) (n : ℕ)
    → pos 0 ≤ℤ a
    → n + pos_part a ≤ max_int
    → wrap_int (add_ℤ (pos n) a) ≡ pos (n + pos_part a)
add_time (pos m) n h room = ground arith
add_time (negsuc m) n h room = absurd (ground arith)

tally-time :
    (t : Tally) (n : ℕ) (logs : List RequestLog)
    → t.total_response_time ≡ pos n
    → All (λ log. pos 0 ≤ℤ log.response_time_ms) logs
    → n + time_of logs ≤ max_int
    → (tally t logs).total_response_time ≡ pos (n + time_of logs)
unfolding tally tally_log
tally-time t n [] e h room = ground (arith, e)
tally-time t n (log ∷ logs) e h room =
    let spent = pos_part log.response_time_ms in
    tally-time (tally_log t log) (n + spent) logs
      (ap (λ a. wrap_int (add_ℤ a log.response_time_ms)) e
        ∙ add_time log.response_time_ms n h.0 (omega (arith, room)))
      h.1 (omega (arith, room))
    ∙ ap pos (omega arith)

ap_both : {A B C : Type 0} (f : A → B → C) {a a' : A} {b b' : B} → a ≡ a' → b ≡ b' → f a b ≡ f a' b'
ap_both f e g = cc

add_counts : (a b : ℕ) → a + b ≤ max_int → wrap_int (add_ℤ (pos a) (pos b)) ≡ pos (a + b)
add_counts a b room = ground arith

module _ (floats : Floats) where
  open floats use {Float, of_int, sub, div}

  -- The rates of a summary by counts over the logs.
  abbrev pub Rates : AnalyticsSummary floats → List RequestLog → Type 0
  Rates s logs =
      let total = pos (length logs) in
      let error_rate = rate floats (pos (count_of 400 599 logs)) total in
      (s.total_requests ≡ total)
      × (s.error_rate ≡ error_rate)
      × (s.success_rate ≡ sub (of_int (pos 100)) error_rate)
      × (s.client_error_rate ≡ rate floats (pos (count_of 400 499 logs)) total)
      × (s.server_error_rate ≡ rate floats (pos (count_of 500 599 logs)) total)

  pub with_rates-Rates :
      (s : AnalyticsSummary floats) (logs : List RequestLog) (client server : ℤ)
      → s.total_requests ≡ pos (length logs)
      → client ≡ pos (count_of 400 499 logs)
      → server ≡ pos (count_of 500 599 logs)
      → length logs ≤ max_int
      → Rates (with_rates floats s client server) logs
  unfolding with_rates
  with_rates-Rates s logs client server e f g room =
      let errors : wrap_int (add_ℤ client server) ≡ pos (count_of 400 599 logs) =
        ap_both (λ a b. wrap_int (add_ℤ a b)) f g
        ∙ add_counts _ _
            (omega (arith, count_of-add logs, length-filter (has_status 400 599) logs, room))
        ∙ ap pos (count_of-add logs) in
      let error_rate = ap_both (rate floats) errors e in
      (
        e,
        error_rate,
        ap (sub (of_int (pos 100))) error_rate,
        ap_both (rate floats) f e,
        ap_both (rate floats) g e,
      )

  module _ (table : LogTable Float) where
    open table use {Db, Fault}

    -- Of the logs of a key and a time range that one query for at most 10000 gives, with times that are
    -- not negative and whose sum is in the range of `int`: the summary counts these logs, its rates are
    -- those of the ones with such status codes, its average is the mean of their times; without a log
    -- it is empty. Logs that the query leaves out are not counted.
    pub get_api_key_stats-Rates :
        (db : Db) (api_key_id : String) (from to : ℤ) (logs : List RequestLog)
        → find_by_api_key table db api_key_id from to (pos 10000) (pos 0) ≡ ok logs
        → length logs ≤ 10000
        → All (λ log. pos 0 ≤ℤ log.response_time_ms) logs
        → time_of logs ≤ max_int
        → (s : AnalyticsSummary floats) × (get_api_key_stats floats table db api_key_id from to
            ≡ ok s)
          × (((logs ≡ []) × (s ≡ empty_summary floats))
              ⊎ ((0 < length logs)
                  × Rates s logs
                  × (s.avg_response_time
                      ≡ div (of_int (pos (time_of logs))) (of_int (pos (length logs))))))
    unfolding get_api_key_stats stats_of with_rates
    get_api_key_stats-Rates db api_key_id from to [] e few h room =
        (_, rw (e) refl, inl (refl, refl))
    get_api_key_stats-Rates db api_key_id from to (log ∷ logs) e few h room =
        let all = log ∷ logs in
        let t0 : Tally = record {
          total_response_time = pos 0;
          client_errors = pos 0;
          server_errors = pos 0;
        } in
        let most : length all ≤ max_int = omega (arith, few) in
        (
          stats_of floats table all,
          rw (e) refl,
          inr (
            omega arith,
            with_rates-Rates
                (record (empty_summary floats) {
                  total_requests = pos (length all);
                  avg_response_time =
                      div (of_int (tally t0 all).total_response_time) (of_int (pos (length all)));
                })
                all (tally t0 all).client_errors (tally t0 all).server_errors refl
                (tally-client t0 0 all refl (omega (arith, most)) ∙ ap pos (omega arith))
                (tally-server t0 0 all refl (omega (arith, most)) ∙ ap pos (omega arith)) most,
            ap (λ x. div (of_int x) (of_int (pos (length all))))
                (tally-time t0 0 all refl h (omega (arith, room)) ∙ ap pos (omega arith)),
          ),
        )
