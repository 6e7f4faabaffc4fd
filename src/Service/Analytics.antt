-- ===== src/Service/Analytics.antt =====
-- internal/service/analytics.go.
pub mod Rates
pub mod Totals
mod Tests
use api_gateway.Common.{
  ℕ, ℤ, pos, eq_ℤ, wrap_int, minus_int, increment, add_ℤ, leb, if◌then◌else◌, String, List, [], ◌∷◌,
  map, length, Bool, ◌&&◌, Option, none, some, Result, ok, err,
}
use api_gateway.RateLimit.TokenBucket.{Floats}
use api_gateway.Middleware.RequestLogger.{RequestLog}
use api_gateway.Repository.RequestLogs
use api_gateway.Repository.RequestLogs.{LogTable, EndpointCount, HourStatus}

-- The queries of the log repository that `GetLogs` chooses from.
pub data LogQuery : Type 0 where
  by_status_code : (status_code from to limit offset : ℤ) → LogQuery
  by_time_range : (from to limit offset : ℤ) → LogQuery

unfoldable pub query_for : Option ℤ → ℤ → ℤ → ℤ → ℤ → LogQuery
query_for (some status_code) from to limit offset = by_status_code status_code from to limit offset
query_for none from to limit offset = by_time_range from to limit offset

-- The next call of a chain, after one that may have failed.
abbrev pub and_then : {E A B : Type 0} → Result E A → (A → Result E B) → Result E B
and_then (err e) f = err e
and_then (ok a) f = f a

-- The variables of the loop of `GetAPIKeyStats`.
pub record Tally : Type 0 where
  pub total_response_time : ℤ
  pub client_errors : ℤ
  pub server_errors : ℤ

-- `status >= least && status <= greatest`
abbrev pub within : ℕ → ℕ → ℕ → Bool
within least greatest status = leb least status && leb status greatest

unfoldable pub tally_log : Tally → RequestLog → Tally
tally_log t log = record {
  total_response_time = wrap_int (add_ℤ t.total_response_time log.response_time_ms);
  client_errors =
      if within 400 499 log.status_code then increment t.client_errors else t.client_errors;
  server_errors =
      if within 500 599 log.status_code then increment t.server_errors else t.server_errors;
}

unfoldable pub tally : Tally → List RequestLog → Tally
tally t [] = t
tally t (log ∷ logs) = tally (tally_log t log) logs

module _ (floats : Floats) where
  open floats use {Float, of_int, add, sub, mul, div}

  pub record AnalyticsSummary : Type 0 where
    pub total_requests : ℤ
    pub avg_response_time : Float
    pub p50_response_time : ℤ
    pub p95_response_time : ℤ
    pub p99_response_time : ℤ
    pub error_rate : Float
    pub success_rate : Float
    pub client_error_rate : Float
    pub server_error_rate : Float
    pub top_endpoints : List EndpointCount

  abbrev pub empty_summary : AnalyticsSummary
  empty_summary = record {
    total_requests = pos 0;
    avg_response_time = of_int (pos 0);
    p50_response_time = pos 0;
    p95_response_time = pos 0;
    p99_response_time = pos 0;
    error_rate = of_int (pos 0);
    success_rate = of_int (pos 0);
    client_error_rate = of_int (pos 0);
    server_error_rate = of_int (pos 0);
    top_endpoints = [];
  }

  -- `(float64(count) / float64(total)) * 100`
  unfoldable pub rate : (count total : ℤ) → Float
  rate count total = mul (div (of_int count) (of_int total)) (of_int (pos 100))

  -- The four rates of a summary.
  unfoldable pub with_rates :
      AnalyticsSummary → (client_errors server_errors : ℤ) → AnalyticsSummary
  unfolding rate
  with_rates s client_errors server_errors =
      let total_errors = wrap_int (add_ℤ client_errors server_errors) in
      let error_rate = rate total_errors s.total_requests in
      record s {
        error_rate = error_rate;
        success_rate = sub (of_int (pos 100)) error_rate;
        client_error_rate = rate client_errors s.total_requests;
        server_error_rate = rate server_errors s.total_requests;
      }

  module _ (table : LogTable Float) where
    open table use {Db, Fault}

    -- The percentiles, whose errors are dropped, for the floats 0.50, 0.95 and 0.99.
    with_percentiles :
        Db → (from to : ℤ) → (p50 p95 p99 : Float) → AnalyticsSummary → AnalyticsSummary
    with_percentiles db from to p50 p95 p99 s = record s {
      p50_response_time = (RequestLogs.get_percentile table db from to p50).0;
      p95_response_time = (RequestLogs.get_percentile table db from to p95).0;
      p99_response_time = (RequestLogs.get_percentile table db from to p99).0;
    }

    summarize_some : Db → (from to : ℤ) → (p50 p95 p99 : Float) → ℤ → Result Fault AnalyticsSummary
    unfolding with_percentiles
    summarize_some db from to p50 p95 p99 total_requests =
        and_then (RequestLogs.get_average_response_time table db from to) λ avg.
          and_then (RequestLogs.count_by_status_code_range table db (pos 400) (pos 499) from to)
            λ client_errors.
              and_then (RequestLogs.count_by_status_code_range table db (pos 500) (pos 599) from to)
                λ server_errors.
                  and_then (RequestLogs.get_top_endpoints table db from to (pos 10))
                    λ top_endpoints.
                      ok
                        (record (with_rates
                          (with_percentiles db from to p50 p95 p99 (record empty_summary {
                            total_requests = total_requests;
                            avg_response_time = avg;
                          }))
                          client_errors server_errors) { top_endpoints = top_endpoints })

    unfoldable pub get_summary :
        Db → (from to : ℤ) → (p50 p95 p99 : Float) → Result Fault AnalyticsSummary
    unfolding summarize_some
    get_summary db from to p50 p95 p99 =
        and_then (RequestLogs.count_by_time_range table db from to) λ total_requests.
          let summary = summarize_some db from to p50 p95 p99 total_requests in
          if eq_ℤ total_requests (pos 0)
          then ok (record empty_summary { total_requests = total_requests })
          else summary

    -- The maps that the repository makes have the three entries with these types.
    pub get_time_series_data : Db → (from to : ℤ) → Result Fault (List (HourStatus Float))
    get_time_series_data db from to =
        and_then (RequestLogs.get_hourly_status table db from to)
          λ hourly_status. ok (map (λ stat. stat) hourly_status)

    stats_of : List RequestLog → AnalyticsSummary
    stats_of [] = empty_summary
    stats_of (log ∷ logs) =
        let t =
          tally
            (record { total_response_time = pos 0; client_errors = pos 0; server_errors = pos 0 })
            (log ∷ logs) in
        let total_requests = pos (length (log ∷ logs)) in
        with_rates
          (record empty_summary {
            total_requests = total_requests;
            avg_response_time = div (of_int t.total_response_time) (of_int total_requests);
          })
          t.client_errors t.server_errors

    unfoldable pub get_api_key_stats : Db → String → (from to : ℤ) → Result Fault AnalyticsSummary
    unfolding stats_of
    get_api_key_stats db api_key_id from to =
        and_then (RequestLogs.find_by_api_key table db api_key_id from to (pos 10000) (pos 0))
          λ logs. ok (stats_of logs)

    -- The repository's query for each of those that `GetLogs` chooses from.
    pub get_logs : Db → LogQuery → Result Fault (List RequestLog)
    get_logs db (by_status_code status_code from to limit offset) =
        RequestLogs.find_by_status_code table db status_code from to limit offset
    get_logs db (by_time_range from to limit offset) =
        RequestLogs.find_by_time_range table db from to limit offset

    -- `add_date now days` is `now.AddDate(0, 0, days)`.
    pub cleanup_old_logs : (ℤ → ℤ → ℤ) → Db → ℤ → ℤ → Db × (ℤ × Option Fault)
    cleanup_old_logs add_date db now retention_days =
        RequestLogs.delete_old_logs table db (add_date now (minus_int (pos 0) retention_days))
