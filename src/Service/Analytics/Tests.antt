-- ===== src/Service/Analytics/Tests.antt =====
-- Examples: a table with two requests, one of which failed, and whole numbers for floats.
use api_gateway.Common.{
  ℕ, ◌<◌, ℤ, pos, List, [], ◌∷◌, ◌++◌, length, filter, Bool, Option, none, some, ok, ◌≡◌, refl, ◌⊎◌,
  arith,
}
use api_gateway.RateLimit.TokenBucket.Whole.{whole}
use api_gateway.Middleware.RequestLogger.{RequestLog}
use api_gateway.Repository.RequestLogs.{
  LogTable, find_by_api_key, collect, get_top_endpoints, count_by_time_range,
  count_by_status_code_range, get_average_response_time, get_percentile,
}
use api_gateway.Service.Analytics.{
  AnalyticsSummary, empty_summary, rate, with_rates, get_summary, get_api_key_stats,
}
use api_gateway.Service.Analytics.Rates.{Rates, get_api_key_stats-Rates}
use api_gateway.Service.Analytics.Totals.{meets_all, Counts, get_summary-Rates}

abbrev entry : ℕ → ℕ → RequestLog
entry t status = record {
  timestamp = t;
  api_key_id = some "1";
  method = "GET";
  path = "/";
  status_code = status;
  response_time_ms = pos 4;
  ip_address = "";
  user_agent = "";
  backend_server = "";
}

abbrev Db : Type 0
Db = List RequestLog

abbrev insert : Db → List RequestLog → Db × Option Bool
insert db logs = (db ++ logs, none)

abbrev table : LogTable ℕ
table = record {
  Db = Db;
  Fault = Bool;
  insert = insert;
  find = λ db selection. ok (filter (meets_all selection.conditions) db);
  count = λ db conditions. ok (pos (length (filter (meets_all conditions) db)));
  average = λ db conditions. ok 4;
  percentile = λ db p conditions. (pos 4, none);
  paths_by_count = λ db conditions limit.
      ok (record { scans = ok (record { path = "/"; count = pos 2 }) ∷ []; ended_by = none });
  hours = λ db conditions. ok (record { scans = []; ended_by = none });
  remove = λ db conditions. (db, (pos 0, none));
}

counted :
    (db : Db) (conditions : List _) (n : ℤ)
    → table.count db conditions ≡ ok n
    → n ≡ pos (length (filter (meets_all conditions) db))
counted db conditions n e = cc

abbrev counts : Counts table
counts = record { rows = λ db. db; count = counted }

abbrev logs : List RequestLog
logs = entry 5 200 ∷ entry 6 404 ∷ []

found : find_by_api_key table logs "1" (pos 0) (pos 9) (pos 10000) (pos 0) ≡ ok logs
unfolding find_by_api_key
found = refl

get_api_key_stats-Rates_example :
    (s : AnalyticsSummary whole) × (get_api_key_stats whole table logs "1" (pos 0) (pos 9) ≡ ok s)
    × (((logs ≡ []) × (s ≡ empty_summary whole))
        ⊎ ((0 < 2) × Rates whole s logs × (s.avg_response_time ≡ 4)))
get_api_key_stats-Rates_example =
    get_api_key_stats-Rates whole table logs "1" (pos 0) (pos 9) logs found (omega arith)
      (omega arith, (omega arith, tt)) (omega arith)

abbrev summary : AnalyticsSummary whole
summary = record {
  total_requests = pos 2;
  avg_response_time = 4;
  p50_response_time = pos 4;
  p95_response_time = pos 4;
  p99_response_time = pos 4;
  error_rate = 0;
  success_rate = 100;
  client_error_rate = 0;
  server_error_rate = 0;
  top_endpoints = record { path = "/"; count = pos 2 } ∷ [];
}

summarized : get_summary whole table logs (pos 0) (pos 9) 50 95 99 ≡ ok summary
unfolding get_summary get_top_endpoints count_by_time_range count_by_status_code_range
    get_average_response_time get_percentile with_rates rate collect
summarized = refl

get_summary-Rates_example :
    ((logs ≡ []) × (summary ≡ empty_summary whole)) ⊎ ((0 < 2) × Rates whole summary logs)
get_summary-Rates_example =
    get_summary-Rates whole table counts logs (pos 0) (pos 9) 50 95 99 summary (omega arith)
      summarized
