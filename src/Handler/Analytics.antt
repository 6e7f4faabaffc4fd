-- ===== src/Handler/Analytics.antt =====
-- internal/handler/analytics.go: the summary, the time series and the statistics of a key, by what the
-- service answers.
use api_gateway.Common.{ℕ, ℤ, String, Option, none, some, Result, ok, err}
use api_gateway.Handler.Keys.{Response, failure, success}
use api_gateway.Handler.Logs.{parse_time_range}

module _ {Fault Body : Type 0} where
  answer : Result Fault Body → Response Body
  answer (err e) = failure 500
  answer (ok body) = success 200 body

  over_range : (ℤ → ℤ → Result Fault Body) → Option (ℤ × ℤ) → Response Body
  unfolding answer
  over_range service none = failure 400
  over_range service (some (from, to)) = answer (service from to)

  module _ (parse_rfc3339 : String → Option ℤ) where
    pub get_summary : (ℤ → ℤ → Result Fault Body) → (String → String) → ℕ → Response Body
    unfolding over_range
    get_summary service query now = over_range service (parse_time_range parse_rfc3339 query now)

    pub get_time_series : (ℤ → ℤ → Result Fault Body) → (String → String) → ℕ → Response Body
    unfolding over_range
    get_time_series service query now =
        over_range service (parse_time_range parse_rfc3339 query now)

    -- `id` is the parameter of the path as `uuid.Parse` reads it.
    pub get_api_key_stats :
        (String → ℤ → ℤ → Result Fault Body) → Option String → (String → String) → ℕ → Response Body
    unfolding over_range
    get_api_key_stats service none query now = failure 400
    get_api_key_stats service (some id) query now =
        over_range (service id) (parse_time_range parse_rfc3339 query now)
