-- ===== src/Handler/Logs.antt =====
-- internal/handler/analytics.go: the time range, and the query of `GetLogs`.
-- `query` is `c.Query`, "" for a parameter that is absent.
pub mod Pagination
mod Tests
use api_gateway.Common.{
  ℕ, suc, ◌*◌, ℤ, pos, negsuc, sub_ℕ, ltb_ℤ, leb_ℤ, parse_int, if◌then◌else◌, String, str_eq, List,
  ◌&&◌, Option, none, some, Result, ok, err,
}
use api_gateway.RateLimit.FixedWindow.{second}
use api_gateway.Service.Analytics.{LogQuery, query_for}

limit_from : Option ℤ → ℤ
limit_from none = pos 100
limit_from (some l) = if ltb_ℤ (pos 0) l && leb_ℤ l (pos 1000) then l else pos 100

unfoldable pub limit_of : (String → String) → ℤ
unfolding limit_from
limit_of query =
    if str_eq (query "limit") "" then pos 100 else limit_from (parse_int (query "limit"))

offset_from : Option ℤ → ℤ
offset_from none = pos 0
offset_from (some o) = if leb_ℤ (pos 0) o then o else pos 0

unfoldable pub offset_of : (String → String) → ℤ
unfolding offset_from
offset_of query =
    if str_eq (query "offset") "" then pos 0 else offset_from (parse_int (query "offset"))

pub status_of : (String → String) → Option ℤ
status_of query = if str_eq (query "status") "" then none else parse_int (query "status")

-- An instant in nanoseconds for a number of seconds since 1970.
unix : ℤ → ℤ
unix (pos n) = pos (n * second)
unix (negsuc n) = sub_ℕ 0 (suc n * second)

pub data LogsResponse (Log : Type 0) : Type 0 where
  bad_request : LogsResponse Log
  server_error : LogsResponse Log
  logs : List Log → (limit offset : ℤ) → LogsResponse Log

respond : {Log Fault : Type 0} → Result Fault (List Log) → ℤ → ℤ → LogsResponse Log
respond (err e) limit offset = server_error
respond (ok found) limit offset = logs found limit offset

-- `parse_rfc3339` is `time.Parse`. The errors stand without their text.
module _ (parse_rfc3339 : String → Option ℤ) where
  parse_unix : Option ℤ → Option ℤ
  parse_unix none = none
  parse_unix (some n) = some (unix n)

  parse_instant : String → Option ℤ → Option ℤ
  parse_instant text (some t) = some t
  parse_instant text none = parse_unix (parse_int text)

  -- A time in RFC 3339 or a Unix timestamp, or the default if the parameter is absent.
  bound : String → ℤ → Option ℤ
  bound text default =
      if str_eq text "" then some default else parse_instant text (parse_rfc3339 text)

  both : Option ℤ → Option ℤ → Option (ℤ × ℤ)
  both none _ = none
  both (some from) none = none
  both (some from) (some to) = some (from, to)

  -- By default, the last 24 hours.
  pub parse_time_range : (String → String) → ℕ → Option (ℤ × ℤ)
  unfolding both bound parse_instant parse_unix unix
  parse_time_range query now =
      both (bound (query "from") (sub_ℕ now (86400 * second))) (bound (query "to") (pos now))

  get_logs_in :
      {Log Fault : Type 0}
      → (LogQuery → Result Fault (List Log))
      → (String → String)
      → Option (ℤ × ℤ)
      → LogsResponse Log
  get_logs_in run query none = bad_request
  get_logs_in run query (some (from, to)) =
      let limit = limit_of query in
      let offset = offset_of query in
      respond (run (query_for (status_of query) from to limit offset)) limit offset

  -- The handler `GetLogs`, `run` for the repository.
  pub get_logs :
      {Log Fault : Type 0}
      → (LogQuery → Result Fault (List Log))
      → (String → String)
      → ℕ
      → LogsResponse Log
  unfolding get_logs_in respond
  get_logs run query now = get_logs_in run query (parse_time_range query now)
