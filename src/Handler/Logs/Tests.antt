-- ===== src/Handler/Logs/Tests.antt =====
-- Examples: a limit that is out of range, and a repository that answers with the limit it was given.
use api_gateway.Common.{
  ℤ, pos, parse_int, if◌then◌else◌, String, str_eq, List, [], ◌∷◌, Bool, Option, none, Result, ok,
  ◌≡◌, refl,
}
use api_gateway.Handler.Logs.{logs, get_logs, limit_of, offset_of, status_of, parse_time_range}
use api_gateway.Service.Analytics.{LogQuery, by_status_code, by_time_range, query_for}

abbrev query : String → String
query name = if str_eq name "limit" then "5000" else if str_eq name "offset" then "20" else ""

abbrev parse_rfc3339 : String → Option ℤ
parse_rfc3339 text = none

abbrev echo : LogQuery → Result Bool (List ℤ)
echo (by_status_code status_code from to limit offset) = ok (limit ∷ [])
echo (by_time_range from to limit offset) = ok (limit ∷ [])

page : get_logs parse_rfc3339 echo query 100000000000000 ≡ logs (pos 100 ∷ []) (pos 100) (pos 20)
unfolding get_logs limit_of offset_of status_of parse_time_range query_for parse_int
page = refl
