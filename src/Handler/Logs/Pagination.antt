-- ===== src/Handler/Logs/Pagination.antt =====
-- The page that is read.
use api_gateway.Common.{
  ℕ, ℤ, pos, ◌≤ℤ◌, parse_int, String, List, Option, some, Result, ok, Option-cases, Result-cases,
  ◌≡◌, subst, inl, inr, arith,
}
use api_gateway.Handler.Logs.{
  limit_of, limit_from, offset_of, offset_from, logs, get_logs, get_logs_in, respond, status_of,
  parse_time_range,
}
use api_gateway.Service.Analytics.{LogQuery, query_for}

limit_of-range :
    (query : String → String) → (pos 1 ≤ℤ limit_of query) × (limit_of query ≤ℤ pos 1000)
unfolding limit_of limit_from
limit_of-range query = elim (Option-cases (parse_int (query "limit"))) [
  | inl e ↦ ground (arith, e)
  | inr (l, e) ↦ ground (arith, e)
]

offset_of-range : (query : String → String) → pos 0 ≤ℤ offset_of query
unfolding offset_of offset_from
offset_of-range query = elim (Option-cases (parse_int (query "offset"))) [
  | inl e ↦ ground (arith, e)
  | inr (o, e) ↦ ground (arith, e)
]

module _ (parse_rfc3339 : String → Option ℤ) where
  page_of :
      {Log Fault : Type 0} (run : LogQuery → Result Fault (List Log)) (query : String → String)
      (now : ℕ) (found : List Log) (limit offset from to : ℤ) (got : List Log)
      → parse_time_range parse_rfc3339 query now ≡ some (from, to)
      → run (query_for (status_of query) from to (limit_of query) (offset_of query)) ≡ ok got
      → logs got (limit_of query) (offset_of query) ≡ logs found limit offset
      → (pos 1 ≤ℤ limit)
        × (limit ≤ℤ pos 1000)
        × (pos 0 ≤ℤ offset)
        × (from : ℤ) × (to : ℤ) × (parse_time_range parse_rfc3339 query now ≡ some (from, to))
        × (run (query_for (status_of query) from to limit offset) ≡ ok found)
  page_of run query now found limit offset from to got q r page =
      let l_same : limit_of query ≡ limit = cc in
      let o_same : offset_of query ≡ offset = cc in
      let f_same : got ≡ found = cc in
      let (low, high) = limit_of-range query in
      (
        subst (λ l. pos 1 ≤ℤ l) l_same low,
        subst (λ l. l ≤ℤ pos 1000) l_same high,
        subst (λ o. pos 0 ≤ℤ o) o_same (offset_of-range query),
        from,
        to,
        q,
        cc (l_same, o_same, f_same, r),
      )

  -- Whatever the query says, a page that is answered has 1 to 1000 places and begins at an offset that
  -- is not negative, and it is what the repository gives for that page.
  pub get_logs-page :
      {Log Fault : Type 0} (run : LogQuery → Result Fault (List Log)) (query : String → String)
      (now : ℕ) (found : List Log) (limit offset : ℤ)
      → get_logs parse_rfc3339 run query now ≡ logs found limit offset
      → (pos 1 ≤ℤ limit)
        × (limit ≤ℤ pos 1000)
        × (pos 0 ≤ℤ offset)
        × (from : ℤ) × (to : ℤ) × (parse_time_range parse_rfc3339 query now ≡ some (from, to))
        × (run (query_for (status_of query) from to limit offset) ≡ ok found)
  unfolding get_logs get_logs_in respond
  get_logs-page run query now found limit offset e =
      let l = limit_of query in
      let o = offset_of query in
      elim (Option-cases (parse_time_range parse_rfc3339 query now)) [
        | inl q ↦ absurd (ground (arith, q, e))
        | inr ((from, to), q) ↦
            let read = run (query_for (status_of query) from to l o) in
            elim (Result-cases read) [
              | inl (f, r) ↦ absurd (ground (arith, q, r, e))
              | inr (got, r) ↦
                  let page : logs got l o ≡ logs found limit offset = ground (arith, q, r, e) in
                  page_of run query now found limit offset from to got q r page
            ]
      ]
