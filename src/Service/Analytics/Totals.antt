-- ===== src/Service/Analytics/Totals.antt =====
-- The numbers of the summary of a time range, by the rows of the table.
use api_gateway.Common.{
  ℕ, ◌≤◌, ◌<◌, ℤ, pos, ltb_ℤ, leb_ℤ, eq_ℤ, max_int, str_eq, List, [], ◌∷◌, length, filter,
  length-nil, Bool, true, false, ◌&&◌, none, some, Result, ok, err, Bool-cases, ◌≡◌, refl, sym, ap,
  ◌∙◌, subst, ◌⊎◌, inl, inr, arith,
}
use api_gateway.RateLimit.TokenBucket.{Floats}
use api_gateway.Middleware.RequestLogger.{RequestLog}
use api_gateway.Repository.RequestLogs.{
  LogTable, LogCondition, timestamp_between, timestamp_before, api_key_id_is, status_code_is,
  status_code_between, count_by_time_range, count_by_status_code_range, get_average_response_time,
  get_top_endpoints,
}
use api_gateway.Service.Analytics.{
  within, AnalyticsSummary, empty_summary, get_summary, summarize_some, with_percentiles, and_then,
}
use api_gateway.Service.Analytics.Rates.{count_of, Rates, with_rates-Rates}

abbrev pub meets : LogCondition → RequestLog → Bool
meets (timestamp_between from to) log =
    leb_ℤ from (pos log.timestamp) && leb_ℤ (pos log.timestamp) to
meets (timestamp_before before) log = ltb_ℤ (pos log.timestamp) before
meets (api_key_id_is id) log = elim log.api_key_id [ none ↦ false | some k ↦ str_eq k id ]
meets (status_code_is n) log = eq_ℤ (pos log.status_code) n
meets (status_code_between least greatest) log =
    leb_ℤ least (pos log.status_code) && leb_ℤ (pos log.status_code) greatest

abbrev pub meets_all : List LogCondition → RequestLog → Bool
meets_all [] log = true
meets_all (c ∷ cs) log = meets c log && meets_all cs log

-- What is relied on of a count: it is that of the rows of the table that meet the conditions.
pub record Counts {Float : Type 0} (table : LogTable Float) : Type 0 where
  pub rows : table.Db → List RequestLog
  pub count :
      (db : table.Db) (conditions : List LogCondition) (n : ℤ)
      → table.count db conditions ≡ ok n
      → n ≡ pos (length (filter (meets_all conditions) (rows db)))

filter-errors :
    (least greatest : ℕ) (from to : ℤ) (rows : List RequestLog)
    → length (
        filter
          (meets_all
            (status_code_between (pos least) (pos greatest) ∷ timestamp_between from to ∷ []))
          rows)
      ≡ count_of least greatest (filter (meets_all (timestamp_between from to ∷ [])) rows)
filter-errors least greatest from to [] = refl
filter-errors least greatest from to (log ∷ rows) =
    elim (Bool-cases (within least greatest log.status_code)) [
      | inl y ↦ ground (arith, filter-errors least greatest from to rows, y)
      | inr y ↦ ground (arith, filter-errors least greatest from to rows, y)
    ]

and_then-ok :
    {E A B : Type 0} (r : Result E A) (f : A → Result E B) (b : B)
    → and_then r f ≡ ok b
    → (a : A) × (r ≡ ok a) × (f a ≡ ok b)
and_then-ok (err e) f b h = absurd (cc)
and_then-ok (ok a) f b h = (a, refl, h)

ok-injective : {E A : Type 0} (a b : A) (r : Result E A) → r ≡ ok a → r ≡ ok b → a ≡ b
ok-injective a b r h k = cc

module _ (floats : Floats) where
  open floats use {Float}

  module _ (table : LogTable Float) (counts : Counts table) where
    open table use {Db, Fault}

    summarize_some-Rates :
        (db : Db) (from to : ℤ) (p50 p95 p99 : Float) (total : ℤ) (s : AnalyticsSummary floats)
        → let found = filter (meets_all (timestamp_between from to ∷ [])) (counts.rows db) in
          total ≡ pos (length found)
          → length found ≤ max_int
          → summarize_some floats table db from to p50 p95 p99 total ≡ ok s
          → Rates floats s found
    unfolding summarize_some with_percentiles count_by_status_code_range
    summarize_some-Rates db from to p50 p95 p99 total s e room h =
        let (avg, avg_is, h1) = and_then-ok (get_average_response_time table db from to) _ s h in
        let (client, client_is, h2) =
          and_then-ok (count_by_status_code_range table db (pos 400) (pos 499) from to) _ s h1 in
        let (server, server_is, h3) =
          and_then-ok (count_by_status_code_range table db (pos 500) (pos 599) from to) _ s h2 in
        let (top, top_is, h4) = and_then-ok (get_top_endpoints table db from to (pos 10)) _ s h3 in
        let found = filter (meets_all (timestamp_between from to ∷ [])) (counts.rows db) in
        subst (λ r. Rates floats r found) (ok-injective _ s _ refl h4)
          (with_rates-Rates floats
            (with_percentiles floats table db from to p50 p95 p99
              (record (empty_summary floats) { total_requests = total; avg_response_time = avg }))
            found client server e
            (counts.count db _ client client_is
              ∙ ap pos (filter-errors 400 499 from to (counts.rows db)))
            (counts.count db _ server server_is
              ∙ ap pos (filter-errors 500 599 from to (counts.rows db)))
            room)

    -- The summary of a time range counts the rows in it: its rates are those of the rows with such
    -- status codes; without a row it is empty.
    pub get_summary-Rates :
        (db : Db) (from to : ℤ) (p50 p95 p99 : Float) (s : AnalyticsSummary floats)
        → let found = filter (meets_all (timestamp_between from to ∷ [])) (counts.rows db) in
          length found ≤ max_int
          → get_summary floats table db from to p50 p95 p99 ≡ ok s
          → ((found ≡ []) × (s ≡ empty_summary floats))
            ⊎ ((0 < length found) × Rates floats s found)
    unfolding get_summary count_by_time_range
    get_summary-Rates db from to p50 p95 p99 s room h =
        let found = filter (meets_all (timestamp_between from to ∷ [])) (counts.rows db) in
        let (total, total_is, h1) = and_then-ok (count_by_time_range table db from to) _ s h in
        let counted = counts.count db _ total total_is in
        elim (Bool-cases (eq_ℤ total (pos 0))) [
          | inl zero_ ↦
              let none_ : length found ≡ 0 = ground (arith, zero_, counted) in
              let blank = record (empty_summary floats) { total_requests = total } in
              let yields : Result Fault (AnalyticsSummary floats) = ok blank in
              let is : yields ≡ ok s = ground (arith, zero_, h1) in
              inl (
                length-nil found none_,
                sym (ok-injective blank s yields refl is)
                    ∙ ap (λ n. record (empty_summary floats) { total_requests = n })
                        (counted ∙ ap pos none_),
              )
          | inr some_ ↦ inr (
            ground (arith, some_, counted),
            summarize_some-Rates db from to p50 p95 p99 total s counted room
                (ground (arith, some_, h1)),
          )
        ]
