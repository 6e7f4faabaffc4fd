-- ===== src/Repository/RequestLogs.antt =====
-- internal/repository/requestLogRepository.go: the queries over the table `request_logs`.
use api_gateway.Common.{ℤ, String, List, [], ◌∷◌, Option, none, Result, ok, err}
use api_gateway.Middleware.RequestLogger.{RequestLog}

-- The conditions of `Where`; BETWEEN takes both ends.
pub data LogCondition : Type 0 where
  timestamp_between : (from to : ℤ) → LogCondition
  timestamp_before : ℤ → LogCondition
  api_key_id_is : String → LogCondition
  status_code_is : ℤ → LogCondition
  status_code_between : (least greatest : ℤ) → LogCondition

-- The column that `Order` names, "" without one.
pub record Selection : Type 0 where
  pub conditions : List LogCondition
  pub order : String
  pub limit : ℤ
  pub offset : ℤ

-- What the loop over `rows` meets: each row is scanned or fails to be. An error that ends the rows early
-- is kept apart, for `rows.Err()`.
pub record Rows (Fault Row : Type 0) : Type 0 where
  pub scans : List (Result Fault Row)
  pub ended_by : Option Fault

pub record EndpointCount : Type 0 where
  pub path : String
  pub count : ℤ

pub record HourStatus (Float : Type 0) : Type 0 where
  pub hour : ℤ
  pub count : ℤ
  pub avg_response_time : Float

-- What GORM and PostgreSQL do with the table. `percentile` gives the value that is scanned beside the
-- error; `remove` the number of rows beside it.
pub record LogTable (Float : Type 0) : Type 1 where
  pub Db : Type 0
  pub Fault : Type 0
  pub insert : Db → List RequestLog → Db × Option Fault
  pub find : Db → Selection → Result Fault (List RequestLog)
  pub count : Db → List LogCondition → Result Fault ℤ
  pub average : Db → List LogCondition → Result Fault Float
  pub percentile : Db → Float → List LogCondition → ℤ × Option Fault
  pub paths_by_count : Db → List LogCondition → ℤ → Result Fault (Rows Fault EndpointCount)
  pub hours : Db → List LogCondition → Result Fault (Rows Fault (HourStatus Float))
  pub remove : Db → List LogCondition → Db × (ℤ × Option Fault)

module _ {Fault Row : Type 0} where
  prepended : Row → Result Fault (List Row) → Result Fault (List Row)
  prepended row (err e) = err e
  prepended row (ok rows) = ok (row ∷ rows)

  -- The loop: the first row that fails to be scanned ends it with its error.
  unfoldable pub collect : List (Result Fault Row) → Result Fault (List Row)
  unfolding prepended
  collect [] = ok []
  collect (err e ∷ rest) = err e
  collect (ok row ∷ rest) = prepended row (collect rest)

  all_rows : Result Fault (Rows Fault Row) → Result Fault (List Row)
  all_rows (err e) = err e
  all_rows (ok rows) = collect rows.scans

module _ {Float : Type 0} (table : LogTable Float) where
  open table use {Db, Fault}

  pub create : Db → RequestLog → Db × Option Fault
  create db log = table.insert db (log ∷ [])

  pub create_batch : Db → List RequestLog → Db × Option Fault
  create_batch db [] = (db, none)
  create_batch db (log ∷ logs) = table.insert db (log ∷ logs)

  unfoldable pub find_by_time_range :
      Db → (from to limit offset : ℤ) → Result Fault (List RequestLog)
  find_by_time_range db from to limit offset = table.find db (record {
    conditions = timestamp_between from to ∷ [];
    order = "timestamp DESC";
    limit = limit;
    offset = offset;
  })

  unfoldable pub find_by_api_key :
      Db → String → (from to limit offset : ℤ) → Result Fault (List RequestLog)
  find_by_api_key db api_key_id from to limit offset = table.find db (record {
    conditions = api_key_id_is api_key_id ∷ timestamp_between from to ∷ [];
    order = "timestamp DESC";
    limit = limit;
    offset = offset;
  })

  unfoldable pub find_by_status_code :
      Db → (status_code from to limit offset : ℤ) → Result Fault (List RequestLog)
  find_by_status_code db status_code from to limit offset = table.find db (record {
    conditions = status_code_is status_code ∷ timestamp_between from to ∷ [];
    order = "";
    limit = limit;
    offset = offset;
  })

  unfoldable pub count_by_time_range : Db → (from to : ℤ) → Result Fault ℤ
  count_by_time_range db from to = table.count db (timestamp_between from to ∷ [])

  unfoldable pub get_average_response_time : Db → (from to : ℤ) → Result Fault Float
  get_average_response_time db from to = table.average db (timestamp_between from to ∷ [])

  unfoldable pub get_percentile : Db → (from to : ℤ) → Float → ℤ × Option Fault
  get_percentile db from to percentile =
      table.percentile db percentile (timestamp_between from to ∷ [])

  unfoldable pub count_by_status_code_range :
      Db → (min_status_code max_status_code from to : ℤ) → Result Fault ℤ
  count_by_status_code_range db min_status_code max_status_code from to =
      table.count db
        (status_code_between min_status_code max_status_code ∷ timestamp_between from to ∷ [])

  unfoldable pub get_top_endpoints : Db → (from to limit : ℤ) → Result Fault (List EndpointCount)
  unfolding all_rows
  get_top_endpoints db from to limit =
      all_rows (table.paths_by_count db (timestamp_between from to ∷ []) limit)

  unfoldable pub get_hourly_status : Db → (from to : ℤ) → Result Fault (List (HourStatus Float))
  unfolding all_rows
  get_hourly_status db from to = all_rows (table.hours db (timestamp_between from to ∷ []))

  unfoldable pub delete_old_logs : Db → ℤ → Db × (ℤ × Option Fault)
  delete_old_logs db before = table.remove db (timestamp_before before ∷ [])
