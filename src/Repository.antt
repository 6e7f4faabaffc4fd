-- ===== src/Repository.antt =====
-- internal/repository and internal/models: the queries that the repositories put to the database. GORM
-- and PostgreSQL are a parameter: a query reads, a command returns the next state of the database.
pub mod ApiKeys
pub mod Users
pub mod RequestLogs
use api_gateway.Common.{Option, none, some, Result, ok, err}

-- What GORM's `First` gives: a row, `ErrRecordNotFound`, or another error.
pub data Found (Fault Row : Type 0) : Type 0 where
  row : Row → Found Fault Row
  record_not_found : Found Fault Row
  failed : Fault → Found Fault Row

-- How the repositories hand it on: no row is no error. With another error they return an empty row
-- beside it, which every caller drops.
unfoldable pub no_row_is_nil : {Fault Row : Type 0} → Found Fault Row → Result Fault (Option Row)
no_row_is_nil (row r) = ok (some r)
no_row_is_nil record_not_found = ok none
no_row_is_nil (failed e) = err e
