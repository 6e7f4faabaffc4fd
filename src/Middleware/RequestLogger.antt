-- ===== src/Middleware/RequestLogger.antt =====
-- internal/middleware/requestlogger.go and internal/models/requestlog.go: requests put their entries
-- into a buffered channel, from which one goroutine inserts them in batches.
pub mod Batches
pub mod Drain
mod Tests
use api_gateway.Common.{
  ℕ, ℤ, quotient, elapsed, ltb, leb, if◌then◌else◌, String, List, [], ◌∷◌, ◌++◌, length, Bool, true,
  false, Option,
}
use api_gateway.Http.{Request}

-- The fields of a `RequestLog`, but for the id that the database assigns.
pub record RequestLog : Type 0 where
  pub timestamp : ℕ
  pub api_key_id : Option String
  pub method : String
  pub path : String
  pub status_code : ℕ
  pub response_time_ms : ℤ
  pub ip_address : String
  pub user_agent : String
  pub backend_server : String

-- The entry for a request that started and was done at two instants, with the key id in its context.
-- `c.GetHeader` reads the request's headers.
pub log_entry : Request → Option String → ℕ → ℕ → ℕ → RequestLog
log_entry req api_key_id status_code start done = record {
  timestamp = start;
  api_key_id = api_key_id;
  method = req.method;
  path = req.path;
  status_code = status_code;
  response_time_ms = quotient (elapsed done start) 1000000;
  ip_address = req.client_ip;
  user_agent = req.headers "User-Agent";
  backend_server = req.headers "X-Backend-Server";
}

-- The channel, and the variable `batch` of the goroutine.
pub record LogQueue : Type 0 where
  pub buffer_size : ℕ
  pub log_channel : List RequestLog
  pub batch : List RequestLog

pub init_request_logger : ℕ → LogQueue
init_request_logger buffer_size = record { buffer_size = buffer_size; log_channel = []; batch = [] }

-- The request's side: an entry is sent, or dropped if the channel is full.
pub send : LogQueue → RequestLog → LogQueue × Bool
send q entry =
    if ltb (length q.log_channel) q.buffer_size
    then (record q { log_channel = q.log_channel ++ entry ∷ [] }, true)
    else (q, false)

-- The goroutine's side: the entry that it receives joins the batch, and a full batch is inserted.
receive_from : LogQueue → List RequestLog → LogQueue × List (List RequestLog)
receive_from q [] = (q, [])
receive_from q (entry ∷ rest) =
    let batch = q.batch ++ entry ∷ [] in
    if leb 100 (length batch)
    then (record q { log_channel = rest; batch = [] }, batch ∷ [])
    else (record q { log_channel = rest; batch = batch }, [])

pub receive : LogQueue → LogQueue × List (List RequestLog)
unfolding receive_from
receive q = receive_from q q.log_channel

-- The ticker: what there is of a batch is inserted.
pub tick : LogQueue → LogQueue × List (List RequestLog)
tick q = if ltb 0 (length q.batch) then (record q { batch = [] }, q.batch ∷ []) else (q, [])

-- `insertBatch`, over what the database does; its error is only printed.
pub insert_batch :
    {Db Fault : Type 0} → (Db → List RequestLog → Db × Option Fault) → Db → List RequestLog → Db
insert_batch create db [] = db
insert_batch create db (log ∷ logs) = (create db (log ∷ logs)).0
