-- ===== src/Middleware/RequestLogger/Tests.antt =====
-- Examples: a channel for two entries.
use api_gateway.Common.{ℕ, pos, List, [], ◌∷◌, ◌++◌, none, ◌≡◌, refl}
use api_gateway.Middleware.RequestLogger.{
  RequestLog, LogQueue, init_request_logger, send, receive, tick,
}
use api_gateway.Middleware.RequestLogger.Batches.{
  Reached, started, sends, receives, ticks, Accounted, Reached-Accounted, concat,
}
use api_gateway.Middleware.RequestLogger.Drain.{Onward, Reached-inserts}

abbrev entry : ℕ → RequestLog
entry t = record {
  timestamp = t;
  api_key_id = none;
  method = "GET";
  path = "/";
  status_code = 200;
  response_time_ms = pos 1;
  ip_address = "";
  user_agent = "";
  backend_server = "";
}

abbrev some_steps :
    (q : LogQueue) × (accepted : List RequestLog) × (batches : List (List RequestLog)) × Reached 2 q
      accepted batches
some_steps =
    (_, _, _, ticks (receives (sends (entry 3) (sends (entry 2) (sends (entry 1) started)))))

-- The third entry is dropped, the first one inserted.
steps_end : (some_steps.1 ≡ entry 1 ∷ entry 2 ∷ []) × (some_steps.2 ≡ (entry 1 ∷ []) ∷ [])
unfolding send receive tick init_request_logger
steps_end = (refl, refl)

Reached-Accounted_example : Accounted 2 some_steps.0 some_steps.1 some_steps.2
Reached-Accounted_example = Reached-Accounted 2 some_steps.0 some_steps.1 some_steps.2 some_steps.3

Reached-inserts_example :
    (q' : LogQueue) × (more : List (List RequestLog)) × Onward some_steps.0 q' more
    × (q'.batch ≡ [])
    × (q'.log_channel ≡ [])
    × (concat (some_steps.2 ++ more) ≡ some_steps.1)
Reached-inserts_example = Reached-inserts 2 some_steps.0 some_steps.1 some_steps.2 some_steps.3
