-- ===== src/Server/Gateway/Tests.antt =====
-- Examples: the list of keys, asked for without a token.
use mathlib.Core.List.{Memᴰ}
use api_gateway.Common.{ℕ, String, List, [], ◌∷◌, ◌++◌, Bool, none, ok, ◌≡◌, refl}
use api_gateway.Http.{Request}
use api_gateway.Repository.{record_not_found}
use api_gateway.Repository.ApiKeys.{Keys}
use api_gateway.Storage.InMemory.{in_memory}
use api_gateway.RateLimit.TokenBucket.{Json}
use api_gateway.RateLimit.TokenBucket.Whole.{whole}
use api_gateway.Service.ApiKeys.{KeyJson}
use api_gateway.Middleware.Context.{Call, json, Context, done, Handler}
use api_gateway.Middleware.Sequence.{run, sequence, request_for, unseen}
use api_gateway.Middleware.RequestLogger.{init_request_logger}
use api_gateway.Middleware.Auth.{AuthVerdict, unauthorized}
use api_gateway.Middleware.Chain.{setup_middleware}
use api_gateway.Server.Routes.{Route, Endpoints, admin_routes, under}
use api_gateway.Middleware.Chain.{check_auth}
use api_gateway.Server.Routes.Guarded.{Refusal}
use api_gateway.Server.Gateway.{Gateway, Moments, gateway_parts, serve-denies}

abbrev blank : Json whole
blank = record { marshal = λ state. ""; unmarshal = λ text. record { tokens = 0; last_refill = 0 } }

abbrev no_keys : Keys
no_keys = record {
  Db = ℕ;
  Fault = Bool;
  first = λ db conditions. record_not_found;
  find_by_created_at_desc = λ db. ok [];
  count = λ db conditions. ok 0;
  insert = λ db key. (db, none);
  updates = λ db conditions changes. (db, none);
  remove = λ db conditions. (db, none);
}

abbrev no_json : KeyJson
no_json = record { marshal = λ key. ""; unmarshal = λ text. none }

abbrev hash : String → String
hash key = key

abbrev State : Type 0
State = Gateway whole blank in_memory no_keys no_json hash

abbrev denies : Request → AuthVerdict
denies req = unauthorized "Authorization header required"

abbrev answers : Handler State
answers next c = done (record c { calls = c.calls ++ json 200 ∷ [] })

abbrev endpoints : Endpoints State
endpoints = record {
  health_check = answers;
  register = answers;
  login = answers;
  me = answers;
  create = answers;
  list = answers;
  get = answers;
  update = answers;
  delete = answers;
  admin_status = answers;
  circuit_breaker_status = answers;
  reset_circuit_breaker = answers;
  service_health_status = answers;
  get_summary = answers;
  get_time_series = answers;
  get_api_key_stats = answers;
  get_logs = answers;
  proxy = λ path. answers;
}

abbrev at : Moments whole blank in_memory no_keys no_json hash
at = record {
  new_uuid = "u-1";
  logger_start = 61000000000;
  logger_end = 61000000009;
  log_start = 61000000001;
  log_end = 61000000008;
  limited = record {
    allowed = record { initial = 61000000002; now = 61000000002 };
    remained = 61000000003;
    was_reset = 61000000004;
    until = 61000000005;
  };
}

abbrev asked : Context State
asked =
    unseen (record { store = λ key. 0; db = 0; queue = init_request_logger 1000 })
      (request_for "/admin/keys" "")

abbrev status : List Call → ℕ
status calls = 200

abbrev trim_space : String → String
trim_space text = text

abbrev list_keys : Route State
list_keys = under "/admin" (check_auth denies ∷ []) "GET" "/keys" answers

is_route : Memᴰ list_keys (admin_routes denies endpoints)
unfolding admin_routes
is_route = Memᴰ.tail (Memᴰ.head refl)

serve-denies_example :
    (d : Context State) × (last : Call) × (written : List Call) × (run
        (setup_middleware
            (gateway_parts whole blank in_memory no_keys no_json hash status trim_space [] at)
          ++ list_keys.handlers)
        asked
      ≡ done d)
    × (d.calls ≡ written ++ last ∷ [])
    × Refusal last
    × (d.world.db ≡ 0)
serve-denies_example =
    serve-denies whole blank in_memory no_keys no_json hash (sequence State) status trim_space [] at
      denies endpoints list_keys asked "Authorization header required" is_route refl refl
