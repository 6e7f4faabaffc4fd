-- ===== src/Server/Routes/Tests.antt =====
-- Examples: a request for its own account.
use mathlib.Core.List.{Memᴰ}
use api_gateway.Common.{ℕ, String, [], ◌∷◌, ◌++◌, Bool, Option, none, Result, ok, refl}
use api_gateway.Repository.Users.{User}
use api_gateway.Middleware.Context.{json, Context, done, Handler}
use api_gateway.Middleware.Sequence.{run, sequence, counting, request_for, unseen}
use api_gateway.Middleware.Chain.{Parts}
use api_gateway.Middleware.Chain.Logged.{gates}
use api_gateway.Server.Routes.{Route, Endpoints, auth_routes, me_endpoint, under}
use api_gateway.Server.Routes.Guarded.{TurnedAway, auth_routes-TurnedAway}

abbrev answers : Handler ℕ
answers next c = done (record c { calls = c.calls ++ json 200 ∷ [] })

abbrev no_user : ℕ → String → Result Bool (Option User)
no_user n id = ok none

abbrev endpoints : Endpoints ℕ
endpoints = record {
  health_check = answers;
  register = answers;
  login = answers;
  me = me_endpoint no_user;
  create = answers;
  list = answers;
  get = answers;
  update = answers;
  delete = answers;
  admin_status = answers;
  circuit_breaker_status = answers;
  reset_circuit_breaker = answers;
  service_health_status = answers;
  get_summary = answers;
  get_time_series = answers;
  get_api_key_stats = answers;
  get_logs = answers;
  proxy = λ path. answers;
}

abbrev parts : Parts ℕ
parts = counting

abbrev asked : Context ℕ
asked = unseen 0 (request_for "/auth/me" "Bearer t")

abbrev me_route : Route ℕ
me_route = under "/auth" [] "GET" "/me" (me_endpoint no_user)

is_route : Memᴰ me_route (auth_routes endpoints)
unfolding auth_routes
is_route = Memᴰ.tail (Memᴰ.tail (Memᴰ.head refl))

auth_routes-TurnedAway_example :
    TurnedAway (sequence ℕ) parts asked (run (gates parts me_route.handlers) asked)
auth_routes-TurnedAway_example =
    auth_routes-TurnedAway (sequence ℕ) parts no_user endpoints me_route asked is_route refl refl
      refl refl
