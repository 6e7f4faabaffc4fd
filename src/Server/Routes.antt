-- ===== src/Server/Routes.antt =====
-- `setupRoutes` and `setupProxyRoutes` of internal/server/server.go: the routes with their handlers.
pub mod Guarded
mod Tests
use Prim.Native.String
use api_gateway.Common.{ℕ, String, List, [], ◌∷◌, ◌++◌, Option, none, some, Result}
use api_gateway.Http.{Request}
use api_gateway.Repository.Users.{User}
use api_gateway.Service.Auth.{Claims}
use api_gateway.Handler.Keys.{Response, failure, success}
use api_gateway.Handler.Accounts
use api_gateway.Middleware.Context.{json, done, Handler}
use api_gateway.Middleware.Auth.{AuthVerdict}
use api_gateway.Middleware.Chain.{check_auth}

-- `none` is the method of `router.Any`.
pub record Route (World : Type 0) : Type 0 where
  pub method : Option String
  pub path : String
  pub handlers : List (Handler World)

-- The handlers that the routes name, `proxy` by the path of the service.
pub record Endpoints (World : Type 0) : Type 0 where
  pub health_check : Handler World
  pub register : Handler World
  pub login : Handler World
  pub me : Handler World
  pub create : Handler World
  pub list : Handler World
  pub get : Handler World
  pub update : Handler World
  pub delete : Handler World
  pub admin_status : Handler World
  pub circuit_breaker_status : Handler World
  pub reset_circuit_breaker : Handler World
  pub service_health_status : Handler World
  pub get_summary : Handler World
  pub get_time_series : Handler World
  pub get_api_key_stats : Handler World
  pub get_logs : Handler World
  pub proxy : String → Handler World

user_id : Option Claims → Option String
user_id none = none
user_id (some claims) = some claims.user_id

code : {A : Type 0} → Response A → ℕ
code (failure n) = n
code (success n a) = n

module _ {World : Type 0} where
  -- A route of a group: the group's path in front of its own, the group's handlers before its own.
  abbrev pub under :
      String → List (Handler World) → (method path : String) → Handler World → Route World
  under prefix group method path handler = record {
    method = some method;
    path = String.◌++◌ prefix path;
    handlers = group ++ handler ∷ [];
  }

  unfoldable pub public_routes : Endpoints World → List (Route World)
  public_routes e = under "" [] "GET" "/health" e.health_check ∷ []

  unfoldable pub auth_routes : Endpoints World → List (Route World)
  auth_routes e =
      let route = under "/auth" [] in
      route "POST" "/register" e.register
      ∷ route "POST" "/login" e.login
      ∷ route "GET" "/me" e.me
      ∷ []

  unfoldable pub admin_routes : (Request → AuthVerdict) → Endpoints World → List (Route World)
  admin_routes verdict e =
      let route = under "/admin" (check_auth verdict ∷ []) in
      route "POST" "/keys" e.create
      ∷ route "GET" "/keys" e.list
      ∷ route "GET" "/keys/:id" e.get
      ∷ route "PUT" "/keys/:id" e.update
      ∷ route "DELETE" "/keys/:id" e.delete
      ∷ route "GET" "/status" e.admin_status
      ∷ route "GET" "/circuit-breakers" e.circuit_breaker_status
      ∷ route "POST" "/circuit-breakers/*service" e.reset_circuit_breaker
      ∷ route "GET" "/services/health" e.service_health_status
      ∷ route "GET" "/analytics" e.get_summary
      ∷ route "GET" "/analytics/timeseries" e.get_time_series
      ∷ route "GET" "/analytics/keys/:id" e.get_api_key_stats
      ∷ route "GET" "/logs" e.get_logs
      ∷ []

  -- For the paths of the proxies, in the order in which the map is ranged over.
  unfoldable pub setup_proxy_routes : Endpoints World → List String → List (Route World)
  setup_proxy_routes e [] = []
  setup_proxy_routes e (path ∷ paths) =
      record { method = none; path = String.◌++◌ path "/*proxyPath"; handlers = e.proxy path ∷ [] }
      ∷ record { method = none; path = path; handlers = e.proxy path ∷ [] }
      ∷ setup_proxy_routes e paths

  unfoldable pub setup_routes :
      (Request → AuthVerdict) → Endpoints World → List String → List (Route World)
  setup_routes verdict e proxies =
      public_routes e ++ (auth_routes e ++ (admin_routes verdict e ++ setup_proxy_routes e proxies))

  -- `Me` as a handler, with the id that `RequireAuth` has put into the context.
  unfoldable pub me_endpoint :
      {Error : Type 0} → (World → String → Result Error (Option User)) → Handler World
  unfolding code user_id
  me_endpoint service next c = done (record c {
    calls = c.calls ++ json (code (Accounts.me (service c.world) (user_id c.claims))) ∷ [];
  })
