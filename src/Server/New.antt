-- ===== src/Server/New.antt =====
-- `New` of internal/server/server.go: the parts that a configuration gives rise to.
use api_gateway.Common.{ℕ, String, str_eq, List, Bool, Option, Outcome, returns, panics, Result}
use api_gateway.Http.{Request, Url}
use api_gateway.Config.{Config}
use api_gateway.LoadBalancer.Random.{Rand}
use api_gateway.Proxy.{Proxy}
use api_gateway.Service.Auth.{AuthService, new_auth_service}
use api_gateway.Middleware.RequestLogger.{LogQueue, init_request_logger}
use api_gateway.Middleware.Context.{Handler}
use api_gateway.Middleware.Auth.{AuthVerdict}
use api_gateway.Middleware.Chain.{Parts, setup_middleware}
use api_gateway.Server.{Startup, initialize_proxies}
use api_gateway.Server.Routes.{Route, Endpoints, setup_routes}

module _ (rand : Rand) (parse : String → Result String Url) (World : Type 0) where
  open rand use {Rng}

  -- `release_mode` is whether gin is set to it. The handlers of the middleware and of the routes are
  -- those of one request.
  pub record Server : Type 0 where
    pub release_mode : Bool
    pub config : Config
    pub proxies : String → Option (Proxy Rng)
    pub auth_service : AuthService
    pub log_queue : LogQueue
    pub middleware : List (Handler World)
    pub routes : List (Route World)

  built :
      Config
      → Parts World
      → (AuthService → Request → AuthVerdict)
      → Endpoints World
      → List String
      → Outcome (String → Option (Proxy Rng))
      → Outcome Server
  built cfg parts verdict endpoints ranged panics = panics
  built cfg parts verdict endpoints ranged (returns proxies) =
      let auth_service = new_auth_service cfg.jwt.secret cfg.jwt.expiry_hours in
      returns (record {
        release_mode = str_eq cfg.server.environment "production";
        config = cfg;
        proxies = proxies;
        auth_service = auth_service;
        log_queue = init_request_logger 1000;
        middleware = setup_middleware parts;
        routes = setup_routes (verdict auth_service) endpoints ranged;
      })

  -- `ranged` are the paths of the proxies, in the order in which the map is ranged over.
  unfoldable pub new :
      (ℕ → Startup rand parse)
      → Config
      → Parts World
      → (AuthService → Request → AuthVerdict)
      → Endpoints World
      → List String
      → Outcome Server
  unfolding built
  new startup cfg parts verdict endpoints ranged =
      built cfg parts verdict endpoints ranged (initialize_proxies rand parse startup cfg.services)
