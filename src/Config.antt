-- ===== src/Config.antt =====
-- internal/config/config.go. The file system and encoding/json are parameters of `load`; the
-- environment is a function that gives "" for a variable that is not set.
pub mod Validity
mod Tests
use Prim.Native.String
use api_gateway.Common.{
  ℕ, suc, ℤ, pos, leb_ℤ, decimal, decimal_int, ◌==◌, if◌then◌else◌, String, str_eq, List, [], ◌∷◌,
  length, Bool, Option, none, some, Result, ok, err,
}

pub record ServerConfig : Type 0 where
  pub port : String
  pub environment : String

pub record RedisConfig : Type 0 where
  pub host : String
  pub port : ℤ
  pub password : String
  pub db : ℤ

pub record DatabaseConfig : Type 0 where
  pub host : String
  pub port : ℤ
  pub user : String
  pub password : String
  pub db_name : String
  pub ssl_mode : String

pub record JwtConfig : Type 0 where
  pub secret : String
  pub expiry_hours : ℤ

pub record AnalyticsConfig : Type 0 where
  pub enabled : Bool
  pub retention_days : ℤ
  pub batch_size : ℤ
  pub flush_interval_sec : ℤ

pub record CircuitBreakerConfig : Type 0 where
  pub max_failures : ℤ
  pub timeout_seconds : ℤ
  pub half_open_success : ℤ

pub record HealthCheckConfig : Type 0 where
  pub endpoint : String
  pub interval_seconds : ℤ
  pub timeout_seconds : ℤ
  pub max_failures : ℤ

pub record ServiceConfig : Type 0 where
  pub path : String
  pub targets : List String
  pub load_balancer : String
  pub circuit_breaker : Option CircuitBreakerConfig
  pub health_check : Option HealthCheckConfig

pub record RateLimiterTier : Type 0 where
  pub name : String
  pub requests_per_minute : ℤ
  pub requests_per_hour : ℤ
  pub algorithm : String

pub record Config : Type 0 where
  pub server : ServerConfig
  pub redis : RedisConfig
  pub database : DatabaseConfig
  pub jwt : JwtConfig
  pub analytics : AnalyticsConfig
  pub services : List ServiceConfig
  pub rate_limit_tiers : List RateLimiterTier

-- `if v := os.Getenv(name); v != "" { field = v }`
unfoldable pub override : (String → String) → String → String → String
override env name field = if str_eq (env name) "" then field else env name

unfoldable pub apply_env_overrides : (String → String) → Config → Config
apply_env_overrides env cfg = record cfg {
  server = record {
    port = override env "PORT" cfg.server.port;
    environment = override env "ENVIRONMENT" cfg.server.environment;
  };
  redis = record cfg.redis {
    host = override env "REDIS_HOST" cfg.redis.host;
    password = override env "REDIS_PASSWORD" cfg.redis.password;
  };
  database = record cfg.database {
    host = override env "DB_HOST" cfg.database.host;
    user = override env "DB_USER" cfg.database.user;
    password = override env "DB_PASSWORD" cfg.database.password;
    db_name = override env "DB_NAME" cfg.database.db_name;
  };
  jwt = record cfg.jwt { secret = override env "JWT_SECRET" cfg.jwt.secret };
}

infixr 65 ◌++◌
abbrev ◌++◌ : String → String → String
s ++ t = String.◌++◌ s t

-- The loop over the services, from index `i` on.
pub check_services : ℕ → List ServiceConfig → Option String
check_services i [] = none
check_services i (svc ∷ rest) =
    let checked = check_services (suc i) rest in
    if str_eq svc.path ""
    then some ("service " ++ decimal i ++ ": path is required")
    else if length svc.targets == 0
    then some ("service " ++ decimal i ++ ": at least one target is required")
    else checked

-- What follows the loop.
check_jwt : Config → Option String → Result String Config
check_jwt cfg (some e) = err e
check_jwt cfg none =
    if str_eq cfg.jwt.secret ""
    then err "JWT secret is required"
    else if leb_ℤ cfg.jwt.expiry_hours (pos 0)
    then ok (record cfg { jwt = record cfg.jwt { expiry_hours = pos 24 } })
    else ok cfg

-- The configuration that is left if there is no error.
pub validate : Config → Result String Config
unfolding check_jwt check_services
validate cfg =
    if str_eq cfg.server.port ""
    then err "server port is required"
    else if str_eq cfg.redis.host ""
    then err "redis host is required"
    else if str_eq cfg.database.host ""
    then err "database host is required"
    else if str_eq cfg.database.db_name ""
    then err "database name is required"
    else if length cfg.services == 0
    then err "at least one service must be configured"
    else check_jwt cfg (check_services 0 cfg.services)

wrap : {A : Type 0} → String → Result String A → Result String A
wrap context (ok a) = ok a
wrap context (err e) = err (context ++ e)

finish : (String → String) → Result String Config → Result String Config
finish env (err e) = err e
finish env (ok cfg) = wrap "invalid configuration: " (validate (apply_env_overrides env cfg))

parse : (String → Result String Config) → Result String String → Result String Config
parse unmarshal (err e) = err e
parse unmarshal (ok file) = wrap "failed to parse config file: " (unmarshal file)

pub load :
    (String → Result String String)
    → (String → Result String Config)
    → (String → String)
    → String
    → Result String Config
unfolding finish parse wrap
load read_file unmarshal env path =
    finish env (parse unmarshal (wrap "failed to read config file: " (read_file path)))

pub get_redis_addr : RedisConfig → String
get_redis_addr c = c.host ++ ":" ++ decimal_int c.port
