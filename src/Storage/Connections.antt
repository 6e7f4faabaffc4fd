-- ===== src/Storage/Connections.antt =====
-- internal/storage: how the connections to Redis and PostgreSQL are opened, asked and closed. What the
-- client libraries answer is a parameter.
use Prim.Native.String
use api_gateway.Common.{ℕ, ◌*◌, ℤ, String, List, [], ◌∷◌, Option, none, some, Result, ok, err}
use api_gateway.RateLimit.FixedWindow.{second}

pub record RedisOptions : Type 0 where
  pub addr : String
  pub password : String
  pub db : ℤ
  pub dial_timeout : ℕ
  pub read_timeout : ℕ
  pub write_timeout : ℕ
  pub pool_size : ℕ
  pub min_idle_conns : ℕ

unfoldable pub redis_options : (addr password : String) → ℤ → RedisOptions
redis_options addr password db = record {
  addr = addr;
  password = password;
  db = db;
  dial_timeout = 5 * second;
  read_timeout = 3 * second;
  write_timeout = 3 * second;
  pool_size = 10;
  min_idle_conns = 5;
}

module _ {Client : Type 0} where
  pinged : Client → Option String → Result String Client
  pinged client none = ok client
  pinged client (some e) = err (String.◌++◌ "failed to connect to Redis: " e)

  -- `ping` within five seconds decides.
  unfoldable pub new_redis :
      (RedisOptions → Client)
      → (Client → ℕ → Option String)
      → (addr password : String) → ℤ
      → Result String Client
  unfolding pinged
  new_redis new_client ping addr password db =
      let client = new_client (redis_options addr password db) in
      pinged client (ping client (5 * second))

pub record PoolLimits : Type 0 where
  pub max_idle_conns : ℕ
  pub max_open_conns : ℕ
  pub conn_max_lifetime : ℕ

abbrev pub pool_limits : PoolLimits
pool_limits = record {
  max_idle_conns = 10;
  max_open_conns = 100;
  conn_max_lifetime = 3600 * second;
}

module _ {Db Pool : Type 0} (pool_of : Db → Result String Pool) where
  -- `limit` sets the limits of the pool.
  limited : (Pool → PoolLimits → Db → Db) → Db → Result String Pool → Result String Db
  limited limit db (err e) = err (String.◌++◌ "failed to get database instance: " e)
  limited limit db (ok pool) = ok (limit pool pool_limits db)

  opened : (Pool → PoolLimits → Db → Db) → Result String Db → Result String Db
  unfolding limited
  opened limit (err e) = err (String.◌++◌ "failed to connect to database: " e)
  opened limit (ok db) = limited limit db (pool_of db)

  unfoldable pub new_postgres :
      (String → Result String Db) → (Pool → PoolLimits → Db → Db) → String → Result String Db
  unfolding opened
  new_postgres open_ limit dsn = opened limit (open_ dsn)

  with_pool : (Pool → Option String) → Result String Pool → Option String
  with_pool call (err e) = some e
  with_pool call (ok pool) = call pool

  pub ping : (Pool → Option String) → Db → Option String
  unfolding with_pool
  ping ping_context db = with_pool ping_context (pool_of db)

  pub close : (Pool → Option String) → Db → Option String
  unfolding with_pool
  close close_pool db = with_pool close_pool (pool_of db)

-- The tables that are migrated.
abbrev pub migrated_tables : List String
migrated_tables = "api_keys" ∷ "rate_limit_tiers" ∷ "users" ∷ "request_logs" ∷ []
