-- ===== src/Main.antt =====
-- cmd/gateway/main.go: the start of the gateway.
pub mod Shutdown
mod Tests
use Prim.Native.String.{◌++◌}
use api_gateway.Common.{
  ℤ, decimal_int, String, Option, none, some, Result, ok, err, Option-cases, Result-cases, ◌≡◌,
  refl, sym, ap, ◌∙◌, ◌↔◌, inl, inr, arith,
}
use api_gateway.Config.{Config, DatabaseConfig, get_redis_addr}

-- The parts that are started: `config.Load`, `storage.NewRedis`, `storage.NewPostgres` and
-- `AutoMigrate`.
pub record Environment : Type 1 where
  pub Redis : Type 0
  pub Postgres : Type 0
  pub load : String → Result String Config
  pub new_redis : (addr password : String) → ℤ → Result String Redis
  pub new_postgres : (dsn : String) → Result String Postgres
  pub auto_migrate : Postgres → Option String

unfoldable pub dsn : DatabaseConfig → String
dsn c =
    "host="
    ++ c.host
    ++ " port="
    ++ decimal_int c.port
    ++ " user="
    ++ c.user
    ++ " password="
    ++ c.password
    ++ " dbname="
    ++ c.db_name
    ++ " sslmode="
    ++ c.ssl_mode

module _ (env : Environment) where
  open env use {Redis, Postgres, load, new_redis, new_postgres, auto_migrate}

  -- `log.Fatalf` ends the process with its line; otherwise the server is made and runs on `addr`.
  pub data Start : Type 0 where
    fatal : (line : String) → Start
    serving : Config → Redis → Postgres → (addr : String) → Start

  migrated : Config → Redis → Postgres → Option String → Start
  migrated cfg redis postgres (some e) = fatal ("Failed to run migrations: " ++ e)
  migrated cfg redis postgres none = serving cfg redis postgres (":" ++ cfg.server.port)

  with_postgres : Config → Redis → Result String Postgres → Start
  unfolding migrated
  with_postgres cfg redis (err e) = fatal ("Failed to connect to PostgreSQL: " ++ e)
  with_postgres cfg redis (ok postgres) = migrated cfg redis postgres (auto_migrate postgres)

  with_redis : Config → Result String Redis → Start
  unfolding with_postgres dsn
  with_redis cfg (err e) = fatal ("Failed to connect to Redis: " ++ e)
  with_redis cfg (ok redis) = with_postgres cfg redis (new_postgres (dsn cfg.database))

  with_config : Result String Config → Start
  unfolding with_redis
  with_config (err e) = fatal ("Failed to load config: " ++ e)
  with_config (ok cfg) =
      with_redis cfg (new_redis (get_redis_addr cfg.redis) cfg.redis.password cfg.redis.db)

  unfoldable pub main : Start
  unfolding with_config
  main = with_config (load "config.json")

  -- The gateway serves if and only if its configuration loads, Redis and PostgreSQL answer under it, and
  -- the migrations succeed.
  pub main_iff :
      (cfg : Config) (redis : Redis) (postgres : Postgres) (addr : String)
      → (main ≡ serving cfg redis postgres addr) ↔ (
          (load "config.json" ≡ ok cfg)
          × (new_redis (get_redis_addr cfg.redis) cfg.redis.password cfg.redis.db ≡ ok redis)
          × (new_postgres (dsn cfg.database) ≡ ok postgres)
          × (auto_migrate postgres ≡ none)
          × (addr ≡ ":" ++ cfg.server.port))
  unfolding main with_config with_redis with_postgres migrated
  main_iff cfg redis postgres addr = (
    λ h. elim (Result-cases (load "config.json")) [
      | inl (e, a) ↦ absurd (ground (arith, a, h))
      | inr (c, a) ↦
          elim (Result-cases (new_redis (get_redis_addr c.redis) c.redis.password c.redis.db)) [
            | inl (e, b) ↦ absurd (ground (arith, a, b, h))
            | inr (r, b) ↦ elim (Result-cases (new_postgres (dsn c.database))) [
              | inl (e, d) ↦ absurd (ground (arith, a, b, d, h))
              | inr (p, d) ↦ elim (Option-cases (auto_migrate p)) [
                | inr (e, f) ↦ absurd (ground (arith, a, b, d, f, h))
                | inl f ↦
                    let is : serving c r p (":" ++ c.server.port)
                        ≡ serving cfg redis postgres addr =
                      ground (arith, a, b, d, f, h) in
                    let c_is : c ≡ cfg = cc in
                    let r_is : r ≡ redis = cc in
                    let p_is : p ≡ postgres = cc in
                    let addr_is : ":" ++ c.server.port ≡ addr = cc in
                    (
                      a ∙ ap ok c_is,
                      ap (λ x. new_redis (get_redis_addr x.redis) x.redis.password x.redis.db)
                            (sym c_is)
                          ∙ b
                          ∙ ap ok r_is,
                      ap (λ x. new_postgres (dsn x.database)) (sym c_is) ∙ d ∙ ap ok p_is,
                      ap auto_migrate (sym p_is) ∙ f,
                      sym addr_is ∙ ap (λ x. ":" ++ x.server.port) c_is,
                    )
              ]
            ]
          ]
    ],
    λ h. let (a, b, d, f, g) = h in rw (a, b, d, f, g) refl,
  )
