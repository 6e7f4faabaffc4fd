-- ===== src/Config/Validity.antt =====
-- The configurations that the gateway starts with.
use api_gateway.Common.{
  ℕ, suc, ◌<◌, pos, ◌<ℤ◌, leb_ℤ, ◌==◌, if◌then◌else◌, String, str_eq, eq_iff, List, [], ◌∷◌, length,
  All, none, Result, ok, Bool-cases, Option-cases, Result-cases, ◌≡◌, refl, ◌≢◌, ◌↔◌, inl, inr,
  arith,
}
use api_gateway.Config.{
  Config, ServiceConfig, override, apply_env_overrides, validate, check_services, load,
}

abbrev pub IsUsable : ServiceConfig → Type 0
IsUsable svc = (svc.path ≢ "") × (0 < length svc.targets)

abbrev pub IsComplete : Config → Type 0
IsComplete cfg =
    (cfg.server.port ≢ "")
    × (cfg.redis.host ≢ "")
    × (cfg.database.host ≢ "")
    × (cfg.database.db_name ≢ "")
    × (0 < length cfg.services)
    × All IsUsable cfg.services
    × (cfg.jwt.secret ≢ "")

-- The configuration with the default expiry in place of one that is not positive.
unfoldable pub with_expiry : Config → Config
with_expiry cfg =
    if leb_ℤ cfg.jwt.expiry_hours (pos 0)
    then record cfg { jwt = record cfg.jwt { expiry_hours = pos 24 } }
    else cfg

check_services_iff :
    (i : ℕ) (services : List ServiceConfig)
    → (check_services i services ≡ none) ↔ All IsUsable services
unfolding check_services
check_services_iff i [] = (λ e. tt, λ h. refl)
check_services_iff i (svc ∷ rest) =
    let (to, from) = check_services_iff (suc i) rest in
    elim (Bool-cases (str_eq svc.path "")) [
      | inl e ↦ (
        λ bad. absurd (ground (arith, e, bad)),
        λ (usable, _). absurd (usable.0 ((eq_iff svc.path "").0 e)),
      )
      | inr e ↦ elim (Bool-cases (length svc.targets == 0)) [
        | inl z ↦
            (λ bad. absurd (ground (arith, e, z, bad)), λ (usable, _). ground (arith, z, usable))
        | inr z ↦ (
          λ good. (
            (λ blank. ground (arith, e, (eq_iff svc.path "").1 blank), ground (arith, z)),
            to (ground (arith, e, z, good)),
          ),
          λ (usable, others). ground (arith, e, z, from others),
        )
      ]
    ]

-- Validation succeeds exactly for complete configurations, and then changes at most the expiry.
pub validate_iff :
    (cfg cfg' : Config) → (validate cfg ≡ ok cfg') ↔ (IsComplete cfg × (cfg' ≡ with_expiry cfg))
unfolding validate with_expiry
validate_iff cfg cfg' =
    let (to, from) = check_services_iff 0 cfg.services in
    let port = eq_iff cfg.server.port "" in
    let host = eq_iff cfg.redis.host "" in
    let database = eq_iff cfg.database.host "" in
    let name = eq_iff cfg.database.db_name "" in
    let secret = eq_iff cfg.jwt.secret "" in
    elim (Option-cases (check_services 0 cfg.services)) [
      | inl none_ ↦ (
        λ e. ground (arith, e, port, host, database, name, secret, none_, to none_),
        λ (h, same). ground (arith, h, same, port, host, database, name, secret, none_),
      )
      | inr (f, some_) ↦ (
        λ e. absurd (ground (arith, e, some_)),
        λ ((a, b, c, d, n, usable, k), same). absurd (ground (arith, some_, from usable)),
      )
    ]

-- What is read and parsed comes out as it validates.
loaded :
    (read_file : String → Result String String) (unmarshal : String → Result String Config)
    (env : String → String) (path file : String) (raw cfg : Config)
    → read_file path ≡ ok file
    → unmarshal file ≡ ok raw
    → load read_file unmarshal env path ≡ ok cfg
    → validate (apply_env_overrides env raw) ≡ ok cfg
unfolding load
loaded read_file unmarshal env path file raw cfg r u e =
    elim (Result-cases (validate (apply_env_overrides env raw))) [
      | inl (f, v) ↦ absurd (ground (arith, r, u, v, e))
      | inr (cfg', v) ↦ ground (arith, r, u, v, e)
    ]

loads :
    (read_file : String → Result String String) (unmarshal : String → Result String Config)
    (env : String → String) (path file : String) (raw cfg : Config)
    → read_file path ≡ ok file
    → unmarshal file ≡ ok raw
    → validate (apply_env_overrides env raw) ≡ ok cfg
    → load read_file unmarshal env path ≡ ok cfg
unfolding load
loads read_file unmarshal env path file raw cfg r u v = ground (arith, r, u, v)

expiry_secret :
    (env : String → String) (raw cfg : Config)
    → cfg ≡ with_expiry (apply_env_overrides env raw)
    → (pos 0 <ℤ cfg.jwt.expiry_hours) × (env "JWT_SECRET" ≢ "" → cfg.jwt.secret ≡ env "JWT_SECRET")
unfolding with_expiry apply_env_overrides override
expiry_secret env raw cfg e = ground (arith, e, eq_iff (env "JWT_SECRET") "")

-- `Load` succeeds exactly if the file is read and parsed and the environment makes it complete. The
-- secret is the environment's if it sets one, and tokens get a positive lifetime.
pub load_iff :
    (read_file : String → Result String String) (unmarshal : String → Result String Config)
    (env : String → String) (path : String) (cfg : Config)
    → ((load read_file unmarshal env path ≡ ok cfg) ↔ (
        (file : String) × (raw : Config) × (read_file path ≡ ok file)
        × (unmarshal file ≡ ok raw)
        × IsComplete (apply_env_overrides env raw)
        × (cfg ≡ with_expiry (apply_env_overrides env raw))))
      × (load read_file unmarshal env path ≡ ok cfg
          → (pos 0 <ℤ cfg.jwt.expiry_hours)
            × (env "JWT_SECRET" ≢ "" → cfg.jwt.secret ≡ env "JWT_SECRET"))
unfolding load
load_iff read_file unmarshal env path cfg = elim (Result-cases (read_file path)) [
  | inl (f, r) ↦ (
    (
      λ e. absurd (ground (arith, r, e)),
      λ (file, raw, q, v, c, same). absurd (ground (arith, r, q)),
    ),
    λ e. absurd (ground (arith, r, e)),
  )
  | inr (file, r) ↦ elim (Result-cases (unmarshal file)) [
    | inl (f, u) ↦ (
      (
        λ e. absurd (ground (arith, r, u, e)),
        λ (file', raw, q, v, c, same). absurd (ground (arith, r, u, q, v)),
      ),
      λ e. absurd (ground (arith, r, u, e)),
    )
    | inr (raw, u) ↦
        let full = apply_env_overrides env raw in
        let valid = λ (e : load read_file unmarshal env path ≡ ok cfg).
          (validate_iff full cfg).0 (loaded read_file unmarshal env path file raw cfg r u e) in
        (
          (
            λ e. (file, raw, r, u, (valid e).0, (valid e).1),
            λ (file', raw', q, v, complete, same).
                loads read_file unmarshal env path file' raw' cfg q v
                  ((validate_iff (apply_env_overrides env raw') cfg).1 (complete, same)),
          ),
          λ e. expiry_secret env raw cfg (valid e).1,
        )
  ]
]
