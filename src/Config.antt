-- ===== src/Config.antt =====
-- internal/infrastructure/config/config.go: the settings, read from the environment and checked. An
-- int, an int64 and a duration in nanoseconds are integers. The errors that errors.Join puts
-- together are a list, with those of an inner join in their place; none is nil.
pub mod Validation
pub mod Load
mod Tests
use payment_processing.Prelude.{
  ◌++◌, Bool, true, false, not, ◌&&◌, ◌||◌, List, [], ◌∷◌, Bytes, codes, eq_bytes, trim_space,
  if◌then◌else◌,
}
use payment_processing.Prelude.Int.{ℤ, pos, leb_ℤ, ltb_ℤ}

pub record HttpConfig : Type 0 where
  pub port : Bytes
  pub read_header_timeout : ℤ
  pub read_timeout : ℤ
  pub write_timeout : ℤ
  pub idle_timeout : ℤ
  pub shutdown_timeout : ℤ

pub record JwtConfig : Type 0 where
  pub access_secret : Bytes
  pub refresh_secret : Bytes
  pub access_ttl : ℤ
  pub refresh_ttl : ℤ
  pub issuer : Bytes

pub record PostgresConfig : Type 0 where
  pub host : Bytes
  pub port : Bytes
  pub dbname : Bytes
  pub user : Bytes
  pub password : Bytes
  pub sslmode : Bytes
  pub max_conns : ℤ
  pub max_idle_conns : ℤ
  pub conn_max_lifetime : ℤ
  pub conn_max_idle_time : ℤ

-- The three limits of RedisConfig are never set: those of RateLimitConfig are used.
pub record RedisConfig : Type 0 where
  pub host : Bytes
  pub port : Bytes
  pub user : Bytes
  pub password : Bytes
  pub db : ℤ
  pub rate_limit_min : ℤ
  pub rate_limit_hour : ℤ
  pub rate_limit_day : ℤ

pub record RateLimitConfig : Type 0 where
  pub per_minute : ℤ
  pub per_hour : ℤ
  pub per_day : ℤ

pub record Config : Type 0 where
  pub environment : Bytes
  pub log_level : Bytes
  pub http : HttpConfig
  pub postgres : PostgresConfig
  pub redis : RedisConfig
  pub jwt : JwtConfig
  pub ratelimit : RateLimitConfig

abbrev pub environments : List Bytes
environments = codes "development" ∷ codes "staging" ∷ codes "production" ∷ []

abbrev pub log_levels : List Bytes
log_levels = codes "debug" ∷ codes "info" ∷ codes "warn" ∷ codes "error" ∷ []

-- The modes that production refuses, and all modes.
abbrev pub weak_ssl_modes : List Bytes
weak_ssl_modes = codes "disable" ∷ codes "allow" ∷ codes "prefer" ∷ []

abbrev pub ssl_modes : List Bytes
ssl_modes =
    codes "disable"
    ∷ codes "allow"
    ∷ codes "prefer"
    ∷ codes "require"
    ∷ codes "verify-ca"
    ∷ codes "verify-full"
    ∷ []

-- One constructor for each message.
pub data ConfigError : Type 0 where
  bad_environment bad_log_level bad_ssl_mode weak_ssl_mode : Bytes → ConfigError
  missing : Bytes → ConfigError
  negative_redis_db empty_secret same_secrets access_ttl_not_less timeout_not_positive : ConfigError
  limit_not_positive limits_not_rising no_redis_password : ConfigError
  max_conns_not_positive bad_max_idle_conns conn_time_not_positive : ConfigError
  -- The .env file is there and cannot be read.
  dotenv_failed : ConfigError

unfoldable pub one_of : Bytes → List Bytes → Bool
one_of value [] = false
one_of value (a ∷ allowed) = eq_bytes value a || one_of value allowed

abbrev pub is_blank : Bytes → Bool
is_blank value = eq_bytes (trim_space value) []

-- One after another, the errors of the checks that have failed.
abbrev pub reports : List (Bool × ConfigError) → List ConfigError
reports [] = []
reports ((failed, e) ∷ checks) = if failed then e ∷ reports checks else reports checks

abbrev pub required : Bytes → Bytes → Bool × ConfigError
required key value = (is_blank value, missing key)

abbrev pub not_positive : ℤ → Bool
not_positive z = leb_ℤ z (pos 0)

abbrev pub postgres_checks : PostgresConfig → List (Bool × ConfigError)
postgres_checks c =
    required (codes "POSTGRES_HOST") c.host
    ∷ required (codes "POSTGRES_PORT") c.port
    ∷ required (codes "POSTGRES_DB") c.dbname
    ∷ required (codes "POSTGRES_USER") c.user
    ∷ required (codes "POSTGRES_PASSWORD") c.password
    ∷ (not (one_of c.sslmode ssl_modes), bad_ssl_mode c.sslmode)
    ∷ (not_positive c.max_conns, max_conns_not_positive)
    ∷ (ltb_ℤ c.max_idle_conns (pos 0) || ltb_ℤ c.max_conns c.max_idle_conns, bad_max_idle_conns)
    ∷ (
      not_positive c.conn_max_lifetime || not_positive c.conn_max_idle_time,
      conn_time_not_positive,
    )
    ∷ []

-- PostgresConfig.Validate.
unfoldable pub validate_postgres : PostgresConfig → List ConfigError
unfolding one_of
validate_postgres c = reports (postgres_checks c)

abbrev pub production : Bytes
production = codes "production"

abbrev pub checks_before : Config → List (Bool × ConfigError)
checks_before c =
    (not (one_of c.environment environments), bad_environment c.environment)
    ∷ (not (one_of c.log_level log_levels), bad_log_level c.log_level)
    ∷ []

abbrev pub checks_after : Config → List (Bool × ConfigError)
checks_after c =
    required (codes "REDIS_HOST") c.redis.host
    ∷ required (codes "REDIS_PORT") c.redis.port
    ∷ (ltb_ℤ c.redis.db (pos 0), negative_redis_db)
    ∷ (eq_bytes c.jwt.access_secret [] || eq_bytes c.jwt.refresh_secret [], empty_secret)
    ∷ (
      eq_bytes c.jwt.access_secret c.jwt.refresh_secret && not (eq_bytes c.jwt.access_secret []),
      same_secrets,
    )
    ∷ (leb_ℤ c.jwt.refresh_ttl c.jwt.access_ttl, access_ttl_not_less)
    ∷ (
      not_positive c.http.read_header_timeout
          || not_positive c.http.read_timeout
          || not_positive c.http.write_timeout
          || not_positive c.http.idle_timeout
          || not_positive c.http.shutdown_timeout,
      timeout_not_positive,
    )
    ∷ (
      not_positive c.ratelimit.per_minute
          || not_positive c.ratelimit.per_hour
          || not_positive c.ratelimit.per_day,
      limit_not_positive,
    )
    ∷ (
      ltb_ℤ c.ratelimit.per_hour c.ratelimit.per_minute
          || ltb_ℤ c.ratelimit.per_day c.ratelimit.per_hour,
      limits_not_rising,
    )
    ∷ (
      eq_bytes c.environment production && one_of c.postgres.sslmode weak_ssl_modes,
      weak_ssl_mode c.postgres.sslmode,
    )
    ∷ (eq_bytes c.environment production && eq_bytes c.redis.password [], no_redis_password)
    ∷ []

-- Config.Validate.
unfoldable pub validate : Config → List ConfigError
unfolding one_of validate_postgres
validate c = reports (checks_before c) ++ (validate_postgres c.postgres ++ reports (checks_after c))
