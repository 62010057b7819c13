-- ===== src/Config/Load.antt =====
-- config.go, `Load` and `LoadPostgres`: the settings as they are read from the environment.
-- `strconv.ParseInt` is that of Decimal/Parse.
pub mod Checked
pub mod Defaults
use payment_processing.Prelude.{
  ℕ, ◌*◌, Option, none, some, Bool, true, false, List, [], ◌∷◌, ◌++◌, Bytes, codes, eq_bytes, ok,
  err, Result, trim_space, if◌then◌else◌, exists_row, ◌==◌,
}
use payment_processing.Prelude.Int.{ℤ, pos, negsuc}
use payment_processing.Decimal.Parse.{NumError, parse_int}
use payment_processing.Config.{
  Config, HttpConfig, JwtConfig, PostgresConfig, RedisConfig, RateLimitConfig, ConfigError,
  dotenv_failed, validate, validate_postgres,
}

-- os.Getenv: a variable that is not set is empty.
abbrev pub Env : Type 0
Env = Bytes → Bytes

-- What godotenv.Load does: it adds the variables of the .env file, or does not find the file, or
-- fails to read it.
pub data DotEnv : Type 0 where
  loaded : Env → DotEnv
  not_exist unreadable : DotEnv

-- time.ParseDuration, in nanoseconds, and godotenv.Load.
pub record Platform : Type 0 where
  pub parse_duration : Bytes → Option ℤ
  pub load_dotenv : Env → DotEnv

abbrev pub seconds : ℕ → ℤ
seconds n = pos (n * 1000000000)

abbrev pub minutes : ℕ → ℤ
minutes n = seconds (n * 60)

abbrev pub hours : ℕ → ℤ
hours n = minutes (n * 60)

-- `raw` is trimmed, `read` is what it stands for.
abbrev pub or_default : {A : Type 0} → Bytes → A → A → A
or_default [] default read = default
or_default (c ∷ raw) default read = read

abbrev pub int_or_malformed : Result NumError ℤ → ℤ
int_or_malformed (ok i) = i
int_or_malformed (err e) = negsuc 0

abbrev pub duration_or_malformed : Option ℤ → ℤ
duration_or_malformed (some d) = d
duration_or_malformed none = negsuc 0

unfoldable pub get_env : Env → Bytes → Bytes → Bytes
get_env env key default = or_default (trim_space (env key)) default (trim_space (env key))

unfoldable pub get_env_as_int : Env → Bytes → ℤ → ℤ
get_env_as_int env key default =
    or_default (trim_space (env key)) default
      (int_or_malformed (parse_int 64 (trim_space (env key))))

-- net.JoinHostPort: a host with a colon or a percent sign stands in brackets.
unfoldable pub join_host_port : Bytes → Bytes → Bytes
join_host_port host port =
    if exists_row (λ c. c == b':') host
    then codes "[" ++ (host ++ (codes "]:" ++ port))
    else if exists_row (λ c. c == b'%') host
    then codes "[" ++ (host ++ (codes "]:" ++ port))
    else host ++ (codes ":" ++ port)

-- RedisConfig.Addr.
unfoldable pub addr : RedisConfig → Bytes
unfolding join_host_port
addr c = join_host_port c.host c.port

-- loadDotEnv: the environment that is then read.
abbrev pub dotenv_outcome : Env → DotEnv → Result (List ConfigError) Env
dotenv_outcome env (loaded env') = ok env'
dotenv_outcome env not_exist = ok env
dotenv_outcome env unreadable = err (dotenv_failed ∷ [])

-- The settings, if Validate has no error to return.
abbrev pub if_valid : {A : Type 0} → A → List ConfigError → Result (List ConfigError) A
if_valid c [] = ok c
if_valid c (e ∷ es) = err (e ∷ es)

module _ (p : Platform) where
  unfoldable pub get_env_as_duration : Env → Bytes → ℤ → ℤ
  get_env_as_duration env key default =
      or_default (trim_space (env key)) default
        (duration_or_malformed (p.parse_duration (trim_space (env key))))

  unfoldable pub load_postgres_config : Env → PostgresConfig
  unfolding get_env get_env_as_int get_env_as_duration
  load_postgres_config env = record {
    host = get_env env (codes "POSTGRES_HOST") (codes "localhost");
    port = get_env env (codes "POSTGRES_PORT") (codes "5432");
    dbname = get_env env (codes "POSTGRES_DB") [];
    user = get_env env (codes "POSTGRES_USER") [];
    password = get_env env (codes "POSTGRES_PASSWORD") [];
    sslmode = get_env env (codes "POSTGRES_SSLMODE") (codes "require");
    max_conns = get_env_as_int env (codes "POSTGRES_MAX_CONNS") (pos 10);
    max_idle_conns = get_env_as_int env (codes "POSTGRES_MAX_IDLE_CONNS") (pos 5);
    conn_max_lifetime = get_env_as_duration env (codes "POSTGRES_CONN_MAX_LIFETIME") (minutes 30);
    conn_max_idle_time = get_env_as_duration env (codes "POSTGRES_CONN_MAX_IDLE_TIME") (minutes 5);
  }

  unfoldable pub load_config : Env → Config
  unfolding get_env get_env_as_int get_env_as_duration load_postgres_config
  load_config env = record {
    environment = get_env env (codes "ENVIRONMENT") (codes "development");
    log_level = get_env env (codes "LOG_LEVEL") (codes "info");
    http = record {
      port = get_env env (codes "HTTP_PORT") (codes "8080");
      read_header_timeout = get_env_as_duration env (codes "HTTP_READ_HEADER_TIMEOUT") (seconds 5);
      read_timeout = get_env_as_duration env (codes "HTTP_READ_TIMEOUT") (seconds 10);
      write_timeout = get_env_as_duration env (codes "HTTP_WRITE_TIMEOUT") (seconds 15);
      idle_timeout = get_env_as_duration env (codes "HTTP_IDLE_TIMEOUT") (seconds 60);
      shutdown_timeout = get_env_as_duration env (codes "HTTP_SHUTDOWN_TIMEOUT") (seconds 10);
    };
    postgres = load_postgres_config env;
    redis = record {
      host = get_env env (codes "REDIS_HOST") (codes "localhost");
      port = get_env env (codes "REDIS_PORT") (codes "6379");
      user = get_env env (codes "REDIS_USER") [];
      password = get_env env (codes "REDIS_PASSWORD") [];
      db = get_env_as_int env (codes "REDIS_DB") (pos 0);
      rate_limit_min = pos 0;
      rate_limit_hour = pos 0;
      rate_limit_day = pos 0;
    };
    jwt = record {
      access_secret = get_env env (codes "ACCESS_TOKEN_SECRET") [];
      refresh_secret = get_env env (codes "REFRESH_TOKEN_SECRET") [];
      access_ttl = get_env_as_duration env (codes "ACCESS_TOKEN_TTL") (minutes 15);
      refresh_ttl = get_env_as_duration env (codes "REFRESH_TOKEN_TTL") (hours 720);
      issuer = get_env env (codes "ISSUER") (codes "my-app");
    };
    ratelimit = record {
      per_minute = get_env_as_int env (codes "RATE_LIMIT_PER_MINUTE") (pos 60);
      per_hour = get_env_as_int env (codes "RATE_LIMIT_PER_HOUR") (pos 1000);
      per_day = get_env_as_int env (codes "RATE_LIMIT_PER_DAY") (pos 10000);
    };
  }

  unfoldable pub load_dot_env : Env → Result (List ConfigError) Env
  load_dot_env env = dotenv_outcome env (p.load_dotenv env)

  abbrev pub load_from : Result (List ConfigError) Env → Result (List ConfigError) Config
  load_from (ok env) = if_valid (load_config env) (validate (load_config env))
  load_from (err es) = err es

  unfoldable pub load : Env → Result (List ConfigError) Config
  unfolding load_dot_env load_config validate
  load env = load_from (load_dot_env env)

  abbrev load_postgres_from :
      Result (List ConfigError) Env → Result (List ConfigError) PostgresConfig
  load_postgres_from (ok env) =
      if_valid (load_postgres_config env) (validate_postgres (load_postgres_config env))
  load_postgres_from (err es) = err es

  unfoldable pub load_postgres : Env → Result (List ConfigError) PostgresConfig
  unfolding load_dot_env load_postgres_config validate_postgres
  load_postgres env = load_postgres_from (load_dot_env env)
