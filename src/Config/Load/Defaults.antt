-- ===== src/Config/Load/Defaults.antt =====
-- config.go, `Load`: the defaults, and the time to live of access tokens.
use payment_processing.Prelude.{
  ◌≡◌, ◌≢◌, refl, sym, subst, ap, ◌∙◌, inl, inr, none, List, [], ◌∷◌, Bytes, codes, eq_bytes, ok,
  Result, trim_space, trim_left, trim_right, if◌then◌else◌, arith,
}
use payment_processing.Prelude.Int.{ℤ, pos, negsuc, ◌≤ℤ◌}
use payment_processing.Config.{Config, ConfigError}
use payment_processing.Config.Validation.{
  IsValid, IsPositive, IsSpaces, validate-IsValid_iff, trim_space_iff, trim_space-IsSpaces,
}
use payment_processing.Config.Load.{
  Env, not_exist, Platform, or_default, minutes, duration_or_malformed, get_env, get_env_as_int,
  get_env_as_duration, load, load_config, load_dot_env, load_from, load_postgres_config,
}
use payment_processing.Config.Load.Checked.{load-IsValid, default-unused}

-- An environment with another text for one variable.
abbrev pub set_env : Bytes → Bytes → Env → Env
set_env key text env k = if eq_bytes k key then text else env k

abbrev pub access_ttl_key : Bytes
access_ttl_key = codes "ACCESS_TOKEN_TTL"

-- Valid settings with another time to live of access tokens that is less than that of refresh
-- tokens.
abbrev pub with_access_ttl : ℤ → Config → Config
with_access_ttl d c = record c { jwt = record c.jwt { access_ttl = d } }

other_ttl-IsValid :
    (d : ℤ) (c : Config) → IsValid c → d ≤ℤ c.jwt.access_ttl → IsValid (with_access_ttl d c)
other_ttl-IsValid d c v h = record {
  environment = v.environment;
  log_level = v.log_level;
  postgres = v.postgres;
  redis_host = v.redis_host;
  redis_port = v.redis_port;
  redis_db = v.redis_db;
  access_secret = v.access_secret;
  refresh_secret = v.refresh_secret;
  secrets_differ = v.secrets_differ;
  ttls = λ k. v.ttls (omega arith);
  read_header_timeout = v.read_header_timeout;
  read_timeout = v.read_timeout;
  write_timeout = v.write_timeout;
  idle_timeout = v.idle_timeout;
  shutdown_timeout = v.shutdown_timeout;
  per_minute = v.per_minute;
  minute_hour = v.minute_hour;
  hour_day = v.hour_day;
  production_ssl = v.production_ssl;
  production_password = v.production_password;
}

malformed_ttl :
    (p : Platform) (text : Bytes) (env : Env)
    → trim_space text ≢ []
    → p.parse_duration (trim_space text) ≡ none
    → load_config p (set_env access_ttl_key text env)
      ≡ with_access_ttl (negsuc 0) (load_config p env)
unfolding load_config load_postgres_config get_env get_env_as_int get_env_as_duration eq_bytes
malformed_ttl p text env h k =
    ap (λ d. with_access_ttl d (load_config p env))
      (default-unused (trim_space text) (minutes 15) _ h ∙ ap duration_or_malformed k)

no_file_env :
    (p : Platform) (env : Env) → p.load_dotenv env ≡ not_exist → load_dot_env p env ≡ ok env
unfolding load_dot_env
no_file_env p env h = rw h refl

loaded_valid :
    (p : Platform) (env : Env) {r : Result (List ConfigError) Env}
    → r ≡ ok env
    → IsValid (load_config p env)
    → load_from p r ≡ ok (load_config p env)
loaded_valid p env h v = rw (h, (validate-IsValid_iff (load_config p env)).1 v) refl

-- Where Load accepts an environment, without a .env file, in which access tokens live for a
-- positive time, it accepts it too with a malformed ACCESS_TOKEN_TTL, and access tokens then
-- live for -1 ns.
pub load_access_ttl_malformed :
    (p : Platform) (env : Env) (text : Bytes) (c : Config)
    → ((env : Env) → p.load_dotenv env ≡ not_exist)
    → load p env ≡ ok c
    → IsPositive c.jwt.access_ttl
    → trim_space text ≢ []
    → p.parse_duration (trim_space text) ≡ none
    → load p (set_env access_ttl_key text env) ≡ ok (with_access_ttl (negsuc 0) c)
unfolding load
load_access_ttl_malformed p env text c no_file h positive full bad =
    let (env', read, same, valid) = load-IsValid p env c h in
    let alone = no_file_env p env (no_file env) in
    let here : env' ≡ env = cc in
    let malformed = malformed_ttl p text env full bad in
    let changed : load_config p (set_env access_ttl_key text env) ≡ with_access_ttl (negsuc 0) c =
      malformed ∙ ap (with_access_ttl (negsuc 0)) (sym (same ∙ ap (load_config p) here)) in
    loaded_valid p (set_env access_ttl_key text env)
      (no_file_env p (set_env access_ttl_key text env) (no_file (set_env access_ttl_key text env)))
      (subst IsValid (sym changed) (other_ttl-IsValid (negsuc 0) c valid (omega (arith, positive))))
    ∙ ap ok changed

-- The variables that have no default that is valid.
pub record Required : Type 0 where
  pub dbname : Bytes
  pub user : Bytes
  pub password : Bytes
  pub access_secret : Bytes
  pub refresh_secret : Bytes

-- An environment with these alone.
abbrev pub minimal_env : Required → Env
minimal_env r k =
    if eq_bytes k (codes "POSTGRES_DB")
    then r.dbname
    else if eq_bytes k (codes "POSTGRES_USER")
    then r.user
    else if eq_bytes k (codes "POSTGRES_PASSWORD")
    then r.password
    else if eq_bytes k (codes "ACCESS_TOKEN_SECRET")
    then r.access_secret
    else if eq_bytes k (codes "REFRESH_TOKEN_SECRET")
    then r.refresh_secret
    else []

-- The settings that the defaults make of it.
abbrev pub minimal_config : Required → Config
minimal_config r = record {
  environment = codes "development";
  log_level = codes "info";
  http = record {
    port = codes "8080";
    read_header_timeout = pos 5000000000;
    read_timeout = pos 10000000000;
    write_timeout = pos 15000000000;
    idle_timeout = pos 60000000000;
    shutdown_timeout = pos 10000000000;
  };
  postgres = record {
    host = codes "localhost";
    port = codes "5432";
    dbname = trim_space r.dbname;
    user = trim_space r.user;
    password = trim_space r.password;
    sslmode = codes "require";
    max_conns = pos 10;
    max_idle_conns = pos 5;
    conn_max_lifetime = pos 1800000000000;
    conn_max_idle_time = pos 300000000000;
  };
  redis = record {
    host = codes "localhost";
    port = codes "6379";
    user = [];
    password = [];
    db = pos 0;
    rate_limit_min = pos 0;
    rate_limit_hour = pos 0;
    rate_limit_day = pos 0;
  };
  jwt = record {
    access_secret = trim_space r.access_secret;
    refresh_secret = trim_space r.refresh_secret;
    access_ttl = pos 900000000000;
    refresh_ttl = pos 2592000000000000;
    issuer = codes "my-app";
  };
  ratelimit = record { per_minute = pos 60; per_hour = pos 1000; per_day = pos 10000 };
}

-- A text for each, and two secrets.
pub record IsGiven (r : Required) : Type 0 where
  pub dbname : ¬ IsSpaces r.dbname
  pub user : ¬ IsSpaces r.user
  pub password : ¬ IsSpaces r.password
  pub access_secret : ¬ IsSpaces r.access_secret
  pub refresh_secret : ¬ IsSpaces r.refresh_secret
  pub secrets_differ : trim_space r.access_secret ≢ trim_space r.refresh_secret

or_empty : (raw : Bytes) → or_default raw [] raw ≡ raw
or_empty [] = refl
or_empty (c ∷ raw) = refl

trimmed-IsSpaces : (v : Bytes) → ¬ IsSpaces v → ¬ IsSpaces (trim_space v)
trimmed-IsSpaces v h k = h (trim_space-IsSpaces v k)

minimal-IsValid : (r : Required) → IsGiven r → IsValid (minimal_config r)
minimal-IsValid r g = record {
  environment = inl refl;
  log_level = inr (inl refl);
  postgres = record {
    host = λ h. cc;
    port = λ h. cc;
    dbname = trimmed-IsSpaces r.dbname g.dbname;
    user = trimmed-IsSpaces r.user g.user;
    password = trimmed-IsSpaces r.password g.password;
    sslmode = inr (inr (inr (inl refl)));
    max_conns = omega arith;
    idle_not_negative = omega arith;
    idle_bounded = omega arith;
    conn_max_lifetime = omega arith;
    conn_max_idle_time = omega arith;
  };
  redis_host = λ h. cc;
  redis_port = λ h. cc;
  redis_db = omega arith;
  access_secret = λ h. g.access_secret ((trim_space_iff r.access_secret).0 h);
  refresh_secret = λ h. g.refresh_secret ((trim_space_iff r.refresh_secret).0 h);
  secrets_differ = g.secrets_differ;
  ttls = λ h. absurd (omega arith);
  read_header_timeout = omega arith;
  read_timeout = omega arith;
  write_timeout = omega arith;
  idle_timeout = omega arith;
  shutdown_timeout = omega arith;
  per_minute = omega arith;
  minute_hour = omega arith;
  hour_day = omega arith;
  production_ssl = λ h. cc;
  production_password = λ h. cc;
}

minimal-load : (p : Platform) (r : Required) → load_config p (minimal_env r) ≡ minimal_config r
unfolding load_config load_postgres_config get_env get_env_as_int get_env_as_duration eq_bytes
    trim_space trim_left trim_right
minimal-load p r =
    rw
      (
        or_empty (trim_space r.dbname),
        or_empty (trim_space r.user),
        or_empty (trim_space r.password),
        or_empty (trim_space r.access_secret),
        or_empty (trim_space r.refresh_secret),
      )
      refl

-- With a database, its user and its password, and two different secrets, Load accepts an
-- environment of these alone, where there is no .env file, and takes the defaults for all else.
pub load_minimal :
    (p : Platform) (r : Required)
    → p.load_dotenv (minimal_env r) ≡ not_exist
    → IsGiven r
    → load p (minimal_env r) ≡ ok (minimal_config r)
unfolding load
load_minimal p r no_file given =
    loaded_valid p (minimal_env r) (no_file_env p (minimal_env r) no_file)
      (subst IsValid (sym (minimal-load p r)) (minimal-IsValid r given))
    ∙ ap ok (minimal-load p r)
