-- ===== src/Config/Load/Checked.antt =====
-- config.go, `Load`: what it accepts.
use payment_processing.Prelude.{
  ◌≡◌, ap, ◌≢◌, refl, sym, subst, ◌∙◌, inl, inr, none, List, [], ◌∷◌, Bytes, codes, ok, err, Result,
  trim_space, arith,
}
use payment_processing.Prelude.Int.{ℤ, pos, negsuc, ◌≤ℤ◌}
use payment_processing.Decimal.Parse.{parse_int, NumError}
use payment_processing.Config.{Config, ConfigError}
use payment_processing.Config.Validation.{IsValid, IsPositive, Among, validate-IsValid_iff}
use payment_processing.Config.Load.{
  Env, Platform, get_env_as_int, get_env_as_duration, load, load_config, load_dot_env, load_from,
  if_valid, seconds, minutes, hours, or_default, int_or_malformed, duration_or_malformed,
  load_postgres_config,
}

if_valid-ok :
    {A : Type 0} (c d : A) (es : List ConfigError) → if_valid c es ≡ ok d → (d ≡ c) × (es ≡ [])
if_valid-ok c d [] h = (cc, refl)
if_valid-ok c d (e ∷ es) h = cc

-- The settings are those of the environment.
load_from-ok :
    (p : Platform) (r : Result (List ConfigError) Env) (c : Config)
    → load_from p r ≡ ok c
    → (env : Env) × (r ≡ ok env) × (c ≡ load_config p env) × IsValid c
load_from-ok p (err es) c h = cc
load_from-ok p (ok env) c h =
    let (same, valid) = if_valid-ok (load_config p env) c _ h in
    (env, refl, same, (validate-IsValid_iff c).0 (rw same valid))

-- The variables with a number, and those with a duration, whose value Validate looks at by itself:
-- all but the lifetimes of the two tokens, which it compares.
abbrev pub checked_ints : List Bytes
checked_ints =
    codes "REDIS_DB"
    ∷ codes "POSTGRES_MAX_CONNS"
    ∷ codes "POSTGRES_MAX_IDLE_CONNS"
    ∷ codes "RATE_LIMIT_PER_MINUTE"
    ∷ codes "RATE_LIMIT_PER_HOUR"
    ∷ codes "RATE_LIMIT_PER_DAY"
    ∷ []

abbrev pub checked_durations : List Bytes
checked_durations =
    codes "HTTP_READ_HEADER_TIMEOUT"
    ∷ codes "HTTP_READ_TIMEOUT"
    ∷ codes "HTTP_WRITE_TIMEOUT"
    ∷ codes "HTTP_IDLE_TIMEOUT"
    ∷ codes "HTTP_SHUTDOWN_TIMEOUT"
    ∷ codes "POSTGRES_CONN_MAX_LIFETIME"
    ∷ codes "POSTGRES_CONN_MAX_IDLE_TIME"
    ∷ []

-- A variable with a text that is not what it must be.
pub data Malformed (p : Platform) (env : Env) : Type 0 where
  int :
      (key : Bytes) (e : NumError)
      → Among key checked_ints
      → trim_space (env key) ≢ []
      → parse_int 64 (trim_space (env key)) ≡ err e
      → Malformed p env
  duration :
      (key : Bytes)
      → Among key checked_durations
      → trim_space (env key) ≢ []
      → p.parse_duration (trim_space (env key)) ≡ none
      → Malformed p env
  -- -1 is refused for the lifetime of refresh tokens unless that of access tokens is less.
  refresh_lifetime :
      trim_space (env (codes "REFRESH_TOKEN_TTL")) ≢ []
      → p.parse_duration (trim_space (env (codes "REFRESH_TOKEN_TTL"))) ≡ none
      → negsuc 0 ≤ℤ get_env_as_duration p env (codes "ACCESS_TOKEN_TTL") (minutes 15)
      → Malformed p env

pub default-unused : {A : Type 0} (raw : Bytes) (d r : A) → raw ≢ [] → or_default raw d r ≡ r
default-unused [] d r h = absurd (h refl)
default-unused (c ∷ raw) d r h = refl

below_zero : {z : ℤ} → z ≡ negsuc 0 → ¬ (pos 0 ≤ℤ z)
below_zero h k = ground arith

not_above : {z : ℤ} → z ≡ negsuc 0 → ¬ IsPositive z
not_above h k = ground arith

not_above_next : (a : ℤ) {b : ℤ} → b ≡ negsuc 0 → IsPositive a → ¬ (a ≤ℤ b)
not_above_next a h k l = ground arith

not_above_last : (a b : ℤ) {c : ℤ} → c ≡ negsuc 0 → IsPositive a → a ≤ℤ b → ¬ (b ≤ℤ c)
not_above_last a b h k l m = ground arith

module _ (p : Platform) where
  malformed_int :
      (env : Env) (key : Bytes) (d : ℤ) (e : NumError)
      → trim_space (env key) ≢ []
      → parse_int 64 (trim_space (env key)) ≡ err e
      → get_env_as_int env key d ≡ negsuc 0
  unfolding get_env_as_int
  malformed_int env key d e h k =
      default-unused (trim_space (env key)) d _ h ∙ ap int_or_malformed k

  malformed_duration :
      (env : Env) (key : Bytes) (d : ℤ)
      → trim_space (env key) ≢ []
      → p.parse_duration (trim_space (env key)) ≡ none
      → get_env_as_duration p env key d ≡ negsuc 0
  unfolding get_env_as_duration
  malformed_duration env key d h k =
      default-unused (trim_space (env key)) d _ h ∙ ap duration_or_malformed k

  -- Validate refuses -1 for each of them.
  int_refused :
      (env : Env)
      → IsValid (load_config p env)
      → (key : Bytes) → Among key checked_ints
      → ¬ ((d : ℤ) → get_env_as_int env key d ≡ negsuc 0)
  unfolding load_config load_postgres_config
  int_refused env v key (inl q) bad =
      below_zero (ap (λ k. get_env_as_int env k (pos 0)) (sym q) ∙ bad (pos 0)) v.redis_db
  int_refused env v key (inr (inl q)) bad =
      not_above (ap (λ k. get_env_as_int env k (pos 10)) (sym q) ∙ bad (pos 10))
        v.postgres.max_conns
  int_refused env v key (inr (inr (inl q))) bad =
      below_zero (ap (λ k. get_env_as_int env k (pos 5)) (sym q) ∙ bad (pos 5))
        v.postgres.idle_not_negative
  int_refused env v key (inr (inr (inr (inl q)))) bad =
      not_above (ap (λ k. get_env_as_int env k (pos 60)) (sym q) ∙ bad (pos 60)) v.per_minute
  int_refused env v key (inr (inr (inr (inr (inl q))))) bad =
      not_above_next _ (ap (λ k. get_env_as_int env k (pos 1000)) (sym q) ∙ bad (pos 1000))
        v.per_minute v.minute_hour
  int_refused env v key (inr (inr (inr (inr (inr (inl q)))))) bad =
      not_above_last _ _ (ap (λ k. get_env_as_int env k (pos 10000)) (sym q) ∙ bad (pos 10000))
        v.per_minute v.minute_hour v.hour_day
  int_refused env v key (inr (inr (inr (inr (inr (inr absent)))))) bad = absent

  duration_refused :
      (env : Env)
      → IsValid (load_config p env)
      → (key : Bytes) → Among key checked_durations
      → ¬ ((d : ℤ) → get_env_as_duration p env key d ≡ negsuc 0)
  unfolding load_config load_postgres_config
  duration_refused env v key (inl q) bad =
      not_above (ap (λ k. get_env_as_duration p env k (seconds 5)) (sym q) ∙ bad (seconds 5))
        v.read_header_timeout
  duration_refused env v key (inr (inl q)) bad =
      not_above (ap (λ k. get_env_as_duration p env k (seconds 10)) (sym q) ∙ bad (seconds 10))
        v.read_timeout
  duration_refused env v key (inr (inr (inl q))) bad =
      not_above (ap (λ k. get_env_as_duration p env k (seconds 15)) (sym q) ∙ bad (seconds 15))
        v.write_timeout
  duration_refused env v key (inr (inr (inr (inl q)))) bad =
      not_above (ap (λ k. get_env_as_duration p env k (seconds 60)) (sym q) ∙ bad (seconds 60))
        v.idle_timeout
  duration_refused env v key (inr (inr (inr (inr (inl q))))) bad =
      not_above (ap (λ k. get_env_as_duration p env k (seconds 10)) (sym q) ∙ bad (seconds 10))
        v.shutdown_timeout
  duration_refused env v key (inr (inr (inr (inr (inr (inl q)))))) bad =
      not_above (ap (λ k. get_env_as_duration p env k (minutes 30)) (sym q) ∙ bad (minutes 30))
        v.postgres.conn_max_lifetime
  duration_refused env v key (inr (inr (inr (inr (inr (inr (inl q))))))) bad =
      not_above (ap (λ k. get_env_as_duration p env k (minutes 5)) (sym q) ∙ bad (minutes 5))
        v.postgres.conn_max_idle_time
  duration_refused env v key (inr (inr (inr (inr (inr (inr (inr absent))))))) bad = absent

  refresh_refused :
      (env : Env)
      → IsValid (load_config p env)
      → negsuc 0 ≤ℤ get_env_as_duration p env (codes "ACCESS_TOKEN_TTL") (minutes 15)
      → get_env_as_duration p env (codes "REFRESH_TOKEN_TTL") (hours 720) ≢ negsuc 0
  unfolding load_config
  refresh_refused env v access bad = v.ttls (
      subst (λ z. z ≤ℤ get_env_as_duration p env (codes "ACCESS_TOKEN_TTL") (minutes 15)) (sym bad)
        access)

  Malformed-IsValid : (env : Env) → Malformed p env → ¬ IsValid (load_config p env)
  Malformed-IsValid env (int key e checked h k) v =
      int_refused env v key checked (λ d. malformed_int env key d e h k)
  Malformed-IsValid env (duration key checked h k) v =
      duration_refused env v key checked (λ d. malformed_duration env key d h k)
  Malformed-IsValid env (refresh_lifetime h k access) v =
      refresh_refused env v access
        (malformed_duration env (codes "REFRESH_TOKEN_TTL") (hours 720) h k)

  pub load-IsValid :
      (env : Env) (c : Config)
      → load p env ≡ ok c
      → (env' : Env) × (load_dot_env p env ≡ ok env') × (c ≡ load_config p env') × IsValid c
  unfolding load
  load-IsValid env c h = load_from-ok p (load_dot_env p env) c h

  -- Load never succeeds where one of its six numbers, of the five timeouts of HTTP or of the
  -- two lifetimes of connections, in the environment after the .env file, is there and
  -- malformed; nor where REFRESH_TOKEN_TTL is, unless access tokens live for less than -1 ns.
  -- ACCESS_TOKEN_TTL is not among them.
  pub load-Malformed :
      (env env' : Env) (c : Config)
      → load_dot_env p env ≡ ok env'
      → Malformed p env'
      → load p env ≢ ok c
  load-Malformed env env' c read bad h =
      let (env'', read', same, valid) = load-IsValid env c h in
      let one : env'' ≡ env' = cc in
      Malformed-IsValid env' bad (subst IsValid (same ∙ ap (load_config p) one) valid)
