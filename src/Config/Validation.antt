-- ===== src/Config/Validation.antt =====
-- config.go, `Validate`: which settings are valid, said without the code's tests.
use payment_processing.Prelude.{
  trim_space, trim_left, trim_right, is_space, keep_space, All, ℕ, ◌≡◌, ◌≢◌, refl, ◌⊎◌, inl, inr,
  ◌↔◌, Bool, true, false, not, ◌&&◌, ◌||◌, List, [], ◌∷◌, ◌++◌, Bytes, eq_bytes, eq_bytes_iff,
  eq_bytes_ne, Bool-cases, arith,
}
use payment_processing.Prelude.Int.{ℤ, pos, ◌≤ℤ◌}
use payment_processing.Config.{
  Config, ConfigError, PostgresConfig, one_of, reports, postgres_checks, checks_before,
  checks_after, validate, validate_postgres, environments, log_levels, ssl_modes, weak_ssl_modes,
  production, is_blank,
}

abbrev pub Among : Bytes → List Bytes → Type 0
Among v [] = ⊥
Among v (a ∷ others) = (v ≡ a) ⊎ Among v others

abbrev pub IsSpaces : Bytes → Type 0
IsSpaces v = All (λ c. is_space c ≡ true) v

abbrev pub IsPositive : ℤ → Type 0
IsPositive z = pos 1 ≤ℤ z

pub record IsValidPostgres (c : PostgresConfig) : Type 0 where
  pub host : ¬ IsSpaces c.host
  pub port : ¬ IsSpaces c.port
  pub dbname : ¬ IsSpaces c.dbname
  pub user : ¬ IsSpaces c.user
  pub password : ¬ IsSpaces c.password
  pub sslmode : Among c.sslmode ssl_modes
  pub max_conns : IsPositive c.max_conns
  pub idle_not_negative : pos 0 ≤ℤ c.max_idle_conns
  pub idle_bounded : c.max_idle_conns ≤ℤ c.max_conns
  pub conn_max_lifetime : IsPositive c.conn_max_lifetime
  pub conn_max_idle_time : IsPositive c.conn_max_idle_time

pub record IsValid (c : Config) : Type 0 where
  pub environment : Among c.environment environments
  pub log_level : Among c.log_level log_levels
  pub postgres : IsValidPostgres c.postgres
  pub redis_host : ¬ IsSpaces c.redis.host
  pub redis_port : ¬ IsSpaces c.redis.port
  pub redis_db : pos 0 ≤ℤ c.redis.db
  pub access_secret : c.jwt.access_secret ≢ []
  pub refresh_secret : c.jwt.refresh_secret ≢ []
  pub secrets_differ : c.jwt.access_secret ≢ c.jwt.refresh_secret
  pub ttls : ¬ (c.jwt.refresh_ttl ≤ℤ c.jwt.access_ttl)
  pub read_header_timeout : IsPositive c.http.read_header_timeout
  pub read_timeout : IsPositive c.http.read_timeout
  pub write_timeout : IsPositive c.http.write_timeout
  pub idle_timeout : IsPositive c.http.idle_timeout
  pub shutdown_timeout : IsPositive c.http.shutdown_timeout
  pub per_minute : IsPositive c.ratelimit.per_minute
  pub minute_hour : c.ratelimit.per_minute ≤ℤ c.ratelimit.per_hour
  pub hour_day : c.ratelimit.per_hour ≤ℤ c.ratelimit.per_day
  pub production_ssl : c.environment ≡ production → ¬ Among c.postgres.sslmode weak_ssl_modes
  pub production_password : c.environment ≡ production → c.redis.password ≢ []

one_of_iff : (v : Bytes) (others : List Bytes) → (one_of v others ≡ true) ↔ Among v others
unfolding one_of
one_of_iff v [] = (λ h. cc, λ h. absurd h)
one_of_iff v (a ∷ others) = (
  λ h. elim (Bool-cases (eq_bytes v a)) [
    | inl same ↦ inl ((eq_bytes_iff v a).0 same)
    | inr other ↦ inr ((one_of_iff v others).0 (rw other at h))
  ],
  λ h. elim h [
    | inl same ↦ rw ((eq_bytes_iff v a).1 same) refl
    | inr later ↦ ground (arith, (one_of_iff v others).1 later)
  ],
)

keep_space_iff : (c : ℕ) (t : Bytes) → (keep_space c t ≡ []) ↔ ((is_space c ≡ true) × (t ≡ []))
keep_space_iff c [] = elim (Bool-cases (is_space c)) [
  | inl space ↦ (λ _. (space, refl), λ _. rw space refl)
  | inr other ↦ (λ h. cc (rw other at h), λ h. cc)
]
keep_space_iff c (d ∷ t) = (λ h. cc, λ h. cc)

-- A text is all spaces exactly when TrimSpace leaves nothing.
trim_right_iff : (v : Bytes) → (trim_right v ≡ []) ↔ IsSpaces v
unfolding trim_right
trim_right_iff [] = (λ _. tt, λ _. refl)
trim_right_iff (c ∷ v) =
    let split = keep_space_iff c (trim_right v) in
    (
      λ h. ((split.0 h).0, (trim_right_iff v).0 (split.0 h).1),
      λ h. split.1 (h.0, (trim_right_iff v).1 h.1),
    )

pub trim_space_iff : (v : Bytes) → (trim_space v ≡ []) ↔ IsSpaces v
unfolding trim_space trim_left
trim_space_iff [] = trim_right_iff []
trim_space_iff (c ∷ v) = elim (Bool-cases (is_space c)) [
  | inl space ↦
      (λ h. (space, (trim_space_iff v).0 (rw space at h)), λ h. rw space ((trim_space_iff v).1 h.1))
  | inr other ↦ (
    λ h. (trim_right_iff (c ∷ v)).0 (rw other at h),
    λ h. rw other ((trim_right_iff (c ∷ v)).1 h),
  )
]

keep_space-IsSpaces :
    (c : ℕ) (t : Bytes) → IsSpaces (keep_space c t) → (is_space c ≡ true) × IsSpaces t
keep_space-IsSpaces c [] h = elim (Bool-cases (is_space c)) [
  | inl space ↦ (space, tt)
  | inr other ↦ ((rw other at h).0, tt)
]
keep_space-IsSpaces c (d ∷ t) h = h

trim_right-IsSpaces : (v : Bytes) → IsSpaces (trim_right v) → IsSpaces v
unfolding trim_right
trim_right-IsSpaces [] h = tt
trim_right-IsSpaces (c ∷ v) h =
    let (space, rest) = keep_space-IsSpaces c (trim_right v) h in
    (space, trim_right-IsSpaces v rest)

pub trim_space-IsSpaces : (v : Bytes) → IsSpaces (trim_space v) → IsSpaces v
unfolding trim_space trim_left
trim_space-IsSpaces [] h = tt
trim_space-IsSpaces (c ∷ v) h = elim (Bool-cases (is_space c)) [
  | inl space ↦ (space, trim_space-IsSpaces v (rw space at h))
  | inr other ↦ trim_right-IsSpaces (c ∷ v) (rw other at h)
]

is_blank_iff : (v : Bytes) → (is_blank v ≡ false) ↔ (¬ IsSpaces v)
is_blank_iff v = (
  λ h spaces. cc ((eq_bytes_iff (trim_space v) []).1 ((trim_space_iff v).1 spaces)),
  λ h. elim (Bool-cases (is_blank v)) [
    | inl blank ↦ absurd (h ((trim_space_iff v).0 ((eq_bytes_iff (trim_space v) []).0 blank)))
    | inr fine ↦ fine
  ],
)

not_both : {b : Bool} → b ≡ true → b ≡ false → ⊥
not_both h k = cc

one_of_weak : (v : Bytes) → ¬ Among v weak_ssl_modes → one_of v weak_ssl_modes ≡ false
one_of_weak v h = elim (Bool-cases (one_of v weak_ssl_modes)) [
  | inl weak ↦ absurd (h ((one_of_iff v weak_ssl_modes).0 weak))
  | inr strong ↦ strong
]

infixr 4 ◌&◌
abbrev ◌&◌ : {A B : Type 0} → A → B → A × B
a & b = (a, b)

-- No check has failed.
abbrev AllPass : List (Bool × ConfigError) → Type 0
AllPass checks = All (λ c. c.0 ≡ false) checks

reports_iff : (checks : List (Bool × ConfigError)) → (reports checks ≡ []) ↔ AllPass checks
reports_iff [] = (λ _. tt, λ _. refl)
reports_iff ((true, e) ∷ checks) = (λ h. cc, λ h. cc)
reports_iff ((false, e) ∷ checks) =
    (λ h. (refl, (reports_iff checks).0 h), λ h. (reports_iff checks).1 h.1)

-- No error among those of two checks.
none_iff : (es fs : List ConfigError) → (es ++ fs ≡ []) ↔ ((es ≡ []) × (fs ≡ []))
none_iff [] fs = (λ h. (refl, h), λ h. h.1)
none_iff (e ∷ es) fs = (λ h. cc, λ h. cc)

one_of-Among : (v : Bytes) (allowed : List Bytes) → not (one_of v allowed) ≡ false → Among v allowed
one_of-Among v allowed h = (one_of_iff v allowed).0 (ground arith)

postgres_iff : (c : PostgresConfig) → (validate_postgres c ≡ []) ↔ IsValidPostgres c
unfolding validate_postgres
postgres_iff c = (
  λ h.
      let passed = (reports_iff (postgres_checks c)).0 h in
      let (host, (port, (dbname, (user, (password, (sslmode, (max, (idle, (times, _))))))))) =
        passed in
      record {
        host = (is_blank_iff c.host).0 host;
        port = (is_blank_iff c.port).0 port;
        dbname = (is_blank_iff c.dbname).0 dbname;
        user = (is_blank_iff c.user).0 user;
        password = (is_blank_iff c.password).0 password;
        sslmode = one_of-Among c.sslmode ssl_modes sslmode;
        max_conns = ground arith;
        idle_not_negative = ground arith;
        idle_bounded = ground arith;
        conn_max_lifetime = ground arith;
        conn_max_idle_time = ground arith;
      },
  λ v. (reports_iff (postgres_checks c)).1 (
      (is_blank_iff c.host).1 v.host
      & (is_blank_iff c.port).1 v.port
      & (is_blank_iff c.dbname).1 v.dbname
      & (is_blank_iff c.user).1 v.user
      & (is_blank_iff c.password).1 v.password
      & rw ((one_of_iff c.sslmode ssl_modes).1 v.sslmode) refl
      & ground (arith, v.max_conns)
      & ground (arith, v.idle_not_negative, v.idle_bounded)
      & ground (arith, v.conn_max_lifetime, v.conn_max_idle_time)
      & tt),
)

secrets_iff :
    (a r : Bytes)
    → ((eq_bytes a [] || eq_bytes r [] ≡ false) × (eq_bytes a r && not (eq_bytes a []) ≡ false))
      ↔ ((a ≢ []) × (r ≢ []) × (a ≢ r))
secrets_iff a r = (
  λ h.
      let known = h.0 in
      (
        λ q. ground (arith, (eq_bytes_iff a []).1 q, h.0),
        λ q. ground (arith, (eq_bytes_iff r []).1 q, h.0),
        λ q. ground (arith, (eq_bytes_iff a r).1 q, h.0, h.1),
      ),
  λ v. (
    ground (arith, eq_bytes_ne a [] v.0, eq_bytes_ne r [] v.1),
    ground (arith, eq_bytes_ne a r v.2),
  ),
)

production_iff :
    (environment : Bytes) (weak : Bool)
    → (eq_bytes environment production && weak ≡ false) ↔ (environment ≡ production → weak ≡ false)
production_iff environment weak = (
  λ h q. ground (arith, (eq_bytes_iff environment production).1 q),
  λ h. elim (Bool-cases (eq_bytes environment production)) [
    | inl same ↦ rw (h ((eq_bytes_iff environment production).0 same)) (ground arith)
    | inr other ↦ rw other refl
  ],
)

-- Validate accepts settings exactly if they are valid: known names, variables that are set, two
-- different secrets, an access token that lives for less time than a refresh token, positive
-- times and limits, limits that rise, and in production a strict SSL mode and a password of
-- Redis.
pub validate-IsValid_iff : (c : Config) → (validate c ≡ []) ↔ IsValid c
unfolding validate
validate-IsValid_iff c = (
  λ h.
      let (before, h1) = (none_iff (reports (checks_before c)) _).0 h in
      let (postgres, after) = (none_iff (validate_postgres c.postgres) _).0 h1 in
      let (environment, (log_level, _)) = (reports_iff (checks_before c)).0 before in
      let (host, (port, (db, (secrets, (same, (ttls, (timeouts, (limits, (order, last))))))))) =
        (reports_iff (checks_after c)).0 after in
      let good_secrets = (secrets_iff c.jwt.access_secret c.jwt.refresh_secret).0 (secrets, same) in
      record {
        environment = one_of-Among c.environment environments environment;
        log_level = one_of-Among c.log_level log_levels log_level;
        postgres = (postgres_iff c.postgres).0 postgres;
        redis_host = (is_blank_iff c.redis.host).0 host;
        redis_port = (is_blank_iff c.redis.port).0 port;
        redis_db = ground arith;
        access_secret = good_secrets.0;
        refresh_secret = good_secrets.1;
        secrets_differ = good_secrets.2;
        ttls = ground arith;
        read_header_timeout = ground arith;
        read_timeout = ground arith;
        write_timeout = ground arith;
        idle_timeout = ground arith;
        shutdown_timeout = ground arith;
        per_minute = ground arith;
        minute_hour = ground arith;
        hour_day = ground arith;
        production_ssl = λ q weak.
            not_both ((one_of_iff c.postgres.sslmode weak_ssl_modes).1 weak)
              ((production_iff c.environment _).0 last.0 q);
        production_password = λ q none.
            not_both ((eq_bytes_iff c.redis.password []).1 none)
              ((production_iff c.environment _).0 last.1.0 q);
      },
  λ v.
      let secrets =
        (secrets_iff c.jwt.access_secret c.jwt.refresh_secret).1
          (v.access_secret, v.refresh_secret, v.secrets_differ) in
      (none_iff (reports (checks_before c)) _).1 (
        (reports_iff (checks_before c)).1 (
            rw ((one_of_iff c.environment environments).1 v.environment) refl
            & rw ((one_of_iff c.log_level log_levels).1 v.log_level) refl
            & tt),
        (none_iff (validate_postgres c.postgres) _).1 (
          (postgres_iff c.postgres).1 v.postgres,
          (reports_iff (checks_after c)).1 (
              (is_blank_iff c.redis.host).1 v.redis_host
              & (is_blank_iff c.redis.port).1 v.redis_port
              & ground (arith, v.redis_db)
              & secrets.0
              & secrets.1
              & ground (arith, v.ttls)
              & ground (
                arith, v.read_header_timeout, v.read_timeout, v.write_timeout, v.idle_timeout,
                v.shutdown_timeout,
              )
              & ground (arith, v.per_minute, v.minute_hour, v.hour_day)
              & ground (arith, v.minute_hour, v.hour_day)
              & (production_iff c.environment _).1
                  (λ q. one_of_weak c.postgres.sslmode (v.production_ssl q))
              & (production_iff c.environment _).1
                  (λ q. eq_bytes_ne c.redis.password [] (v.production_password q))
              & tt),
        ),
      ),
)
