-- ===== src/Limiter.antt =====
-- internal/infrastructure/cache/redis.go: `Redis`, the rate limiter and the flags of requests. The
-- clock of Redis and that of the service are one, in nanoseconds. A key of the flags is taken to
-- be none of the rate limiter's. The script answers 0 or 1, so that its answer is an int64 always.
pub mod Windows
pub mod Ids
pub mod Members
pub mod Recorded
pub mod History
pub mod Passing
pub mod Combined
pub mod Errors
mod Tests
use payment_processing.Prelude.{
  ℕ, zero, suc, ◌+◌, ◌*◌, ◌/◌, ◌%◌, Bool, true, false, not, ◌&&◌, Option, none, some, List, [], ◌∷◌,
  ◌++◌, Bytes, codes, eq_bytes, Result, ok, err, length, select, ltb, leb, ◌==◌, if◌then◌else◌,
}
use payment_processing.Prelude.Int.{ℤ, pos, leb_ℤ}
use payment_processing.Decimal.{digits}
use payment_processing.Domain.{
  Error, Outcome, Time, Cache, rate_limited, duplicate_request, other_error,
}

-- A member of a sorted set, with its score.
pub record Member : Type 0 where
  pub score : ℕ
  pub request_id : Bytes

-- A key that is set, and when it expires.
pub record Entry (A : Type 0) : Type 0 where
  pub key : Bytes
  pub value : A
  pub expires_at : Time

pub record State : Type 0 where
  pub sets : List (Entry (List Member))
  pub flags : List (Entry (Unit {0}))
  pub clock : Time
  -- Whether the coming commands fail; an error of Redis is none that the code tells apart.
  pub faults : List Bool

pub record Limits : Type 0 where
  pub rate_limit_min : ℤ
  pub rate_limit_hour : ℤ
  pub rate_limit_day : ℤ

abbrev pub second : ℕ
second = 1000000000

abbrev pub value_or : {A : Type 0} → A → Option A → A
value_or d none = d
value_or d (some a) = a

-- What a key holds, if it has not expired.
unfoldable pub lookup : {A : Type 0} → Time → Bytes → List (Entry A) → Option A
lookup now key [] = none
lookup now key (e ∷ es) =
    let rest = lookup now key es in
    if eq_bytes e.key key then if ltb now e.expires_at then some e.value else none else rest

-- The entry of a key is replaced, or added.
unfoldable pub store : {A : Type 0} → Entry A → List (Entry A) → List (Entry A)
store e [] = e ∷ []
store e (x ∷ xs) = let rest = store e xs in if eq_bytes x.key e.key then e ∷ xs else x ∷ rest

-- ZADD: a member that is there gets the new score.
unfoldable pub zadd : Member → List Member → List Member
zadd m [] = m ∷ []
zadd m (x ∷ xs) =
    let rest = zadd m xs in if eq_bytes x.request_id m.request_id then m ∷ xs else x ∷ rest

-- ZREMRANGEBYSCORE key -inf (now - window).
unfoldable pub live_members : ℕ → ℕ → List Member → List Member
live_members now window = select (λ m. ltb now (m.score + window))

abbrev pub members_of : Bytes → State → List Member
members_of key s = value_or [] (lookup s.clock key s.sets)

-- A removal leaves the time to live of a key as it was, so that only an accepted request sets it.
unfoldable pub keep_value : {A : Type 0} → Bytes → A → List (Entry A) → List (Entry A)
keep_value key value [] = []
keep_value key value (e ∷ es) =
    let rest = keep_value key value es in
    if eq_bytes e.key key then record e { value = value } ∷ es else e ∷ rest

-- rateLimitScript, with the limit as the script reads it.
unfoldable pub rate_limit_script : Bytes → ℕ → ℕ → ℤ → Bytes → State → Bool × State
unfolding live_members keep_value zadd store lookup
rate_limit_script key now window limit request_id s =
    let live = live_members now window (members_of key s) in
    if leb_ℤ limit (pos (length live))
    then (false, record s { sets = keep_value key live s.sets })
    else (
      true,
      record s {
        sets =
            store
              (record {
                key = key;
                value = zadd (record { score = now; request_id = request_id }) live;
                expires_at = s.clock + (window + 10) * second;
              })
              s.sets;
      },
    )

abbrev allowed_outcome : Bool → Outcome (Unit {0})
allowed_outcome true = ok tt
allowed_outcome false = err rate_limited

abbrev pub next_fault : List Bool → Bool
next_fault [] = false
next_fault (f ∷ fs) = f

abbrev later_faults : List Bool → List Bool
later_faults [] = []
later_faults (f ∷ fs) = fs

abbrev run_unless : {A : Type 0} → Bool → (State → Outcome A × State) → State → Outcome A × State
run_unless true run s = (err other_error, s)
run_unless false run s = run s

-- A command: it fails, or does what `run` does.
abbrev pub command : {A : Type 0} → (State → Outcome A × State) → State → Outcome A × State
command run s = run_unless (next_fault s.faults) run (record s { faults = later_faults s.faults })

abbrev pub window_key : Bytes → Bytes → Bytes
window_key id suffix = codes "ratelimit:" ++ (id ++ (codes ":" ++ suffix))

-- "%d-%d" of the seconds and the nanoseconds.
abbrev pub request_id_at : Time → Bytes
request_id_at now = digits (now / second) ++ (codes "-" ++ digits now)

abbrev pub run_window : Bytes → ℤ → ℕ → State → Outcome (Unit {0}) × State
run_window key limit window s =
    let (allowed, s') =
      rate_limit_script key (s.clock / second) window limit (request_id_at s.clock) s in
    (allowed_outcome allowed, s')

-- `window` in seconds.
unfoldable pub check_window : Bytes → ℤ → ℕ → Bytes → State → Outcome (Unit {0}) × State
unfolding rate_limit_script
check_window id limit window suffix = command (run_window (window_key id suffix) limit window)

abbrev pub and_check :
    Outcome (Unit {0}) × State → (State → Outcome (Unit {0}) × State) → Outcome (Unit {0}) × State
and_check (ok _, s) k = k s
and_check (err e, s) k = (err e, s)

unfoldable pub check_rate_limit : Limits → Bytes → State → Outcome (Unit {0}) × State
unfolding check_window
check_rate_limit limits id s =
    and_check (check_window id limits.rate_limit_min 60 (codes "min") s) (λ s1.
      and_check (check_window id limits.rate_limit_hour 3600 (codes "hour") s1)
        (λ s2. check_window id limits.rate_limit_day 86400 (codes "day") s2))

abbrev set_nx : Bytes → ℕ → State → Outcome (Unit {0}) × State
set_nx key ttl s = elim (lookup s.clock key s.flags) [
  | some _ ↦ (err duplicate_request, s)
  | none ↦ (
    ok tt,
    record s {
      flags = store (record { key = key; value = tt; expires_at = s.clock + ttl }) s.flags;
    },
  )
]

-- `ttl` in nanoseconds.
unfoldable pub idempotency_check : Bytes → ℕ → State → Outcome (Unit {0}) × State
unfolding lookup store
idempotency_check key ttl = command (set_nx key ttl)

-- The limiter as the services see it.
abbrev pub redis_cache : Limits → Cache State
redis_cache limits = record {
  check_rate_limit = check_rate_limit limits;
  idempotency_check = idempotency_check;
}
