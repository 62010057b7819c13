-- ===== src/Limiter/Errors.antt =====
-- The errors of the limiter, for the service that tries a transfer again.
use payment_processing.Prelude.{
  ℕ, ◌/◌, ◌≡◌, ◌⊎◌, refl, subst, Bool, true, false, Bytes, ok, err, codes,
}
use payment_processing.Prelude.Int.{ℤ}
use payment_processing.Domain.{Error, Outcome, Uuid, rate_limited, other_error}
use payment_processing.Usecase.Transfers.{Platform, is_retryable_postgres_error}
use payment_processing.Usecase.Transfers.Limiter.{IsFinal, transfer_asks_once}
use payment_processing.Usecase.Transfers.{transfer}
use payment_processing.Decimal.{Decimal}
use payment_processing.Storage.Session.{World}
use payment_processing.Limiter.{
  Limits, State, check_rate_limit, check_window, run_window, run_unless, allowed_outcome, and_check,
  next_fault, later_faults, window_key, rate_limit_script, second, request_id_at, redis_cache,
}

abbrev Final : Outcome (Unit {0}) → Type 0
Final r = (e : Error) → r ≡ err e → is_retryable_postgres_error e ≡ false

allowed-Final : (allowed : Bool) → Final (allowed_outcome allowed)
unfolding is_retryable_postgres_error
allowed-Final true e h = cc
allowed-Final false e h =
    let same : rate_limited ≡ e = cc in subst (λ x. is_retryable_postgres_error x ≡ false) same refl

command-Final :
    (fault : Bool) (run : State → Outcome (Unit {0}) × State) (s : State)
    → Final (run s).0
    → Final (run_unless fault run s).0
unfolding is_retryable_postgres_error
command-Final true run s h e k =
    let same : other_error ≡ e = cc in subst (λ x. is_retryable_postgres_error x ≡ false) same refl
command-Final false run s h e k = h e k

window-Final :
    (id : Bytes) (limit : ℤ) (window : ℕ) (suffix : Bytes) (s : State)
    → Final (check_window id limit window suffix s).0
unfolding check_window
window-Final id limit window suffix s =
    let asked = record s { faults = later_faults s.faults } in
    command-Final (next_fault s.faults) (run_window (window_key id suffix) limit window) asked (
      allowed-Final
        (rate_limit_script (window_key id suffix) (s.clock / second) window limit
          (request_id_at s.clock) asked).0)

and-Final :
    (ran : Outcome (Unit {0}) × State) (k : State → Outcome (Unit {0}) × State)
    → Final ran.0
    → ((s : State) → Final (k s).0)
    → Final (and_check ran k).0
and-Final (ok _, s) k h f = f s
and-Final (err e, s) k h f = h

-- An error of the limiter in Redis, a refusal or a failure of Redis, is no conflict of
-- PostgreSQL, so that a transfer which it refuses is not tried again.
pub redis-IsFinal :
    (uuid_string : Uuid → Bytes) (sha256 : Bytes → Bytes) (limits : Limits) (sender : Uuid)
    (s : State)
    → IsFinal
        (record { uuid_string = uuid_string; sha256 = sha256; cache = redis_cache limits })
        sender
        s
unfolding check_rate_limit
redis-IsFinal uuid_string sha256 limits sender s id c =
    and-Final _ _ (window-Final id limits.rate_limit_min 60 (codes "min") c) (λ s1.
      and-Final _ _ (window-Final id limits.rate_limit_hour 3600 (codes "hour") s1)
        (λ s2. window-Final id limits.rate_limit_day 86400 (codes "day") s2))

abbrev over_redis : (Uuid → Bytes) → (Bytes → Bytes) → Limits → Platform State
over_redis uuid_string sha256 limits = record {
  uuid_string = uuid_string;
  sha256 = sha256;
  cache = redis_cache limits;
}

-- A transfer asks Redis once at most, however often it is tried.
redis_asked_once :
    (uuid_string : Uuid → Bytes) (sha256 : Bytes → Bytes) (limits : Limits)
    (sender_id receiver_id : Uuid) (key : Bytes) (amount : Decimal) (w : World State)
    → let ran =
        transfer (over_redis uuid_string sha256 limits) sender_id receiver_id key amount w in
      (ran.1.cache ≡ w.cache)
      ⊎ (ran.1.cache ≡ (check_rate_limit limits (uuid_string sender_id) w.cache).1)
redis_asked_once uuid_string sha256 limits sender_id receiver_id key amount w =
    transfer_asks_once (over_redis uuid_string sha256 limits) sender_id receiver_id key amount w
      (redis-IsFinal uuid_string sha256 limits sender_id w.cache)
