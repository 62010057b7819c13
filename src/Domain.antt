-- ===== src/Domain.antt =====
-- internal/domain: the errors, the entities and the idempotency keys. A wrapped error
-- (`fmt.Errorf` with %w) is the error that it wraps, since the code reads errors by `errors.Is` and
-- `errors.As` only. Times are instants in nanoseconds, a UUID is its 128-bit number.
mod Errors
pub mod Keys
mod Tests
pub use Errors.*
use payment_processing.Prelude.{ℕ, Bool, Option, Bytes, Result}
use payment_processing.Prelude.Int.{ℤ}
use payment_processing.Decimal.{Decimal}

abbrev pub Outcome : Type 0 → Type 0
Outcome A = Result Error A

abbrev pub Uuid : Type 0
Uuid = ℕ

abbrev pub Time : Type 0
Time = ℕ

-- The zero UUID, uuid.Nil.
abbrev pub nil_uuid : Uuid
nil_uuid = 0

pub record Account : Type 0 where
  pub id : Uuid
  pub name : Bytes
  pub email : Bytes
  pub balance : Decimal
  pub password_hash : Bytes
  pub role : Bytes

pub data TransactionStatus : Type 0 where
  pending completed failed : TransactionStatus

pub record Transaction : Type 0 where
  pub id : Uuid
  pub amount : Decimal
  pub sender_id : Uuid
  pub receiver_id : Uuid
  pub status : TransactionStatus
  pub created_at : Time

pub data IdempotencyStatus : Type 0 where
  processing completed : IdempotencyStatus

pub record TransferIdempotency : Type 0 where
  pub sender_id : Uuid
  pub key : Bytes
  pub request_fingerprint : Bytes
  pub status : IdempotencyStatus
  pub transaction_id : Option Uuid
  pub created_at : Time
  pub updated_at : Time

pub record RefreshSession : Type 0 where
  pub user_id : Uuid
  pub family_id : Uuid
  pub revoked : Bool
  pub expires_at : Time

pub record TokenPair : Type 0 where
  pub access_token : Bytes
  pub refresh_token : Bytes
  pub expires_in : ℤ
  pub jti : Bytes
  pub expires_at : Time

-- Of the registered claims, the fields that the code reads.
pub record AccessClaims : Type 0 where
  pub user_id : Bytes
  pub role : Bytes
  pub subject : Bytes

pub record RefreshClaims : Type 0 where
  pub user_id : Bytes
  pub id : Bytes
  pub subject : Bytes

pub record TransactionFilter : Type 0 where
  pub account_id : Uuid
  pub sender_id : Uuid
  pub receiver_id : Uuid
  pub min_amount : Bytes
  pub max_amount : Bytes
  pub from : Option Time
  pub to : Option Time
  pub limit : ℕ
  pub offset : ℕ

-- domain.Cache: what a rate limiter is asked, over a state `S` of its own.
pub record Cache (S : Type 0) : Type 0 where
  pub check_rate_limit : Bytes → S → Outcome (Unit {0}) × S
  pub idempotency_check : Bytes → ℕ → S → Outcome (Unit {0}) × S
