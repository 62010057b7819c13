-- ===== src/Usecase/Transfers.antt =====
-- internal/usecase/transactions.go: `Transfer` and what it is made of. Logging
-- is left out. `Platform` holds what the code calls and does not implement.
pub mod Atomicity
pub mod Effects
pub mod Recorded
pub mod Outcomes
pub mod Loop
pub mod Rounds
pub mod History
pub mod Replay
pub mod Answers
pub mod Progress
pub mod Limiter
pub mod Success
mod Tests
use payment_processing.Prelude.{
  ℕ, zero, suc, ◌+◌, ◌/◌, ◌%◌, Bool, true, false, ◌&&◌, ◌||◌, not, Option, none, some, [], ◌∷◌,
  ◌++◌, Bytes, codes, eq_bytes, ok, err, ltb, ◌==◌, if◌then◌else◌,
}
use text.Mathlib.Text.{◌==◌ as str_eq}
use payment_processing.Prelude.Int.{pos}
use payment_processing.Decimal.{Decimal, is_positive, fits_numeric}
use payment_processing.Decimal.Text.{to_string}
use payment_processing.Domain.{
  Error, Outcome, Uuid, Transaction, TransactionStatus, IdempotencyStatus, TransferIdempotency,
  Cache, pg_error, invalid_amount, same_account, access_denied, idempotency_conflict,
  idempotency_in_progress, context_done, other_error,
}
use payment_processing.Domain.Keys.{validate_idempotency_key}
use payment_processing.Storage.Session.{
  M, pure, fail, lift, guard, ◌>>=◌, ◌>>◌, new_tx, commit, deferring_rollback, wait_cancelled,
}
use payment_processing.Storage.Accounts.{sub, add, lock_for_transfer}
use payment_processing.Storage.Transfers.{
  new_transaction, insert, update_status, get_transaction_by_id,
}
use payment_processing.Storage.Idempotency.{
  try_create_idempotency, get_idempotency, complete_idempotency,
}

abbrev pub transfer_operation_version : Bytes
transfer_operation_version = codes "transfer:v1"

abbrev pub transfer_max_attempts : ℕ
transfer_max_attempts = 3

pub record TransferCommand : Type 0 where
  pub sender_id : Uuid
  pub receiver_id : Uuid
  pub key : Bytes
  pub amount : Decimal
  pub request_fingerprint : Bytes

-- uuid.UUID.String, sha256.Sum256, and the rate limiter over its state.
pub record Platform (S : Type 0) : Type 0 where
  pub uuid_string : Uuid → Bytes
  pub sha256 : Bytes → Bytes
  pub cache : Cache S

-- hex.EncodeToString.
abbrev hex_digit : ℕ → ℕ
hex_digit n = if ltb n 10 then b'0' + n else b'W' + n

unfoldable pub hex_string : Bytes → Bytes
hex_string [] = []
hex_string (b ∷ bs) = hex_digit (b / 16) ∷ hex_digit (b % 16) ∷ hex_string bs

unfoldable pub is_retryable_postgres_error : Error → Bool
is_retryable_postgres_error (pg_error code) = str_eq code "40001" || str_eq code "40P01"
is_retryable_postgres_error _ = false

abbrev set_checked : {S : Type 0} → Bool → M S (Unit {0})
set_checked b w = (ok tt, record w { rate_limit_checked = b })

module _ {S : Type 0} (p : Platform S) where
  unfoldable pub transfer_payload : Uuid → Uuid → Decimal → Bytes
  unfolding to_string
  transfer_payload sender_id receiver_id amount =
      transfer_operation_version
      ++ (0 ∷ p.uuid_string sender_id ++ (0 ∷ p.uuid_string receiver_id ++ (0 ∷ to_string amount)))

  unfoldable pub transfer_fingerprint : Uuid → Uuid → Decimal → Bytes
  unfolding transfer_payload hex_string
  transfer_fingerprint sender_id receiver_id amount =
      hex_string (p.sha256 (transfer_payload sender_id receiver_id amount))

  unfoldable pub ask_rate_limit : Bytes → M S (Unit {0})
  ask_rate_limit id w =
      let (r, cache) = p.cache.check_rate_limit id w.cache in (r, record w { cache = cache })

  -- `if !*rateLimitChecked { … }`.
  unfoldable pub check_rate_limit_once : Uuid → M S (Unit {0})
  unfolding ask_rate_limit
  check_rate_limit_once sender_id w =
      if w.rate_limit_checked
      then (ok tt, w)
      else (ask_rate_limit (p.uuid_string sender_id) >> set_checked true) w

  abbrev recorded_result : IdempotencyStatus → Option Uuid → M S (Option Uuid)
  recorded_result IdempotencyStatus.completed (some id) = pure (some id)
  recorded_result _ _ = fail idempotency_in_progress

  abbrev judge_existing : TransferCommand → TransferIdempotency → M S (Option Uuid)
  judge_existing command existing =
      if eq_bytes existing.request_fingerprint command.request_fingerprint
      then recorded_result existing.status existing.transaction_id
      else fail idempotency_conflict

  abbrev after_reserve : TransferCommand → Bool → M S (Option Uuid)
  after_reserve command true = pure none
  after_reserve command false =
      get_idempotency command.sender_id command.key >>= judge_existing command

  unfoldable pub resolve_idempotency : TransferCommand → M S (Option Uuid)
  resolve_idempotency command =
      try_create_idempotency command.sender_id command.key command.request_fingerprint
      >>= after_reserve command

  unfoldable pub execute_transfer : TransferCommand → M S Transaction
  execute_transfer command = do
    sub command.sender_id command.amount
    add command.receiver_id command.amount
    tx ← new_transaction command.amount command.sender_id command.receiver_id
    created ← insert tx
    update_status created TransactionStatus.completed

  -- What follows the lookup of the key: a recorded result is returned, a new transfer is made.
  unfoldable pub finish_attempt : TransferCommand → Option Uuid → M S Bytes
  finish_attempt command (some id) = pure (p.uuid_string id)
  finish_attempt command none = do
    check_rate_limit_once command.sender_id
    tx ← execute_transfer command
    complete_idempotency command.sender_id command.key tx.id
    commit
    pure (p.uuid_string tx.id)

  unfoldable pub attempt_body : TransferCommand → M S Bytes
  attempt_body command = do
    guard (not (command.sender_id == command.receiver_id)) same_account
    lock_for_transfer command.sender_id command.receiver_id
    replay ← resolve_idempotency command
    finish_attempt command replay

  unfoldable pub transfer_attempt : TransferCommand → M S Bytes
  unfolding attempt_body
  transfer_attempt command = new_tx >> deferring_rollback (attempt_body command)

  -- What the loop does with the outcome of an attempt; `again` is the rest of the loop.
  abbrev pub stop_or_retry : ℕ → M S Bytes → Outcome Bytes → M S Bytes
  stop_or_retry attempt again (ok id) = pure id
  stop_or_retry attempt again (err e) =
      if not (is_retryable_postgres_error e) || (attempt == transfer_max_attempts)
      then fail e
      else wait_cancelled >>= λ cancelled. if cancelled then fail context_done else again

  abbrev pub retrying : ℕ → M S Bytes → M S Bytes → M S Bytes
  retrying attempt m again w = let (r, w') = m w in stop_or_retry attempt again r w'

  -- The loop from `attempt` on, with `left` rounds to go.
  unfoldable pub transfer_loop : ℕ → ℕ → TransferCommand → M S Bytes
  unfolding is_retryable_postgres_error wait_cancelled
  transfer_loop zero attempt command = fail other_error
  transfer_loop (suc left) attempt command =
      retrying attempt (transfer_attempt command) (transfer_loop left (attempt + 1) command)

  unfoldable pub transfer_command : Uuid → Uuid → Bytes → Decimal → TransferCommand
  unfolding transfer_fingerprint
  transfer_command sender_id receiver_id key amount = record {
    sender_id = sender_id;
    receiver_id = receiver_id;
    key = key;
    amount = amount;
    request_fingerprint = transfer_fingerprint sender_id receiver_id amount;
  }

  unfoldable pub transfer : Uuid → Uuid → Bytes → Decimal → M S Bytes
  transfer sender_id receiver_id key amount = do
    lift (validate_idempotency_key key)
    guard (is_positive amount && fits_numeric amount (pos 36) (pos 18)) invalid_amount
    set_checked false
    transfer_loop transfer_max_attempts 1 (transfer_command sender_id receiver_id key amount)
