-- ===== src/Usecase/Transfers/Atomicity.antt =====
-- usecase/transactions.go, `transferAttempt`: what an attempt that fails has committed.
use payment_processing.Prelude.{Bool, true, false, not, Option, none, some, eq_bytes, ◌==◌, arith}
use payment_processing.Domain.{
  Uuid, IdempotencyStatus, TransactionStatus, TransferIdempotency, same_account,
  idempotency_conflict, idempotency_in_progress,
}
use payment_processing.Storage.Session.Frames.{
  Frame, Frame-bind, Frame-fail, Frame-pure, Frame-if, Frame-guard, Frame-new_tx, Frame-committed,
  Frame-time, Keeps, Keeps-bind, Keeps-commit, Keeps-deferring, Keeps-Atomic, committed, time_of,
  Atomic, Atomic-bind, Atomic-commit, Atomic-deferring_rollback,
}
use payment_processing.Storage.Accounts.Exchange.{Frame-sub, Frame-add, Frame-lock_for_transfer}
use payment_processing.Storage.Transfers.Records.{
  Frame-new_transaction, Frame-insert, Frame-update_status,
}
use payment_processing.Storage.Idempotency.Reservations.{
  Frame-try_create_idempotency, Frame-get_idempotency, Frame-complete_idempotency,
}
use payment_processing.Usecase.Transfers.{
  TransferCommand, Platform, recorded_result, judge_existing, after_reserve, resolve_idempotency,
  execute_transfer, check_rate_limit_once, finish_attempt, attempt_body, transfer_attempt,
}

module _ {S : Type 0} (p : Platform S) where
  Frame-recorded_result :
      (status : IdempotencyStatus) (id : Option Uuid) → Frame (recorded_result p status id)
  Frame-recorded_result IdempotencyStatus.completed (some id) = Frame-pure (some id)
  Frame-recorded_result IdempotencyStatus.completed none = Frame-fail idempotency_in_progress
  Frame-recorded_result IdempotencyStatus.processing id = Frame-fail idempotency_in_progress

  Frame-judge : (c : TransferCommand) (row : TransferIdempotency) → Frame (judge_existing p c row)
  Frame-judge c row =
      Frame-if (eq_bytes row.request_fingerprint c.request_fingerprint) _ _
        (Frame-recorded_result row.status row.transaction_id) (Frame-fail idempotency_conflict)

  Frame-after_reserve : (c : TransferCommand) (created : Bool) → Frame (after_reserve p c created)
  Frame-after_reserve c true = Frame-pure none
  Frame-after_reserve c false =
      Frame-bind _ _ (Frame-get_idempotency c.sender_id c.key) (Frame-judge c)

  pub Frame-resolve : (c : TransferCommand) → Frame (resolve_idempotency p c)
  unfolding resolve_idempotency
  Frame-resolve c =
      Frame-bind _ _ (Frame-try_create_idempotency c.sender_id c.key c.request_fingerprint)
        (Frame-after_reserve c)

  pub Frame-execute : (c : TransferCommand) → Frame (execute_transfer p c)
  unfolding execute_transfer
  Frame-execute c = Frame-bind _ _ (Frame-sub c.sender_id c.amount) (λ _.
      Frame-bind _ _ (Frame-add c.receiver_id c.amount) (λ _.
        Frame-bind _ _ (Frame-new_transaction c.amount c.sender_id c.receiver_id) (λ tx.
          Frame-bind _ _ (Frame-insert tx)
            (λ tx'. Frame-update_status tx' TransactionStatus.completed))))

  -- The rate limiter has a state of its own, and touches no table.
  pub check_once-committed : (id : Uuid) → Keeps committed (check_rate_limit_once p id)
  unfolding check_rate_limit_once
  check_once-committed id = record { at = λ w. ground arith }

  pub check_once-time : (id : Uuid) → Keeps time_of (check_rate_limit_once p id)
  unfolding check_rate_limit_once
  check_once-time id = record { at = λ w. ground arith }

  Atomic-finish : (c : TransferCommand) (o : Option Uuid) → Atomic (finish_attempt p c o)
  unfolding finish_attempt
  Atomic-finish c (some id) = Keeps-Atomic _ (Frame-committed _ (Frame-pure (p.uuid_string id)))
  Atomic-finish c none = Atomic-bind _ _ (check_once-committed c.sender_id) (λ _.
      Atomic-bind _ _ (Frame-committed _ (Frame-execute c)) (λ tx.
        Atomic-bind _ _ (Frame-committed _ (Frame-complete_idempotency c.sender_id c.key tx.id))
          (λ _. Atomic-commit (p.uuid_string tx.id))))

  Atomic-body : (c : TransferCommand) → Atomic (attempt_body p c)
  unfolding attempt_body
  Atomic-body c =
      Atomic-bind _ _
        (Frame-committed _ (Frame-guard (not (c.sender_id == c.receiver_id)) same_account))
        (λ _.
          Atomic-bind _ _ (Frame-committed _ (Frame-lock_for_transfer c.sender_id c.receiver_id))
            (λ _. Atomic-bind _ _ (Frame-committed _ (Frame-resolve c)) (Atomic-finish c)))

  pub Atomic-attempt : (c : TransferCommand) → Atomic (transfer_attempt p c)
  unfolding transfer_attempt
  Atomic-attempt c =
      Atomic-bind _ _ (Frame-committed _ Frame-new_tx)
        (λ _. Atomic-deferring_rollback _ (Atomic-body c))

  finish-time : (c : TransferCommand) (o : Option Uuid) → Keeps time_of (finish_attempt p c o)
  unfolding finish_attempt
  finish-time c (some id) = Frame-time _ (Frame-pure (p.uuid_string id))
  finish-time c none = Keeps-bind _ _ (check_once-time c.sender_id) (λ _.
      Keeps-bind _ _ (Frame-time _ (Frame-execute c)) (λ tx.
        Keeps-bind _ _ (Frame-time _ (Frame-complete_idempotency c.sender_id c.key tx.id)) (λ _.
          Keeps-bind _ _ Keeps-commit (λ _. Frame-time _ (Frame-pure (p.uuid_string tx.id))))))

  body-time : (c : TransferCommand) → Keeps time_of (attempt_body p c)
  unfolding attempt_body
  body-time c =
      Keeps-bind _ _ (Frame-time _ (Frame-guard (not (c.sender_id == c.receiver_id)) same_account))
        (λ _.
          Keeps-bind _ _ (Frame-time _ (Frame-lock_for_transfer c.sender_id c.receiver_id))
            (λ _. Keeps-bind _ _ (Frame-time _ (Frame-resolve c)) (finish-time c)))

  pub attempt-time : (c : TransferCommand) → Keeps time_of (transfer_attempt p c)
  unfolding transfer_attempt
  attempt-time c = Keeps-bind _ _ (Frame-time _ Frame-new_tx) (λ _. Keeps-deferring _ (body-time c))
