-- ===== src/Usecase/Transfers/Answers.antt =====
-- What `Transfer` answers where the database raises no error of its own.
use payment_processing.Prelude.{
  ℕ, suc, ◌≡◌, ◌≢◌, refl, true, false, ◌&&◌, some, [], Bytes, eq_bytes, eq_bytes_self, eq_bytes_ne,
  ok, err, find, find-exists, ◌==◌, arith,
}
use payment_processing.Prelude.Int.{pos}
use payment_processing.Decimal.{Decimal, is_positive, fits_numeric}
use payment_processing.Domain.{Error, Uuid, TransferIdempotency, idempotency_conflict}
use payment_processing.Domain.Keys.{validate_idempotency_key}
use payment_processing.Storage.Session.{
  World, new_tx, statement, deferring_rollback, rollback, ◌>>=◌,
}
use payment_processing.Storage.Session.Frames.{bind-err}
use payment_processing.Storage.Accounts.{lock_for_transfer, locked_rows}
use payment_processing.Storage.Idempotency.{
  has_key, reserve, try_create_idempotency, get_idempotency,
}
use payment_processing.Usecase.Transfers.Atomicity.{Atomic-attempt}
use payment_processing.Usecase.Transfers.Recorded.{Answers}
use payment_processing.Usecase.Transfers.{
  TransferCommand, Platform, transfer_command, transfer_fingerprint, transfer, transfer_loop,
  transfer_attempt, attempt_body, resolve_idempotency, is_retryable_postgres_error, finish_attempt,
}

module _ {S : Type 0} (p : Platform S) where
  resolve_conflict :
      (c : TransferCommand) (w : World S) (row : TransferIdempotency)
      → w.faults ≡ []
      → find (has_key c.sender_id c.key) w.tx_db.transfer_idempotency ≡ some row
      → eq_bytes row.request_fingerprint c.request_fingerprint ≡ false
      → (resolve_idempotency p c w).0 ≡ err idempotency_conflict
  unfolding resolve_idempotency try_create_idempotency get_idempotency statement reserve
  resolve_conflict c w row quiet found other =
      ground (arith, find-exists (has_key c.sender_id c.key) w.tx_db.transfer_idempotency row found)

  -- The session of an attempt once the accounts are locked.
  abbrev pub locked_session : TransferCommand → World S → World S
  locked_session c w = record w {
    tx_db = w.db;
    locked = locked_rows c.sender_id c.receiver_id w.db;
    faults = [];
  }

  -- Up to the lookup of the key an attempt without errors changes no table.
  pub attempt_begin :
      (c : TransferCommand) (w : World S)
      → w.faults ≡ []
      → c.sender_id ≢ c.receiver_id
      → transfer_attempt p c w
        ≡ deferring_rollback (resolve_idempotency p c >>= finish_attempt p c) (locked_session c w)
  unfolding transfer_attempt attempt_body new_tx lock_for_transfer statement deferring_rollback
  attempt_begin c w quiet apart =
      let test : (c.sender_id == c.receiver_id) ≡ false = ground arith in simp (quiet, test)

  -- An outcome that is no PostgreSQL conflict ends the loop.
  loop_stops :
      (left attempt : ℕ) (c : TransferCommand) (w : World S) (e : Error)
      → (transfer_attempt p c w).0 ≡ err e
      → is_retryable_postgres_error e ≡ false
      → ((transfer_loop p (suc left) attempt c w).0 ≡ err e)
        × ((transfer_loop p (suc left) attempt c w).1.db ≡ w.db)
  unfolding transfer_loop
  loop_stops left attempt c w e failed final =
      rw (failed, final) (refl, (Atomic-attempt p c).at w e failed)

  pub loop_ends :
      (left attempt : ℕ) (c : TransferCommand) (w w' : World S) (result : Bytes)
      → transfer_attempt p c w ≡ (ok result, w')
      → transfer_loop p (suc left) attempt c w ≡ (ok result, w')
  unfolding transfer_loop
  loop_ends left attempt c w w' result done = rw done

  -- A call whose key and amount pass the checks is the loop.
  pub transfer_starts :
      (sender_id receiver_id : Uuid) (key : Bytes) (amount : Decimal) (w : World S)
      → validate_idempotency_key key ≡ ok tt
      → (is_positive amount && fits_numeric amount (pos 36) (pos 18)) ≡ true
      → transfer p sender_id receiver_id key amount w
        ≡ transfer_loop p 3 1
            (transfer_command p sender_id receiver_id key amount)
            (record w { rate_limit_checked = false })
  unfolding transfer
  transfer_starts sender_id receiver_id key amount w valid good = rw (valid, good)

  resolve_replay :
      (c : TransferCommand) (w : World S) (id : Uuid)
      → w.faults ≡ []
      → Answers c id w.tx_db
      → resolve_idempotency p c w ≡ (ok (some id), record w { faults = [] })
  unfolding resolve_idempotency try_create_idempotency get_idempotency statement reserve
  resolve_replay c w id quiet a =
      let taken =
        (find-exists (has_key c.sender_id c.key) w.tx_db.transfer_idempotency a.row a.found).0 in
      simp (
        quiet,
        taken,
        a.found,
        a.same_request,
        eq_bytes_self c.request_fingerprint,
        a.finished,
        a.result,
      )

module _ {S : Type 0} (p : Platform S) (sender_id receiver_id : Uuid) (key : Bytes)
    (amount : Decimal) (w : World S) (quiet : w.faults ≡ []) (apart : sender_id ≢ receiver_id)
    (valid : validate_idempotency_key key ≡ ok tt)
    (good : (is_positive amount && fits_numeric amount (pos 36) (pos 18)) ≡ true) where
  abbrev command : TransferCommand
  command = transfer_command p sender_id receiver_id key amount

  abbrev fresh_call : World S
  fresh_call = record w { rate_limit_checked = false }

  -- Between two different accounts, with a valid key and amount and the database raising no
  -- error, a key that stands for another request of the sender is refused as a conflict, and
  -- nothing is committed.
  pub transfer_conflict :
      (row : TransferIdempotency)
      → find (has_key sender_id key) w.db.transfer_idempotency ≡ some row
      → row.request_fingerprint ≢ transfer_fingerprint p sender_id receiver_id amount
      → let ran = transfer p sender_id receiver_id key amount w in
        (ran.0 ≡ err idempotency_conflict) × (ran.1.db ≡ w.db)
  unfolding is_retryable_postgres_error transfer_command deferring_rollback
  transfer_conflict row found other =
      let refused : (transfer_attempt p command fresh_call).0 ≡ err idempotency_conflict =
        rw (attempt_begin p command fresh_call quiet apart) (
          bind-err (resolve_idempotency p command) (finish_attempt p command)
            (locked_session p command fresh_call)
            (resolve_conflict p command (locked_session p command fresh_call) row refl found
              (eq_bytes_ne _ _ other))) in
      rw (transfer_starts p sender_id receiver_id key amount w valid good)
        (loop_stops p 2 1 command fresh_call idempotency_conflict refused refl)

  -- Between two different accounts, with a valid key and amount and the database raising no
  -- error, a call that a finished row answers returns the recorded id, commits nothing, and
  -- does not ask the rate limiter.
  pub transfer_replay :
      (id : Uuid)
      → Answers command id w.db
      → let ran = transfer p sender_id receiver_id key amount w in
        (ran.0 ≡ ok (p.uuid_string id)) × (ran.1.db ≡ w.db) × (ran.1.cache ≡ w.cache)
  unfolding transfer_command deferring_rollback finish_attempt
  transfer_replay id answer =
      let session = locked_session p command fresh_call in
      let done : transfer_attempt p command fresh_call
          ≡ (ok (p.uuid_string id), rollback (record session { faults = [] })) =
        rw (attempt_begin p command fresh_call quiet apart)
          (rw (resolve_replay p command session id refl answer)) in
      rw
        (
          transfer_starts p sender_id receiver_id key amount w valid good,
          loop_ends p 2 1 command fresh_call _ _ done,
        )
        (refl, refl, refl)
