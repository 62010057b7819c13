-- ===== src/Usecase/Transfers/Loop.antt =====
-- usecase/transactions.go, the retry loop of `Transfer`: what a call has done in the end.
use payment_processing.Prelude.{
  ℕ, zero, suc, ◌+◌, ◌≡◌, refl, sym, subst, subst₂, ◌∙◌, ap, Bool, true, false, not, ◌||◌, ◌&&◌,
  Bytes, ok, err, ◌==◌, Bool-cases, inl, inr, if◌then◌else◌,
}
use payment_processing.Domain.{Outcome, Uuid, Time, context_done, invalid_amount}
use payment_processing.Prelude.Int.{pos}
use payment_processing.Decimal.{Decimal, is_positive, fits_numeric}
use payment_processing.Domain.Keys.{validate_idempotency_key}
use payment_processing.Storage.Tables.{Db}
use payment_processing.Storage.Session.{
  World, M, fail, lift, guard, ◌>>=◌, ◌>>◌, wait_cancelled, first_cancel,
}
use payment_processing.Storage.Accounts.Balances.{IsValid}
use payment_processing.Usecase.Transfers.{
  TransferCommand, Platform, is_retryable_postgres_error, transfer_attempt, stop_or_retry,
  transfer_loop, transfer_command, transfer, set_checked, transfer_max_attempts,
}
use payment_processing.Usecase.Transfers.Atomicity.{Atomic-attempt, attempt-time}
use payment_processing.Usecase.Transfers.Outcomes.{Done, attempt-ok}

module _ {S : Type 0} (p : Platform S) where
  -- An error, and nothing committed; or a result, as `Done` has it.
  abbrev pub Accounted : Time → TransferCommand → Outcome Bytes → Db → Db → Type 0
  Accounted now c (ok result) db db' = Done p now c result db db'
  Accounted now c (err e) db db' = db' ≡ db

  waited :
      (c : TransferCommand) (again : M S Bytes) (w v : World S) (cancelled : Bool)
      → v.db ≡ w.db
      → Accounted w.clock c (again v).0 w.db (again v).1.db
      → let ran = (if cancelled then fail context_done else again) v in
        Accounted w.clock c ran.0 w.db ran.1.db
  waited c again w v true same ih = same
  waited c again w v false same ih = ih

  -- The wait between two attempts.
  after_wait :
      (c : TransferCommand) (again : M S Bytes) (w u : World S)
      → u.db ≡ w.db
      → u.clock ≡ w.clock
      → ((v : World S)
          → v.db ≡ w.db
          → v.clock ≡ w.clock
          → Accounted w.clock c (again v).0 w.db (again v).1.db)
      → let ran =
          (wait_cancelled >>= λ cancelled. if cancelled then fail context_done else again) u in
        Accounted w.clock c ran.0 w.db ran.1.db
  unfolding wait_cancelled
  after_wait c again w u same clock ih =
      waited c again w (wait_cancelled u).1 (first_cancel u.cancels) same
        (ih (wait_cancelled u).1 same clock)

  after_attempt :
      (c : TransferCommand) (attempt : ℕ) (again : M S Bytes) (w w' : World S) (r : Outcome Bytes)
      → IsValid w.db.accounts
      → transfer_attempt p c w ≡ (r, w')
      → ((v : World S)
          → v.db ≡ w.db
          → v.clock ≡ w.clock
          → Accounted w.clock c (again v).0 w.db (again v).1.db)
      → let ran = stop_or_retry p attempt again r w' in Accounted w.clock c ran.0 w.db ran.1.db
  after_attempt c attempt again w w' (ok result) valid ran ih = attempt-ok p c w valid ran
  after_attempt c attempt again w w' (err e) valid ran ih =
      let same : w'.db ≡ w.db =
        ap (λ (t : Outcome Bytes × World S). t.1.db) (sym ran)
        ∙ (Atomic-attempt p c).at w e (ap (λ (t : Outcome Bytes × World S). t.0) ran) in
      let clock : w'.clock ≡ w.clock =
        ap (λ (t : Outcome Bytes × World S). t.1.clock) (sym ran) ∙ (attempt-time p c).at w in
      elim (Bool-cases (not (is_retryable_postgres_error e) || (attempt == 3))) [
        | inl stop ↦ rw stop same
        | inr retry ↦ rw retry (after_wait c again w w' same clock ih)
      ]

  loop-Accounted :
      (left attempt : ℕ) (c : TransferCommand) (w : World S)
      → IsValid w.db.accounts
      → let ran = transfer_loop p left attempt c w in Accounted w.clock c ran.0 w.db ran.1.db
  unfolding transfer_loop
  loop-Accounted zero attempt c w valid = refl
  loop-Accounted (suc left) attempt c w valid =
      let (r, w') = transfer_attempt p c w in
      after_attempt c attempt (transfer_loop p left (attempt + 1) c) w w' r valid refl
        (λ v same clock.
          subst₂
            (λ d t.
              let ran = transfer_loop p left (attempt + 1) c v in Accounted t c ran.0 d ran.1.db)
            same clock
            (loop-Accounted left (attempt + 1) c v
              (subst (λ (d : Db). IsValid d.accounts) (sym same) valid)))

  started :
      (checked : Outcome (Unit {0})) (good : Bool) (c : TransferCommand) (w : World S)
      → IsValid w.db.accounts
      → let ran =
          (do
            lift checked
            guard good invalid_amount
            set_checked false
            transfer_loop p transfer_max_attempts 1 c)
            w in
        Accounted w.clock c ran.0 w.db ran.1.db
  started (ok _) true c w valid =
      loop-Accounted transfer_max_attempts 1 c (record w { rate_limit_checked = false }) valid
  started (ok _) false c w valid = refl
  started (err e) good c w valid = refl

  -- Over a table of accounts with unique ids and balances that are not negative, and whatever
  -- errors the database raises, a call of Transfer that returns an error has committed nothing,
  -- and one that returns an id has either moved the amount and recorded the transaction and its
  -- key together, or changed nothing and returned the id that a finished row for this request
  -- holds.
  pub transfer-Accounted :
      (sender_id receiver_id : Uuid) (key : Bytes) (amount : Decimal) (w : World S)
      → IsValid w.db.accounts
      → let ran = transfer p sender_id receiver_id key amount w in
        Accounted w.clock (transfer_command p sender_id receiver_id key amount) ran.0 w.db ran.1.db
  unfolding transfer
  transfer-Accounted sender_id receiver_id key amount w valid =
      started (validate_idempotency_key key)
        (is_positive amount && fits_numeric amount (pos 36) (pos 18))
        (transfer_command p sender_id receiver_id key amount) w valid
