-- ===== src/Usecase/Transfers/Limiter.antt =====
-- usecase/transactions.go, `rateLimitChecked`: what a transfer asks the rate limiter.
use payment_processing.Prelude.{
  ℕ, zero, suc, ◌+◌, ◌≡◌, ◌⊎◌, refl, sym, subst, ◌∙◌, Bool, true, false, not, ◌||◌, ◌&&◌, Option,
  none, some, Bytes, ok, err, ◌==◌, Bool-cases, inl, inr, if◌then◌else◌, arith,
}
use payment_processing.Prelude.Int.{pos}
use payment_processing.Decimal.{Decimal, is_positive, fits_numeric}
use payment_processing.Domain.{Error, Outcome, Uuid, invalid_amount, same_account, context_done}
use payment_processing.Domain.Keys.{validate_idempotency_key}
use payment_processing.Storage.Session.{
  World, M, lift, guard, continue, ◌>>=◌, ◌>>◌, commit, deferring_rollback, rollback,
  wait_cancelled, first_cancel, fail, later,
}
use payment_processing.Storage.Session.Frames.{Frame, Frame-pure, Frame-guard, Frame-new_tx}
use payment_processing.Storage.Accounts.Exchange.{Frame-lock_for_transfer}
use payment_processing.Storage.Idempotency.Reservations.{Frame-complete_idempotency}
use payment_processing.Usecase.Transfers.Atomicity.{Frame-resolve, Frame-execute}
use payment_processing.Usecase.Transfers.{
  TransferCommand, Platform, is_retryable_postgres_error, check_rate_limit_once, ask_rate_limit,
  finish_attempt, attempt_body, transfer_attempt, stop_or_retry, transfer_loop, transfer_command,
  transfer, set_checked, transfer_max_attempts,
}

module _ {S : Type 0} (p : Platform S) (sender : Uuid) (before : S) where
  -- The limiter's state once it was asked for the sender.
  abbrev pub after_asking : S
  after_asking = (p.cache.check_rate_limit (p.uuid_string sender) before).1

  -- Not asked yet, or asked and the flag set.
  abbrev InStep : World S → Type 0
  InStep w =
      ((w.rate_limit_checked ≡ false) × (w.cache ≡ before))
      ⊎ ((w.rate_limit_checked ≡ true) × (w.cache ≡ after_asking))

  -- Refused by the limiter, an error that ends the loop.
  abbrev IsRefused : {A : Type 0} → Outcome A × World S → Type 0
  IsRefused t =
      (e : Error) × (t.0 ≡ err e)
      × (is_retryable_postgres_error e ≡ false)
      × (t.1.cache ≡ after_asking)

  record Asks {A : Type 0} (m : M S A) : Type 0 where
    at : (w : World S) → InStep w → InStep (m w).1 ⊎ IsRefused (m w)

  InStep-same :
      (w w' : World S)
      → w'.cache ≡ w.cache
      → w'.rate_limit_checked ≡ w.rate_limit_checked
      → InStep w
      → InStep w'
  InStep-same w w' c f (inl h) = inl (f ∙ h.0, c ∙ h.1)
  InStep-same w w' c f (inr h) = inr (f ∙ h.0, c ∙ h.1)

  module _ {A : Type 0} where
    Frame-Asks : (m : M S A) → Frame m → Asks m
    Frame-Asks m h = record {
      at = λ w k. inl (InStep-same w (m w).1 (h.at w).cache (h.at w).checked k);
    }

    Asks-deferring : (m : M S A) → Asks m → Asks (deferring_rollback m)
    unfolding deferring_rollback rollback
    Asks-deferring m h = record { at = h.at }

    continue-Asks :
        {B : Type 0} (r : Outcome A) (k : A → M S B) (w : World S)
        → ((a : A) → Asks (k a))
        → InStep w ⊎ IsRefused {A = A} (r, w)
        → InStep (continue r k w).1 ⊎ IsRefused (continue r k w)
    continue-Asks (ok a) k w h (inl q) = (h a).at w q
    continue-Asks (ok a) k w h (inr (e, bad, final, asked)) = cc
    continue-Asks (err e) k w h (inl q) = inl q
    continue-Asks (err e) k w h (inr (e', same, final, asked)) = inr (e', cc, final, asked)

    Asks-bind :
        {B : Type 0} (m : M S A) (k : A → M S B) → Asks m → ((a : A) → Asks (k a)) → Asks (m >>= k)
    Asks-bind m k h f = record {
      at = λ w q. let (r, w') = m w in continue-Asks r k w' f (h.at w q);
    }

  Asks-commit : Asks commit
  unfolding commit
  Asks-commit = record {
    at = λ w q. inl (InStep-same w (commit w).1 (ground arith) (ground arith) q);
  }

  -- What the documentation of a limiter promises: a refusal is no conflict of PostgreSQL.
  abbrev pub IsFinal : Type 0
  IsFinal =
      (id : Bytes) (c : S) (e : Error)
      → (p.cache.check_rate_limit id c).0 ≡ err e
      → is_retryable_postgres_error e ≡ false

  module _ (law : IsFinal) where
    asked-once :
        (r : Outcome (Unit {0})) (w : World S)
        → (p.cache.check_rate_limit (p.uuid_string sender) before).0 ≡ r
        → w.cache ≡ after_asking
        → InStep (continue r (λ _. set_checked true) w).1
          ⊎ IsRefused (continue r (λ _. set_checked true) w)
    asked-once (ok _) w h same = inl (inr (refl, same))
    asked-once (err e) w h same = inr (e, refl, law _ before e h, same)

    Asks-once : Asks (check_rate_limit_once p sender)
    unfolding check_rate_limit_once ask_rate_limit
    Asks-once = record { at = go }
      where
        go :
            (w : World S)
            → InStep w
            → InStep (check_rate_limit_once p sender w).1
              ⊎ IsRefused (check_rate_limit_once p sender w)
        go w (inl (not_yet, same)) =
            rw (not_yet, same)
              (asked-once (p.cache.check_rate_limit (p.uuid_string sender) before).0
                (record w { cache = after_asking; rate_limit_checked = false }) refl refl)
        go w (inr (already, same)) = rw already (inl (inr (refl, same)))

    module _ (c : TransferCommand) (own : c.sender_id ≡ sender) where
      Asks-finish : (o : Option Uuid) → Asks (finish_attempt p c o)
      unfolding finish_attempt
      Asks-finish (some id) = Frame-Asks _ (Frame-pure (p.uuid_string id))
      Asks-finish none =
          Asks-bind (check_rate_limit_once p c.sender_id) _
            (subst (λ s. Asks (check_rate_limit_once p s)) (sym own) Asks-once)
            (λ _. Asks-bind _ _ (Frame-Asks _ (Frame-execute p c)) (λ tx.
              Asks-bind _ _ (Frame-Asks _ (Frame-complete_idempotency c.sender_id c.key tx.id))
                (λ _.
                  Asks-bind _ _ Asks-commit
                    (λ _. Frame-Asks _ (Frame-pure (p.uuid_string tx.id))))))

      Asks-body : Asks (attempt_body p c)
      unfolding attempt_body
      Asks-body =
          Asks-bind _ _
            (Frame-Asks _ (Frame-guard (not (c.sender_id == c.receiver_id)) same_account))
            (λ _.
              Asks-bind _ _ (Frame-Asks _ (Frame-lock_for_transfer c.sender_id c.receiver_id))
                (λ _. Asks-bind _ _ (Frame-Asks _ (Frame-resolve p c)) Asks-finish))

      Asks-attempt : Asks (transfer_attempt p c)
      unfolding transfer_attempt
      Asks-attempt = Asks-bind _ _ (Frame-Asks _ Frame-new_tx) (λ _. Asks-deferring _ Asks-body)

      abbrev AtMostOnce : World S → Type 0
      AtMostOnce w = (w.cache ≡ before) ⊎ (w.cache ≡ after_asking)

      InStep-once : (w : World S) → InStep w → AtMostOnce w
      InStep-once w (inl h) = inl h.1
      InStep-once w (inr h) = inr h.1

      waited-once :
          (cancelled : Bool) (again : M S Bytes) (w : World S)
          → InStep w
          → ((v : World S) → InStep v → AtMostOnce (again v).1)
          → AtMostOnce ((if cancelled then fail context_done else again) w).1
      waited-once true again w q ih = InStep-once w q
      waited-once false again w q ih = ih w q

      retried-once :
          (attempt : ℕ) (again : M S Bytes) (w : World S) (r : Outcome Bytes)
          → InStep w ⊎ IsRefused {A = Bytes} (r, w)
          → ((v : World S) → InStep v → AtMostOnce (again v).1)
          → AtMostOnce (stop_or_retry p attempt again r w).1
      unfolding wait_cancelled
      retried-once attempt again w (ok id) (inl q) ih = InStep-once w q
      retried-once attempt again w (ok id) (inr (e, same, final, asked)) ih = inr asked
      retried-once attempt again w (err e) (inr (e', same, final, asked)) ih =
          let stops : is_retryable_postgres_error e ≡ false = cc in rw stops (inr asked)
      retried-once attempt again w (err e) (inl q) ih =
          elim (Bool-cases (not (is_retryable_postgres_error e) || (attempt == 3))) [
            | inl stop ↦ rw stop (InStep-once w q)
            | inr retry ↦ rw retry (
                waited-once (first_cancel w.cancels) again (record w { cancels = later w.cancels })
                  q ih)
          ]

      loop-once :
          (left attempt : ℕ) (w : World S)
          → InStep w
          → AtMostOnce (transfer_loop p left attempt c w).1
      unfolding transfer_loop
      loop-once zero attempt w q = InStep-once w q
      loop-once (suc left) attempt w q =
          retried-once attempt (transfer_loop p left (attempt + 1) c) (transfer_attempt p c w).1
            (transfer_attempt p c w).0 (Asks-attempt.at w q) (loop-once left (attempt + 1))

module _ {S : Type 0} (p : Platform S) where
  started-once :
      (checked : Outcome (Unit {0})) (good : Bool) (c : TransferCommand) (w : World S)
      → IsFinal p c.sender_id w.cache
      → let ran =
          (do
            lift checked
            guard good invalid_amount
            set_checked false
            transfer_loop p transfer_max_attempts 1 c)
            w in
        (ran.1.cache ≡ w.cache) ⊎ (ran.1.cache ≡ after_asking p c.sender_id w.cache)
  started-once (ok _) true c w law =
      loop-once p c.sender_id w.cache law c refl transfer_max_attempts 1
        (record w { rate_limit_checked = false }) (inl (refl, refl))
  started-once (ok _) false c w law = inl refl
  started-once (err e) good c w law = inl refl

  -- Where a refusal of the rate limiter is no conflict of PostgreSQL, a transfer asks it for
  -- the sender once at most, however often it is tried again: its state is afterwards as
  -- before, or as one question leaves it.
  pub transfer_asks_once :
      (sender_id receiver_id : Uuid) (key : Bytes) (amount : Decimal) (w : World S)
      → IsFinal p sender_id w.cache
      → let ran = transfer p sender_id receiver_id key amount w in
        (ran.1.cache ≡ w.cache)
        ⊎ (ran.1.cache ≡ (p.cache.check_rate_limit (p.uuid_string sender_id) w.cache).1)
  unfolding transfer transfer_command
  transfer_asks_once sender_id receiver_id key amount w law =
      started-once (validate_idempotency_key key)
        (is_positive amount && fits_numeric amount (pos 36) (pos 18))
        (transfer_command p sender_id receiver_id key amount) w law
