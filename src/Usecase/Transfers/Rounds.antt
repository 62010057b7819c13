-- ===== src/Usecase/Transfers/Rounds.antt =====
-- transactions.go, `Transfer`: the retry loop ends by itself.
use payment_processing.Prelude.{
  ℕ, suc, ◌≡◌, refl, Bool, true, false, not, ◌||◌, inl, inr, Bytes, ok, err, ◌==◌, Bool-cases,
  if◌then◌else◌,
}
use payment_processing.Domain.{Outcome, context_done}
use payment_processing.Storage.Session.{World, M, fail, wait_cancelled, first_cancel}
use payment_processing.Usecase.Transfers.{
  Platform, TransferCommand, transfer_loop, transfer_attempt, stop_or_retry,
  is_retryable_postgres_error,
}

module _ {S : Type 0} (p : Platform S) where
  -- The rest of the loop is only what comes after a wait.
  retry-same :
      (attempt : ℕ) (again other : M S Bytes)
      → ((v : World S) → again v ≡ other v)
      → (r : Outcome Bytes) (w : World S)
      → stop_or_retry p attempt again r w ≡ stop_or_retry p attempt other r w
  unfolding wait_cancelled
  retry-same attempt again other same (ok id) w = refl
  retry-same attempt again other same (err e) w =
      elim (Bool-cases (not (is_retryable_postgres_error e) || (attempt == 3))) [
        | inl stop ↦ rw stop refl
        | inr more ↦ rw more (waited-same (first_cancel w.cancels) (wait_cancelled w).1)
      ]
    where
      waited-same :
          (cancelled : Bool) (v : World S)
          → (if cancelled then fail context_done else again) v
            ≡ (if cancelled then fail context_done else other) v
      waited-same true v = refl
      waited-same false v = same v

  -- The third attempt is the last.
  third-last :
      (again other : M S Bytes) (r : Outcome Bytes) (w : World S)
      → stop_or_retry p 3 again r w ≡ stop_or_retry p 3 other r w
  third-last again other (ok id) w = refl
  third-last again other (err e) w = elim (Bool-cases (is_retryable_postgres_error e)) [
    | inl again_later ↦ rw again_later refl
    | inr final ↦ rw final refl
  ]

  -- The loop of Transfer ends by itself within three attempts: with any more rounds it returns
  -- the same, and leaves the same world.
  pub transfer_loop_ends :
      (more : ℕ) (c : TransferCommand) (w : World S)
      → transfer_loop p (suc (suc (suc more))) 1 c w ≡ transfer_loop p 3 1 c w
  unfolding transfer_loop
  transfer_loop_ends more c w =
      let attempt = transfer_attempt p c in
      retry-same 1 _ _
        (λ v.
          retry-same 2 _ _ (λ u. third-last _ _ (attempt u).0 (attempt u).1) (attempt v).0
            (attempt v).1)
        (attempt w).0 (attempt w).1
