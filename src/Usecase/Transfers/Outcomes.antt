-- ===== src/Usecase/Transfers/Outcomes.antt =====
-- What a call of `Transfer` has done, by how it ended.
use payment_processing.Prelude.{
  ◌≡◌, ◌≢◌, refl, sym, subst, subst₂, ◌∙◌, ap, ◌⊎◌, inl, inr, Bool, true, false, not, Option, none,
  some, Bytes, eq_bytes_iff, update_where, ok, ◌==◌, arith,
}
use payment_processing.Domain.{
  Outcome, Uuid, Time, IdempotencyStatus, TransferIdempotency, same_account,
}
use payment_processing.Storage.Tables.{Db}
use payment_processing.Storage.Session.{World, guard, new_tx, commit}
use payment_processing.Storage.Session.Frames.{
  bind-ok, guard-ok, deferring-ok, Frame-new_tx, new_tx-ok, commit-ok, SameOutside-ran,
}
use payment_processing.Storage.Accounts.{lock_for_transfer}
use payment_processing.Storage.Accounts.Balances.{IsValid}
use payment_processing.Storage.Accounts.Exchange.{lock_for_transfer-ok, Frame-lock_for_transfer}
use payment_processing.Storage.Idempotency.{
  complete_row, try_create_idempotency, get_idempotency, complete_idempotency,
}
use payment_processing.Storage.Idempotency.Reservations.{
  open_row, Reserved, try_create_idempotency-ok, get_idempotency-ok, complete_idempotency-ok,
}
use payment_processing.Usecase.Transfers.{
  TransferCommand, Platform, resolve_idempotency, judge_existing, after_reserve, finish_attempt,
  attempt_body, transfer_attempt, check_rate_limit_once, execute_transfer,
}
use payment_processing.Usecase.Transfers.Atomicity.{Frame-resolve, Frame-execute}
use payment_processing.Usecase.Transfers.Effects.{Executed, execute_transfer-ok}
use payment_processing.Usecase.Transfers.Recorded.{Transferred, Answers, transferred}

-- The lookup of the key: nothing was there and it is reserved, or an earlier result answers it.
abbrev Resolved : Time → TransferCommand → Db → Option Uuid → Db → Type 0
Resolved now c db none db' = Reserved now c.sender_id c.key c.request_fingerprint db true db'
Resolved now c db (some id) db' = Answers c id db × (db' ≡ db)

module _ {S : Type 0} (p : Platform S) where
  judge-ok :
      (c : TransferCommand) (row : TransferIdempotency) (w : World S) (o : Option Uuid)
      {w' : World S}
      → judge_existing p c row w ≡ (ok o, w')
      → (id : Uuid) × (o ≡ some id)
        × (row.request_fingerprint ≡ c.request_fingerprint)
        × (row.status ≡ IdempotencyStatus.completed)
        × (row.transaction_id ≡ some id)
        × (w ≡ w')
  judge-ok c row w none h = absurd (ground arith)
  judge-ok c row w (some id) h = (
    id,
    refl,
    (eq_bytes_iff row.request_fingerprint c.request_fingerprint).0 (ground arith),
    ground arith,
    ground arith,
    ground arith,
  )

  -- An existing row answers only a request with its fingerprint.
  answered :
      (c : TransferCommand) (w : World S) (o : Option Uuid) {w' : World S}
      → after_reserve p c false w ≡ (ok o, w')
      → (id : Uuid) × (o ≡ some id) × Answers c id w.tx_db × (w'.tx_db ≡ w.tx_db)
  answered c w o h =
      let (row, u, ran, rest) = bind-ok (get_idempotency c.sender_id c.key) _ w h in
      let (found, kept) = get_idempotency-ok c.sender_id c.key w ran in
      let (id, result, same, finished, recorded, stays) = judge-ok c row u o rest in
      (
        id,
        result,
        record {
          row = row;
          found = found;
          same_request = same;
          finished = finished;
          result = recorded;
        },
        ap (λ (x : World S). x.tx_db) (sym stays) ∙ kept,
      )

  after_reserve-ok :
      (c : TransferCommand) (now : Time) (db : Db) (w : World S) (created : Bool) (o : Option Uuid)
      {w' : World S}
      → Reserved now c.sender_id c.key c.request_fingerprint db created w.tx_db
      → after_reserve p c created w ≡ (ok o, w')
      → Resolved now c db o w'.tx_db
  after_reserve-ok c now db w true none r e =
      (r.0, ap (λ (t : Outcome (Option Uuid) × World S). t.1.tx_db) (sym e) ∙ r.1)
  after_reserve-ok c now db w true (some id) r e = absurd (ground arith)
  after_reserve-ok c now db w false none r e =
      let (id, impossible, _, _) = answered c w none e in absurd (cc impossible)
  after_reserve-ok c now db w false (some id) r e =
      let (id', result, answer, kept) = answered c w (some id) e in
      let same : id' ≡ id = cc result in (subst₂ (λ i d. Answers c i d) same r.1 answer, kept ∙ r.1)

  resolve-ok :
      (c : TransferCommand) (w : World S) (o : Option Uuid) {w' : World S}
      → resolve_idempotency p c w ≡ (ok o, w')
      → Resolved w.clock c w.tx_db o w'.tx_db
  unfolding resolve_idempotency
  resolve-ok c w o h =
      let (created, w1, ran, rest) =
        bind-ok (try_create_idempotency c.sender_id c.key c.request_fingerprint) _ w h in
      after_reserve-ok c w.clock w.tx_db w1 created o
        (try_create_idempotency-ok c.sender_id c.key c.request_fingerprint w created ran) rest

  -- How a successful call ended: with a new transfer, or with the result of an earlier one.
  abbrev pub Done : Time → TransferCommand → Bytes → Db → Db → Type 0
  Done now c result db db' =
      (id : Uuid) × (result ≡ p.uuid_string id)
      × (Transferred now c id db db' ⊎ (Answers c id db × (db' ≡ db)))

  check_once-tx :
      (id : Uuid) (w : World S) {w' : World S}
      → check_rate_limit_once p id w ≡ (ok tt, w')
      → (w'.tx_db ≡ w.tx_db) × (w'.clock ≡ w.clock)
  unfolding check_rate_limit_once
  check_once-tx id w h = ground arith

  finish-ok :
      (c : TransferCommand) (now : Time) (db : Db) (w : World S) (o : Option Uuid) {result : Bytes}
      {w' : World S}
      → c.sender_id ≢ c.receiver_id
      → IsValid db.accounts
      → w.clock ≡ now
      → w.db ≡ db
      → Resolved now c db o w.tx_db
      → finish_attempt p c o w ≡ (ok result, w')
      → Done now c result db w'.db
  unfolding finish_attempt
  finish-ok c now db w (some id) distinct valid clock same resolved h = (
    id,
    ground arith,
    inr (resolved.0, ap (λ (t : Outcome Bytes × World S). t.1.db) (sym h) ∙ same),
  )
  finish-ok c now db w none distinct valid clock same resolved h =
      let (_, w1, ran1, h1) = bind-ok (check_rate_limit_once p c.sender_id) _ w h in
      let (tx, w2, ran2, h2) = bind-ok (execute_transfer p c) _ w1 h1 in
      let (_, w3, ran3, h3) = bind-ok (complete_idempotency c.sender_id c.key tx.id) _ w2 h2 in
      let (_, w4, ran4, h4) = bind-ok commit _ w3 h3 in
      let (tx_same, clock1) = check_once-tx c.sender_id w ran1 in
      let clock2 = (SameOutside-ran (execute_transfer p c) (Frame-execute p c) w1 ran2).clock in
      (
        tx.id,
        ground arith,
        inl (
            transferred now c tx.id db w1.tx_db w2.tx_db _ distinct valid
              (resolved.0, tx_same ∙ resolved.1)
              (subst (λ t. Executed t c tx.id w1.tx_db w2.tx_db) (clock1 ∙ clock)
                (execute_transfer-ok p c w1 ran2))
              (ap (λ (t : Outcome Bytes × World S). t.1.db) (sym h4)
                ∙ commit-ok w3 ran4
                ∙ subst
                    (λ t. w3.tx_db ≡ record w2.tx_db {
                      transfer_idempotency =
                          update_where (open_row c.sender_id c.key) (complete_row t tx.id)
                            w2.tx_db.transfer_idempotency;
                    })
                    (clock2 ∙ clock1 ∙ clock)
                    (complete_idempotency-ok c.sender_id c.key tx.id w2 ran3))),
      )

  -- A successful attempt, from a committed table of accounts that is valid.
  pub attempt-ok :
      (c : TransferCommand) (w : World S) {result : Bytes} {w' : World S}
      → IsValid w.db.accounts
      → transfer_attempt p c w ≡ (ok result, w')
      → Done w.clock c result w.db w'.db
  unfolding transfer_attempt attempt_body
  attempt-ok c w valid h =
      let (_, w1, ran1, h1) = bind-ok new_tx _ w h in
      let (w5, body, committed) = deferring-ok (attempt_body p c) w1 h1 in
      let (_, w2, ran2, h2) =
        bind-ok (guard (not (c.sender_id == c.receiver_id)) same_account) _ w1 body in
      let (_, w3, ran3, h3) = bind-ok (lock_for_transfer c.sender_id c.receiver_id) _ w2 h2 in
      let (o, w4, ran4, h4) = bind-ok (resolve_idempotency p c) _ w3 h3 in
      let (apart, w1w2) = guard-ok (not (c.sender_id == c.receiver_id)) same_account w1 ran2 in
      let began = SameOutside-ran new_tx Frame-new_tx w ran1 in
      let locked =
        SameOutside-ran (lock_for_transfer c.sender_id c.receiver_id)
          (Frame-lock_for_transfer c.sender_id c.receiver_id) w2 ran3 in
      let resolved = SameOutside-ran (resolve_idempotency p c) (Frame-resolve p c) w3 ran4 in
      let tables : w3.tx_db ≡ w.db =
        lock_for_transfer-ok c.sender_id c.receiver_id w2 ran3
        ∙ ap (λ (x : World S). x.tx_db) (sym w1w2)
        ∙ (new_tx-ok w ran1).0 in
      let clock : w3.clock ≡ w.clock =
        locked.clock ∙ ap (λ (x : World S). x.clock) (sym w1w2) ∙ began.clock in
      let same : w3.db ≡ w.db = locked.db ∙ ap (λ (x : World S). x.db) (sym w1w2) ∙ began.db in
      subst (Done w.clock c _ w.db) (sym committed) (
        finish-ok c w.clock w.db w4 o (ground (arith, apart)) valid (resolved.clock ∙ clock)
          (resolved.db ∙ same)
          (subst₂ (λ t d. Resolved t c d o w4.tx_db) clock tables (resolve-ok c w3 o ran4)) h4)
