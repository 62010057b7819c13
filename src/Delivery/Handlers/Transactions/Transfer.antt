-- ===== src/Delivery/Handlers/Transactions/Transfer.antt =====
-- transaction_handler.go, `Transfer`: its answers, and what then is committed.
use payment_processing.Prelude.{
  ℕ, ◌≡◌, ◌⊎◌, refl, subst, Bool, true, false, some, inl, inr, [], ◌∷◌, Bytes, Result, ok, err,
  arith,
}
use payment_processing.Decimal.{Decimal}
use payment_processing.Decimal.Parse.{ParseError, new_from_string}
use payment_processing.Domain.{Error, Outcome, Uuid}
use payment_processing.Storage.Tables.{Db}
use payment_processing.Storage.Session.{World, M}
use payment_processing.Storage.Accounts.Balances.{IsValid}
use payment_processing.Usecase.Transfers.{transfer, transfer_command}
use payment_processing.Usecase.Transfers.Outcomes.{Done}
use payment_processing.Usecase.Transfers.Loop.{Accounted, transfer-Accounted}
use payment_processing.Delivery.Responses.{Writer, transfer_body, write_error, write_json}
use payment_processing.Delivery.Requests.{Request, Identity, TransferDto, decode_json}
use payment_processing.Delivery.Handlers.{App, answer_error, uuid_of}
use payment_processing.Delivery.Handlers.Rules.{checking-rule, calling-rule, identity_known}
use payment_processing.Delivery.Handlers.Transactions.{
  amount_outcome, handle_transfer, transfer_refusal, transfer_status,
}

amount-parsed :
    (parsed : Result ParseError Decimal) {d : Decimal}
    → amount_outcome parsed ≡ ok d
    → parsed ≡ ok d
amount-parsed (ok d) h = cc
amount-parsed (err e) h = cc

module _ {S : Type 0} (app : App S) where
  -- A transfer that the request asks for, as the user whom the middleware has found, and the answer
  -- that names it.
  pub record Transferring (r : Request) (w : World S) (answer : Writer) (db : Db) : Type 0 where
    pub identity : Identity
    pub sender_id : Uuid
    pub dto : TransferDto
    pub amount : Decimal
    pub result : Bytes
    pub known : r.identity ≡ some identity
    pub sender : uuid_of app.codecs identity.user_id ≡ ok sender_id
    pub decoded : decode_json app.codecs app.codecs.decode_transfer r.body ≡ ok dto
    pub parsed : new_from_string dto.amount ≡ ok amount
    pub done :
        Done app.platform w.clock
          (transfer_command app.platform sender_id dto.receiver_id r.idempotency_key amount)
          result
          w.db
          db
    pub created : answer.status ≡ some 201
    pub named : answer.body ≡ transfer_body result ∷ []

  -- An error, and nothing committed.
  abbrev pub Refused : World S → Writer × World S → Type 0
  Refused w ran =
      (code : ℕ) × (ran.0.status ≡ some code)
      × ((code ≡ 400) ⊎ (code ≡ 401) ⊎ (code ≡ 409) ⊎ (code ≡ 500))
      × (ran.1.db ≡ w.db)

  abbrev pub Answered : Request → World S → Writer × World S → Type 0
  Answered r w ran = Transferring r w ran.0 ran.1.db ⊎ Refused w ran

  refused :
      (w : World S) (code : ℕ) (flag : Bool) (e : Error)
      → ((code ≡ 400) ⊎ (code ≡ 401) ⊎ (code ≡ 409) ⊎ (code ≡ 500))
      → Refused w (answer_error code flag e, w)
  unfolding write_error
  refused w code flag e h = (code, refl, h, refl)

  transfer_status-known :
      (e : Error)
      → let code = transfer_status e in (code ≡ 400) ⊎ (code ≡ 401) ⊎ (code ≡ 409) ⊎ (code ≡ 500)
  unfolding transfer_status
  transfer_status-known e = ground arith

  abbrev asked : Uuid → TransferDto → Request → Decimal → M S Bytes
  asked sender_id dto r amount =
      transfer app.platform sender_id dto.receiver_id r.idempotency_key amount

  accounted :
      (sender_id : Uuid) (dto : TransferDto) (r : Request) (amount : Decimal) (w : World S)
      → IsValid w.db.accounts
      → {o : Outcome Bytes} {w' : World S} → asked sender_id dto r amount w ≡ (o, w')
      → Accounted app.platform w.clock
          (transfer_command app.platform sender_id dto.receiver_id r.idempotency_key amount)
          o
          w.db
          w'.db
  accounted sender_id dto r amount w valid ran =
      subst
        (λ (t : Outcome Bytes × World S).
          Accounted app.platform w.clock
            (transfer_command app.platform sender_id dto.receiver_id r.idempotency_key amount) t.0
            w.db t.1.db)
        ran
        (transfer-Accounted app.platform sender_id dto.receiver_id r.idempotency_key amount w valid)

  failed :
      (sender_id : Uuid) (dto : TransferDto) (r : Request) (amount : Decimal) (w : World S)
      → IsValid w.db.accounts
      → {e : Error} {w' : World S} → asked sender_id dto r amount w ≡ (err e, w')
      → Refused w (transfer_refusal e, w')
  unfolding write_error
  failed sender_id dto r amount w valid {e = e} ran = (
    transfer_status e,
    refl,
    transfer_status-known e,
    accounted sender_id dto r amount w valid ran,
  )

  -- Over a valid table of accounts, a request for a transfer is either answered with status 201
  -- and the id, and then the transfer of the amount in its body under its key, from the user of
  -- the request to the receiver in its body, is done; or it is answered with 400, 401, 409 or
  -- 500, and nothing is committed. The body of the answer has a JSON form.
  pub handle_transfer-Answered :
      ((result : Bytes) → app.codecs.encoded (transfer_body result) ≡ true)
      → (r : Request) (w : World S) → IsValid w.db.accounts
      → Answered r w (handle_transfer app r w)
  unfolding handle_transfer write_json
  handle_transfer-Answered texts r w valid =
      checking-rule (Answered r w) _ _ _ (λ e _. inr (refused w 401 false e (inr (inl refl))))
        (λ identity known.
          checking-rule (Answered r w) _ _ _ (λ e _. inr (refused w 400 false e (inl refl)))
            (λ sender_id sender.
              checking-rule (Answered r w) _ _ _ (λ e _. inr (refused w 400 true e (inl refl)))
                (λ _ _.
                  checking-rule (Answered r w) _ _ _ (λ e _. inr (refused w 400 false e (inl refl)))
                    (λ dto decoded.
                      checking-rule (Answered r w) _ _ _
                        (λ e _. inr (refused w 400 false e (inl refl)))
                        (λ amount parsed.
                          calling-rule (Answered r w)
                            (transfer app.platform sender_id dto.receiver_id r.idempotency_key
                              amount)
                            _ _ (λ e w' ran. inr (failed sender_id dto r amount w valid ran))
                            (λ result w' ran. inl (record {
                              identity = identity;
                              sender_id = sender_id;
                              dto = dto;
                              amount = amount;
                              result = result;
                              known = identity_known r known;
                              sender = sender;
                              decoded = decoded;
                              parsed = amount-parsed (new_from_string dto.amount) parsed;
                              done = accounted sender_id dto r amount w valid ran;
                              created = rw (texts result) refl;
                              named = rw (texts result) refl;
                            })))))))
