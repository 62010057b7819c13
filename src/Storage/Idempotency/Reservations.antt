-- ===== src/Storage/Idempotency/Reservations.antt =====
-- What the statements on the table of transfer results do where they succeed.
use payment_processing.Prelude.{
  ℕ, ◌≡◌, sym, ◌∙◌, ap, Bool, true, false, ◌&&◌, Option, none, some, [], ◌∷◌, ◌++◌, Bytes,
  exists_row, find, update_where, ok, ◌==◌, arith,
}
use payment_processing.Domain.{Uuid, Time, TransferIdempotency, other_error}
use payment_processing.Storage.Tables.{Db}
use payment_processing.Storage.Session.{World, statement, guard}
use payment_processing.Storage.Session.Frames.{statement-ok, bind-ok, guard-ok, Frame, frame_rules}
use payment_processing.Storage.Idempotency.{
  has_key, is_processing, fresh_row, complete_row, reserve, complete, try_create_idempotency,
  get_idempotency, complete_idempotency, row_or_missing,
}

abbrev pub open_row : Uuid → Bytes → TransferIdempotency → Bool
open_row s key r = has_key s key r && is_processing r

-- A reservation either finds the key taken and changes nothing, or adds a row for it.
abbrev pub Reserved : Time → Uuid → Bytes → Bytes → Db → Bool → Db → Type 0
Reserved now s key fingerprint db true db' =
    (exists_row (has_key s key) db.transfer_idempotency ≡ false)
    × (db' ≡ record db {
      transfer_idempotency = db.transfer_idempotency ++ (fresh_row now s key fingerprint ∷ []);
    })
Reserved now s key fingerprint db false db' =
    (exists_row (has_key s key) db.transfer_idempotency ≡ true) × (db' ≡ db)

reserve-ok :
    (now : Time) (s : Uuid) (key fingerprint : Bytes) (db : Db) (created : Bool) {db' : Db}
    → reserve now s key fingerprint db ≡ ok (created, db')
    → Reserved now s key fingerprint db created db'
unfolding reserve
reserve-ok now s key fingerprint db true h = ground arith
reserve-ok now s key fingerprint db false h = ground arith

complete-ok :
    (now : Time) (s : Uuid) (key : Bytes) (id : Uuid) (db : Db) {n : ℕ} {db' : Db}
    → complete now s key id db ≡ ok (n, db')
    → n ≡ 1
    → db' ≡ record db {
      transfer_idempotency =
          update_where (open_row s key) (complete_row now id) db.transfer_idempotency;
    }
unfolding complete
complete-ok now s key id db h one = ground arith

row_or_missing-ok :
    (db : Db) (o : Option TransferIdempotency) {r : TransferIdempotency} {db' : Db}
    → row_or_missing db o ≡ ok (r, db')
    → (o ≡ some r) × (db' ≡ db)
row_or_missing-ok db none h = cc
row_or_missing-ok db (some r') h = ground arith

module _ {S : Type 0} where
  pub try_create_idempotency-ok :
      (s : Uuid) (key fingerprint : Bytes) (w : World S) (created : Bool) {w' : World S}
      → try_create_idempotency s key fingerprint w ≡ (ok created, w')
      → Reserved w.clock s key fingerprint w.tx_db created w'.tx_db
  unfolding try_create_idempotency
  try_create_idempotency-ok s key fingerprint w created h =
      reserve-ok w.clock s key fingerprint w.tx_db created
        (statement-ok (λ now. reserve now s key fingerprint) w h)

  pub get_idempotency-ok :
      (s : Uuid) (key : Bytes) (w : World S) {r : TransferIdempotency} {w' : World S}
      → get_idempotency s key w ≡ (ok r, w')
      → (find (has_key s key) w.tx_db.transfer_idempotency ≡ some r) × (w'.tx_db ≡ w.tx_db)
  unfolding get_idempotency
  get_idempotency-ok s key w h =
      row_or_missing-ok w.tx_db (find (has_key s key) w.tx_db.transfer_idempotency) (
        statement-ok (λ now db. row_or_missing db (find (has_key s key) db.transfer_idempotency)) w
          h)

  pub complete_idempotency-ok :
      (s : Uuid) (key : Bytes) (id : Uuid) (w : World S) {w' : World S}
      → complete_idempotency s key id w ≡ (ok tt, w')
      → w'.tx_db ≡ record w.tx_db {
        transfer_idempotency =
            update_where (open_row s key) (complete_row w.clock id) w.tx_db.transfer_idempotency;
      }
  unfolding complete_idempotency
  complete_idempotency-ok s key id w h =
      let run = λ (now : Time). complete now s key id in
      let (rows, u, ran, done) =
        bind-ok (statement run) (λ rows. guard (rows == 1) other_error) w h in
      let (one, same) = guard-ok (rows == 1) other_error u done in
      ap (λ (x : World S). x.tx_db) (sym same)
      ∙ complete-ok w.clock s key id w.tx_db (statement-ok run w ran) (ground arith)

  pub Frame-try_create_idempotency :
      (s : Uuid) (key fingerprint : Bytes)
      → Frame {S = S} (try_create_idempotency s key fingerprint)
  unfolding try_create_idempotency
  Frame-try_create_idempotency s key fingerprint = search frame_rules

  pub Frame-get_idempotency : (s : Uuid) (key : Bytes) → Frame {S = S} (get_idempotency s key)
  unfolding get_idempotency
  Frame-get_idempotency s key = search frame_rules

  pub Frame-complete_idempotency :
      (s : Uuid) (key : Bytes) (id : Uuid) → Frame {S = S} (complete_idempotency s key id)
  unfolding complete_idempotency
  Frame-complete_idempotency s key id = search frame_rules
