-- ===== src/Storage/Accounts/Exchange.antt =====
-- `Sub` and then `Add`: what the two statements of a transfer do to the balances.
use payment_processing.Prelude.{
  ◌<◌, ◌≡◌, ◌≢◌, sym, ◌∙◌, ap, Bool, true, ◌&&◌, some, List, update_where, count_where, ok, ltb,
  ◌==◌, arith,
}
use payment_processing.Prelude.Int.{ℤ, pos, ◌+ℤ◌, ◌-ℤ◌, ◌≤ℤ◌, leb_ℤ, int_laws}
use payment_processing.Decimal.{Decimal}
use payment_processing.Domain.{Uuid, Time, insufficient_funds, receiver_account_not_found}
use payment_processing.Storage.Tables.{AccountRow, units}
use payment_processing.Storage.Session.{World, statement, guard}
use payment_processing.Storage.Session.Frames.{bind-ok, statement-ok, guard-ok, Frame, frame_rules}
use payment_processing.Storage.Accounts.{sub, add, lock_for_transfer, update_balance}
use payment_processing.Storage.Accounts.Balances.{
  balance_of, total, IsValid, balance_of-update, balance_of-update_ne, update_where-IsValid,
  update_balance-ok,
}

abbrev pub may_pay : Uuid → ℤ → AccountRow → Bool
may_pay id u r = (r.id == id) && leb_ℤ u r.balance

abbrev pub debit : Uuid → ℤ → List AccountRow → List AccountRow
debit id u = update_where (may_pay id u) (λ r. record r { balance = r.balance -ℤ u })

abbrev pub credit : Uuid → ℤ → List AccountRow → List AccountRow
credit id u = update_where (λ r. r.id == id) (λ r. record r { balance = r.balance +ℤ u })

-- A table with `u` moved from one account to another.
pub record Exchange (s r : Uuid) (u : ℤ) (rs rs' : List AccountRow) : Type 0 where
  pub paid_from : ℤ
  pub paid_to : ℤ
  pub covered : u ≤ℤ paid_from
  pub sender_before : balance_of s rs ≡ some paid_from
  pub sender_after : balance_of s rs' ≡ some (paid_from -ℤ u)
  pub receiver_before : balance_of r rs ≡ some paid_to
  pub receiver_after : balance_of r rs' ≡ some (paid_to +ℤ u)
  pub others : (j : Uuid) → j ≢ s → j ≢ r → balance_of j rs' ≡ balance_of j rs
  pub conserved : total rs' ≡ total rs
  pub valid : IsValid rs'

pub may_pay-id : (id : Uuid) (u : ℤ) (r : AccountRow) → may_pay id u r ≡ true → r.id ≡ id
may_pay-id id u r h = ground arith

pub is_id : (id : Uuid) (r : AccountRow) → (r.id == id) ≡ true → r.id ≡ id
is_id id r h = ground arith

may_pay-covers : (id : Uuid) (u : ℤ) (r : AccountRow) → may_pay id u r ≡ true → u ≤ℤ r.balance
may_pay-covers id u r h = ground arith

cancel_out : (a b c x y u : ℤ) → a +ℤ x ≡ b +ℤ (x -ℤ u) → c +ℤ y ≡ a +ℤ (y +ℤ u) → c ≡ b
cancel_out a b c x y u h k = grind int_laws

stays_nonneg : (a u : ℤ) → u ≤ℤ a → pos 0 ≤ℤ (a -ℤ u)
stays_nonneg a u h = omega int_laws

grows_nonneg : (a u : ℤ) → pos 0 ≤ℤ a → pos 0 ≤ℤ u → pos 0 ≤ℤ (a +ℤ u)
grows_nonneg a u h k = omega int_laws

pub debit-IsValid : (s : Uuid) (u : ℤ) (rs : List AccountRow) → IsValid rs → IsValid (debit s u rs)
debit-IsValid s u rs valid =
    update_where-IsValid (may_pay s u) (λ b. b -ℤ u) s (may_pay-id s u) rs
      (λ x hit h. stays_nonneg x.balance u (may_pay-covers s u x hit)) valid

pub credit-IsValid :
    (r : Uuid) (u : ℤ) (rs : List AccountRow) → IsValid rs → pos 0 ≤ℤ u → IsValid (credit r u rs)
credit-IsValid r u rs valid gain =
    update_where-IsValid (λ x. x.id == r) (λ b. b +ℤ u) r (is_id r) rs
      (λ x hit h. grows_nonneg x.balance u h gain) valid

module _ (s r : Uuid) (u : ℤ) (rs : List AccountRow) (distinct : s ≢ r) (valid : IsValid rs)
    (gain : pos 0 ≤ℤ u) where
  -- Where both statements find their account, the amount has moved.
  pub exchanged :
      0 < count_where (may_pay s u) rs
      → 0 < count_where (λ x. x.id == r) (debit s u rs)
      → Exchange s r u rs (credit r u (debit s u rs))
  exchanged paid got =
      let (x, hit_x, before_x, after_x, sum_x) =
        balance_of-update (may_pay s u) (λ b. b -ℤ u) s (may_pay-id s u) rs valid paid in
      let (y, hit_y, before_y, after_y, sum_y) =
        balance_of-update (λ z. z.id == r) (λ b. b +ℤ u) r (is_id r) (debit s u rs)
          (debit-IsValid s u rs valid) got in
      record {
        paid_from = x.balance;
        paid_to = y.balance;
        covered = may_pay-covers s u x hit_x;
        sender_before = before_x;
        sender_after = untouched_by_credit (debit s u rs) s distinct ∙ after_x;
        receiver_before = sym (untouched_by_debit r (λ e. distinct (sym e))) ∙ before_y;
        receiver_after = after_y;
        others = λ j js jr. untouched_by_credit (debit s u rs) j jr ∙ untouched_by_debit j js;
        conserved = cancel_out _ _ _ x.balance y.balance u sum_x sum_y;
        valid = credit-IsValid r u (debit s u rs) (debit-IsValid s u rs valid) gain;
      }
    where
      untouched_by_debit : (j : Uuid) → j ≢ s → balance_of j (debit s u rs) ≡ balance_of j rs
      untouched_by_debit = balance_of-update_ne (may_pay s u) (λ b. b -ℤ u) s (may_pay-id s u) rs

      untouched_by_credit :
          (ts : List AccountRow) (j : Uuid) → j ≢ r → balance_of j (credit r u ts) ≡ balance_of j ts
      untouched_by_credit = balance_of-update_ne (λ x. x.id == r) (λ b. b +ℤ u) r (is_id r)

module _ {S : Type 0} where
  -- `Sub` succeeds only by taking the amount from an account that covers it.
  pub sub-ok :
      (s : Uuid) (amount : Decimal) (w : World S) {w' : World S}
      → sub s amount w ≡ (ok tt, w')
      → (0 < count_where (may_pay s (units amount)) w.tx_db.accounts)
        × (w'.tx_db ≡ record w.tx_db { accounts = debit s (units amount) w.tx_db.accounts })
  unfolding sub
  sub-ok s amount w h =
      let run =
        λ (now : Time). update_balance (may_pay s (units amount)) (λ b. b -ℤ units amount) in
      let (rows, u, ran, done) =
        bind-ok (statement run) (λ rows. guard (ltb 0 rows) insufficient_funds) w h in
      let (some_row, same) = guard-ok (ltb 0 rows) insufficient_funds u done in
      let (counted, left) =
        update_balance-ok (may_pay s (units amount)) (λ b. b -ℤ units amount) w.tx_db
          (statement-ok run w ran) in
      (ground (arith, counted), ap (λ (x : World S). x.tx_db) (sym same) ∙ left)

  pub add-ok :
      (r : Uuid) (amount : Decimal) (w : World S) {w' : World S}
      → add r amount w ≡ (ok tt, w')
      → (0 < count_where (λ x. x.id == r) w.tx_db.accounts)
        × (w'.tx_db ≡ record w.tx_db { accounts = credit r (units amount) w.tx_db.accounts })
  unfolding add
  add-ok r amount w h =
      let run = λ (now : Time). update_balance (λ x. x.id == r) (λ b. b +ℤ units amount) in
      let (rows, u, ran, done) =
        bind-ok (statement run) (λ rows. guard (ltb 0 rows) receiver_account_not_found) w h in
      let (some_row, same) = guard-ok (ltb 0 rows) receiver_account_not_found u done in
      let (counted, left) =
        update_balance-ok (λ x. x.id == r) (λ b. b +ℤ units amount) w.tx_db
          (statement-ok run w ran) in
      (ground (arith, counted), ap (λ (x : World S). x.tx_db) (sym same) ∙ left)

  pub Frame-sub : (s : Uuid) (amount : Decimal) → Frame {S = S} (sub s amount)
  unfolding sub
  Frame-sub s amount = search frame_rules

  pub Frame-add : (r : Uuid) (amount : Decimal) → Frame {S = S} (add r amount)
  unfolding add
  Frame-add r amount = search frame_rules

  pub Frame-lock_for_transfer : (a b : Uuid) → Frame {S = S} (lock_for_transfer a b)
  unfolding lock_for_transfer statement
  Frame-lock_for_transfer a b = record { at = λ w. ground arith }

  -- Locking rows changes none.
  pub lock_for_transfer-ok :
      (a b : Uuid) (w : World S) {w' : World S}
      → lock_for_transfer a b w ≡ (ok tt, w')
      → w'.tx_db ≡ w.tx_db
  unfolding lock_for_transfer statement
  lock_for_transfer-ok a b w h = ground arith
