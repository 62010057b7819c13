-- ===== src/Storage/Accounts/Progress.antt =====
-- storage.go, `Sub` and `Add` forwards: their results where no error is raised.
use payment_processing.Prelude.{
  ℕ, ◌<◌, ◌≡◌, refl, subst, Bool, true, false, some, List, [], ◌∷◌, exists_row, all_rows,
  count_where, ok, ltb, ◌==◌, Bool-cases, inl, inr, arith,
}
use payment_processing.Prelude.Int.{ℤ, pos, ◌+ℤ◌, ◌-ℤ◌, ◌≤ℤ◌}
use payment_processing.Decimal.{Decimal}
use payment_processing.Domain.{Uuid}
use payment_processing.Storage.Tables.{AccountRow, Db, units, in_precision, not_negative}
use payment_processing.Storage.Session.{World, statement}
use payment_processing.Storage.Accounts.{sub, add}
use payment_processing.Storage.Accounts.Balances.{balance_of, IsValid, update_where-absent}
use payment_processing.Storage.Accounts.Exchange.{
  may_pay, debit, credit, debit-IsValid, credit-IsValid, is_id,
}

-- A session with no error in store, over given tables.
abbrev pub session : {S : Type 0} → World S → Db → World S
session w db = record w { faults = []; tx_db = db }

-- The precision of the balance column, over a table.
abbrev pub are_precise : List AccountRow → Bool
are_precise rs = all_rows (λ r. in_precision r.balance) rs

IsValid-not_negative :
    (rs : List AccountRow) → IsValid rs → all_rows (λ r. not_negative r.balance) rs ≡ true
IsValid-not_negative [] h = refl
IsValid-not_negative (r ∷ rs) h = ground (arith, IsValid-not_negative rs h.2)

count_where-found :
    (p : AccountRow → Bool) (id : Uuid) (b : ℤ)
    → ((r : AccountRow) → r.id ≡ id → r.balance ≡ b → p r ≡ true)
    → (rs : List AccountRow) → balance_of id rs ≡ some b
    → 0 < count_where p rs
unfolding balance_of
count_where-found p id b hits [] h = cc
count_where-found p id b hits (r ∷ rs) h = ground (arith, hits r, count_where-found p id b hits rs)

smaller : (u b : ℤ) → pos 0 ≤ℤ u → u ≤ℤ b → in_precision b ≡ true → in_precision (b -ℤ u) ≡ true
unfolding ◌-ℤ◌
smaller u b h k p = ground arith

pub debit-precise :
    (s : Uuid) (u : ℤ) (rs : List AccountRow)
    → pos 0 ≤ℤ u
    → are_precise rs ≡ true
    → are_precise (debit s u rs) ≡ true
debit-precise s u [] g h = refl
debit-precise s u (r ∷ rs) g h = ground (arith, smaller u r.balance, debit-precise s u rs)

credit-precise :
    (id : Uuid) (u c : ℤ) (rs : List AccountRow)
    → IsValid rs
    → balance_of id rs ≡ some c
    → in_precision (c +ℤ u) ≡ true
    → are_precise rs ≡ true
    → are_precise (credit id u rs) ≡ true
unfolding balance_of
credit-precise id u c [] v f g h = refl
credit-precise id u c (r ∷ rs) v f g h = elim (Bool-cases (r.id == id)) [
  | inl hit ↦
      let here : r.id ≡ id = ground arith in
      let absent : exists_row (λ x. x.id == id) rs ≡ false =
        subst (λ (k : ℕ). exists_row (λ x. x.id == k) rs ≡ false) here v.1 in
      let rest : credit id u rs ≡ rs =
        update_where-absent (λ x. x.id == id) (λ b. b +ℤ u) id (is_id id) rs absent in
      let balance : r.balance ≡ c = ground arith in rw (hit, rest, balance) (ground arith)
  | inr miss ↦ ground (arith, credit-precise id u c rs v.2)
]

pub exists_row-found :
    (id : Uuid) (b : ℤ) (rs : List AccountRow)
    → balance_of id rs ≡ some b
    → exists_row (λ r. r.id == id) rs ≡ true
unfolding balance_of
exists_row-found id b [] h = cc
exists_row-found id b (r ∷ rs) h = ground (arith, exists_row-found id b rs)

pays :
    (s : Uuid) (u : ℤ) (r : AccountRow) (b : ℤ)
    → r.id ≡ s
    → r.balance ≡ b
    → u ≤ℤ b
    → may_pay s u r ≡ true
pays s u r b e k h = rw k (ground arith)

module _ {S : Type 0} (w : World S) (db : Db) where
  pub sub-run :
      (s : Uuid) (amount : Decimal) (b : ℤ)
      → IsValid db.accounts
      → are_precise db.accounts ≡ true
      → balance_of s db.accounts ≡ some b
      → pos 0 ≤ℤ units amount
      → units amount ≤ℤ b
      → sub s amount (session w db)
        ≡ (ok tt, session w (record db { accounts = debit s (units amount) db.accounts }))
  unfolding sub statement
  sub-run s amount b valid precise found positive covered =
      let some_row : ltb 0 (count_where (may_pay s (units amount)) db.accounts) ≡ true = ground (
        arith,
        count_where-found (may_pay s (units amount)) s b (λ r e k. pays s _ r b e k covered)
            db.accounts found,
      ) in
      rw
        (
          debit-precise s (units amount) db.accounts positive precise,
          IsValid-not_negative (debit s (units amount) db.accounts)
              (debit-IsValid s (units amount) db.accounts valid),
        )
        (rw some_row)

  pub add-run :
      (id : Uuid) (amount : Decimal) (c : ℤ)
      → IsValid db.accounts
      → are_precise db.accounts ≡ true
      → balance_of id db.accounts ≡ some c
      → pos 0 ≤ℤ units amount
      → in_precision (c +ℤ units amount) ≡ true
      → add id amount (session w db)
        ≡ (ok tt, session w (record db { accounts = credit id (units amount) db.accounts }))
  unfolding add statement
  add-run id amount c valid precise found positive fits =
      let some_row : ltb 0 (count_where (λ r. r.id == id) db.accounts) ≡ true = ground (
        arith,
        count_where-found (λ r. r.id == id) id c (λ r e k. ground arith) db.accounts found,
      ) in
      rw
        (
          credit-precise id (units amount) c db.accounts valid found fits precise,
          IsValid-not_negative (credit id (units amount) db.accounts)
              (credit-IsValid id (units amount) db.accounts valid positive),
        )
        (rw some_row)
