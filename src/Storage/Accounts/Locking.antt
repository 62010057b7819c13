-- ===== src/Storage/Accounts/Locking.antt =====
-- The order in which a transfer locks its two accounts.
use payment_processing.Prelude.{
  ◌≤◌, ◌≡◌, refl, ap, ◌||◌, List, [], ◌∷◌, ◌++◌, ok, err, All, All-map, select, leb, ◌==◌,
  Bool-cases, inl, inr, arith,
}
use payment_processing.Domain.{Outcome, Uuid}
use payment_processing.Storage.Tables.{AccountRow, Db}
use payment_processing.Storage.Session.{World, ◌>>=◌, statement, first_fault, later, continue}
use payment_processing.Storage.Accounts.{insert_by_id, order_by_id, locked_rows, lock_for_transfer}

abbrev pub IsAscending : List Uuid → Type 0
IsAscending [] = Unit {0}
IsAscending (x ∷ xs) = All (λ y. x ≤ y) xs × IsAscending xs

All-insert :
    (x id : Uuid) (xs : List Uuid)
    → x ≤ id
    → All (λ y. x ≤ y) xs
    → All (λ y. x ≤ y) (insert_by_id id xs)
unfolding insert_by_id
All-insert x id [] h k = (h, tt)
All-insert x id (y ∷ ys) h k = elim (Bool-cases (leb id y)) [
  | inl before ↦ rw before (h, k)
  | inr after ↦ rw after (k.0, All-insert x id ys h k.1)
]

insert-IsAscending :
    (id : Uuid) (xs : List Uuid) → IsAscending xs → IsAscending (insert_by_id id xs)
unfolding insert_by_id
insert-IsAscending id [] h = (tt, tt)
insert-IsAscending id (x ∷ xs) h = elim (Bool-cases (leb id x)) [
  | inl before ↦
      let below : id ≤ x = ground arith in
      rw before ((below, All-map (λ y. x ≤ y) (λ y. id ≤ y) xs (λ y k. omega arith) h.0), h)
  | inr after ↦
      let above : x ≤ id = ground arith in
      rw after (All-insert x id xs above h.0, insert-IsAscending id xs h.1)
]

order-IsAscending : (rs : List AccountRow) → IsAscending (order_by_id rs)
unfolding order_by_id
order-IsAscending [] = tt
order-IsAscending (r ∷ rs) = insert-IsAscending r.id (order_by_id rs) (order-IsAscending rs)

select-swap :
    (a b : Uuid) (rs : List AccountRow)
    → select (λ r. (r.id == a) || (r.id == b)) rs ≡ select (λ r. (r.id == b) || (r.id == a)) rs
select-swap a b [] = refl
select-swap a b (r ∷ rs) = ground (arith, select-swap a b rs)

rows-IsAscending : (a b : Uuid) (db : Db) → IsAscending (locked_rows a b db)
unfolding locked_rows
rows-IsAscending a b db = order-IsAscending (select (λ r. (r.id == a) || (r.id == b)) db.accounts)

locked_rows-swap : (a b : Uuid) (db : Db) → locked_rows a b db ≡ locked_rows b a db
unfolding locked_rows
locked_rows-swap a b db = ap order_by_id (select-swap a b db.accounts)

module _ {S : Type 0} where
  -- The statement with the rows that it finds.
  abbrev lock_ids : (Db → List Uuid) → Outcome (Unit {0}) → World S → Outcome (Unit {0}) × World S
  lock_ids ids f w =
      (continue f (λ _ v. (ok (ids v.tx_db), v)) >>= λ found v.
      (ok tt, record v { locked = v.locked ++ found }))
        w

  lock_ids-IsAscending :
      (ids : Db → List Uuid) (f : Outcome (Unit {0})) (w : World S)
      → w.locked ≡ []
      → IsAscending (ids w.tx_db)
      → IsAscending (lock_ids ids f w).1.locked
  lock_ids-IsAscending ids (ok _) w none_locked h = rw none_locked h
  lock_ids-IsAscending ids (err e) w none_locked h = rw none_locked tt

  -- In a transaction without locks, transfers between two accounts in either direction lock the
  -- same rows in the same order, that of their ids.
  pub lock_order :
      (a b : Uuid) (w : World S)
      → w.locked ≡ []
      → (lock_for_transfer a b w ≡ lock_for_transfer b a w)
        × IsAscending (lock_for_transfer a b w).1.locked
  unfolding lock_for_transfer statement
  lock_order a b w none_locked =
      let started = record w { faults = later w.faults } in
      (
        λ i. lock_ids (λ db. locked_rows-swap a b db i) (first_fault w.faults) started,
        lock_ids-IsAscending (locked_rows a b) (first_fault w.faults) started none_locked
            (rows-IsAscending a b w.tx_db),
      )
