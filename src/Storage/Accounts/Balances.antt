-- ===== src/Storage/Accounts/Balances.antt =====
-- The balances under an UPDATE of one account: its own balance, those of the others, their sum.
use payment_processing.Prelude.{
  ℕ, ◌<◌, ◌≡◌, ◌≢◌, refl, subst, Bool, true, false, Option, none, some, List, [], ◌∷◌, exists_row,
  update_where, count_where, ◌==◌, if◌then◌else◌, Bool-cases, inl, inr, arith, ok,
}
use payment_processing.Prelude.Int.{ℤ, pos, ◌+ℤ◌, ◌≤ℤ◌, int_laws}
use payment_processing.Domain.{Uuid}
use payment_processing.Storage.Tables.{AccountRow, Db}
use payment_processing.Storage.Accounts.{update_balance}

unfoldable pub balance_of : Uuid → List AccountRow → Option ℤ
balance_of id [] = none
balance_of id (r ∷ rs) = if r.id == id then some r.balance else balance_of id rs

unfoldable pub total : List AccountRow → ℤ
total [] = pos 0
total (r ∷ rs) = r.balance +ℤ total rs

-- The primary key and the CHECK on balances.
abbrev pub IsValid : List AccountRow → Type 0
IsValid [] = Unit {0}
IsValid (r ∷ rs) = (pos 0 ≤ℤ r.balance) × (exists_row (λ x. x.id == r.id) rs ≡ false) × IsValid rs

abbrev pub set_balance : (ℤ → ℤ) → AccountRow → AccountRow
set_balance f r = record r { balance = f r.balance }

add_in_front : (x a b s t : ℤ) → a +ℤ b ≡ s +ℤ t → x +ℤ a +ℤ b ≡ x +ℤ s +ℤ t
add_in_front x a b s t h = grind int_laws

module _ (p : AccountRow → Bool) (f : ℤ → ℤ) (id : Uuid)
    (hits : (r : AccountRow) → p r ≡ true → r.id ≡ id) where
  -- A row that is not there is not changed.
  pub update_where-absent :
      (rs : List AccountRow)
      → exists_row (λ x. x.id == id) rs ≡ false
      → update_where p (set_balance f) rs ≡ rs
  update_where-absent [] h = refl
  update_where-absent (r ∷ rs) h = ground (arith, hits r, update_where-absent rs)

  count_where-absent :
      (rs : List AccountRow) → exists_row (λ x. x.id == id) rs ≡ false → count_where p rs ≡ 0
  count_where-absent [] h = refl
  count_where-absent (r ∷ rs) h = ground (arith, hits r, count_where-absent rs)

  pub balance_of-update_ne :
      (rs : List AccountRow) (j : Uuid)
      → j ≢ id
      → balance_of j (update_where p (set_balance f) rs) ≡ balance_of j rs
  unfolding balance_of
  balance_of-update_ne [] j h = refl
  balance_of-update_ne (r ∷ rs) j h = ground (arith, hits r, balance_of-update_ne rs j h)

  -- What an UPDATE of one account has done to the balances.
  abbrev pub Updated : List AccountRow → Type 0
  Updated rs =
      (r : AccountRow) × (p r ≡ true)
      × (balance_of id rs ≡ some r.balance)
      × (balance_of id (update_where p (set_balance f) rs) ≡ some (f r.balance))
      × (total (update_where p (set_balance f) rs) +ℤ r.balance ≡ total rs +ℤ f r.balance)

  Updated-later :
      (r : AccountRow) (rs : List AccountRow)
      → p r ≡ false
      → r.id ≢ id
      → Updated rs
      → Updated (r ∷ rs)
  unfolding balance_of total
  Updated-later r rs miss other (r', hit, before, after, sum) = (
    r',
    hit,
    ground (arith, before),
    rw miss (ground (arith, after)),
    rw miss (add_in_front r.balance _ _ _ _ sum),
  )

  -- An UPDATE that counts a row has found the account, and set its balance alone.
  pub balance_of-update : (rs : List AccountRow) → IsValid rs → 0 < count_where p rs → Updated rs
  unfolding balance_of total
  balance_of-update [] v h = absurd (omega arith)
  balance_of-update (r ∷ rs) v h =
      let absent : r.id ≡ id → exists_row (λ x. x.id == id) rs ≡ false =
        λ here. subst (λ (k : ℕ). exists_row (λ x. x.id == k) rs ≡ false) here v.1 in
      elim (Bool-cases (p r)) [
        | inl hit ↦
            let same = update_where-absent rs (absent (hits r hit)) in
            (
              r,
              hit,
              ground (arith, hits r hit),
              rw hit (ground (arith, hits r hit)),
              rw (hit, same) (omega int_laws),
            )
        | inr miss ↦
            let later : 0 < count_where p rs = ground arith in
            Updated-later r rs miss
              (λ here. absurd (omega (arith, count_where-absent rs (absent here))))
              (balance_of-update rs v.2 later)
      ]

  pub exists_row-update :
      (k : Uuid) (rs : List AccountRow)
      → exists_row (λ x. x.id == k) (update_where p (set_balance f) rs)
        ≡ exists_row (λ x. x.id == k) rs
  exists_row-update k [] = refl
  exists_row-update k (r ∷ rs) = ground (arith, exists_row-update k rs)

  -- The table stays valid if no balance that is set is negative.
  pub update_where-IsValid :
      (rs : List AccountRow)
      → ((r : AccountRow) → p r ≡ true → pos 0 ≤ℤ r.balance → pos 0 ≤ℤ f r.balance)
      → IsValid rs
      → IsValid (update_where p (set_balance f) rs)
  update_where-IsValid [] keep v = tt
  update_where-IsValid (r ∷ rs) keep v = (
    elim (Bool-cases (p r)) [ inl hit ↦ rw hit (keep r hit v.0) | inr miss ↦ rw miss v.0 ],
    ground (arith, exists_row-update r.id rs),
    update_where-IsValid rs keep v.2,
  )

-- An UPDATE that no constraint refuses.
pub update_balance-ok :
    (p : AccountRow → Bool) (f : ℤ → ℤ) (db : Db) {n : ℕ} {db' : Db}
    → update_balance p f db ≡ ok (n, db')
    → (n ≡ count_where p db.accounts)
      × (db' ≡ record db { accounts = update_where p (set_balance f) db.accounts })
unfolding update_balance
update_balance-ok p f db h = ground arith
