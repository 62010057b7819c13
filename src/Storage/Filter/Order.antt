-- ===== src/Storage/Filter/Order.antt =====
-- `ORDER BY created_at DESC`: the order of a listing.
use payment_processing.Prelude.{
  ℕ, zero, suc, ◌≤◌, List, [], ◌∷◌, leb, Bool-cases, inl, inr, All, All-map, arith, take, drop,
}
use payment_processing.Storage.Tables.{TransactionRow}
use payment_processing.Storage.Filter.{newest_first, sorted}

-- No row is older than one behind it.
abbrev pub IsNewestFirst : List TransactionRow → Type 0
IsNewestFirst [] = Unit
IsNewestFirst (r ∷ rs) = All (λ x. x.created_at ≤ r.created_at) rs × IsNewestFirst rs

newest_first-All :
    (bound : ℕ) (r : TransactionRow) (rs : List TransactionRow)
    → r.created_at ≤ bound
    → All (λ x. x.created_at ≤ bound) rs
    → All (λ x. x.created_at ≤ bound) (newest_first r rs)
newest_first-All bound r [] h k = (h, tt)
newest_first-All bound r (x ∷ xs) h k = elim (Bool-cases (leb x.created_at r.created_at)) [
  | inl newer ↦ rw newer (h, k)
  | inr older ↦ rw older (k.0, newest_first-All bound r xs h k.1)
]

All-older :
    (low high : ℕ) (rs : List TransactionRow)
    → low ≤ high
    → All (λ x. x.created_at ≤ low) rs
    → All (λ x. x.created_at ≤ high) rs
All-older low high rs h k =
    All-map (λ (x : TransactionRow). x.created_at ≤ low) (λ x. x.created_at ≤ high) rs
      (λ x before. omega (arith, h, before)) k

newest_first-IsNewestFirst :
    (r : TransactionRow) (rs : List TransactionRow)
    → IsNewestFirst rs
    → IsNewestFirst (newest_first r rs)
newest_first-IsNewestFirst r [] h = (tt, tt)
newest_first-IsNewestFirst r (x ∷ xs) h = elim (Bool-cases (leb x.created_at r.created_at)) [
  | inl newer ↦
      let order : x.created_at ≤ r.created_at = ground (arith, newer) in
      rw newer ((order, All-older x.created_at r.created_at xs order h.0), h)
  | inr older ↦
      let order : r.created_at ≤ x.created_at = ground (arith, older) in
      rw older (newest_first-All x.created_at r xs order h.0, newest_first-IsNewestFirst r xs h.1)
]

pub sorted-IsNewestFirst : (rs : List TransactionRow) → IsNewestFirst (sorted rs)
sorted-IsNewestFirst [] = tt
sorted-IsNewestFirst (r ∷ rs) = newest_first-IsNewestFirst r (sorted rs) (sorted-IsNewestFirst rs)

pub drop-IsNewestFirst :
    (n : ℕ) (rs : List TransactionRow) → IsNewestFirst rs → IsNewestFirst (drop n rs)
drop-IsNewestFirst zero rs h = h
drop-IsNewestFirst (suc n) [] h = tt
drop-IsNewestFirst (suc n) (r ∷ rs) h = drop-IsNewestFirst n rs h.1

take-All :
    (bound n : ℕ) (rs : List TransactionRow)
    → All (λ x. x.created_at ≤ bound) rs
    → All (λ x. x.created_at ≤ bound) (take n rs)
take-All bound zero rs h = tt
take-All bound (suc n) [] h = tt
take-All bound (suc n) (r ∷ rs) h = (h.0, take-All bound n rs h.1)

pub take-IsNewestFirst :
    (n : ℕ) (rs : List TransactionRow) → IsNewestFirst rs → IsNewestFirst (take n rs)
take-IsNewestFirst zero rs h = tt
take-IsNewestFirst (suc n) [] h = tt
take-IsNewestFirst (suc n) (r ∷ rs) h =
    (take-All r.created_at n rs h.0, take-IsNewestFirst n rs h.1)
