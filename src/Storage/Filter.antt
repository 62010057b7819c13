-- ===== src/Storage/Filter.antt =====
-- helper.go `sqlrequest`, and `GetTransactions` of storage.go: the filtered listing of transactions.
pub mod Selection
pub mod Order
pub mod Listing
mod Tests
use payment_processing.Prelude.{
  ℕ, zero, suc, ◌+◌, Bool, true, false, ◌&&◌, ◌||◌, not, Option, none, some, List, [], ◌∷◌, ◌++◌,
  map, Bytes, Result, ok, err, take, drop, ltb, leb, ◌==◌, if◌then◌else◌,
}
use payment_processing.Prelude.Int.{leb_ℤ, pos}
use payment_processing.Decimal.{Decimal, cmp}
use payment_processing.Decimal.Parse.{ParseError, new_from_string}
use payment_processing.Domain.{Outcome, Uuid, Time, Transaction, TransactionFilter, nil_uuid}
use payment_processing.Storage.Tables.{TransactionRow, Db, of_units}
use payment_processing.Storage.Session.{M, statement}
use payment_processing.Storage.Transfers.{transaction_of}

-- The conditions that the query text may have, each with the number of its placeholder.
pub data Condition : Type 0 where
  party_is sender_is receiver_is amount_from amount_to created_from created_to : ℕ → Condition

-- What a placeholder stands for.
pub data Argument : Type 0 where
  uuid_arg : Uuid → Argument
  amount_arg : Decimal → Argument
  time_arg : Time → Argument
  count_arg : ℕ → Argument

-- The query so far, its arguments, and `argCounter`.
pub record Query : Type 0 where
  pub conditions : List Condition
  pub limit : Option ℕ
  pub offset : Option ℕ
  pub args : List Argument
  pub counter : ℕ

abbrev pub empty_query : Query
empty_query = record { conditions = []; limit = none; offset = none; args = []; counter = 1 }

abbrev pub add_condition : (ℕ → Condition) → Argument → Query → Query
add_condition condition arg q = record q {
  conditions = q.conditions ++ (condition q.counter ∷ []);
  args = q.args ++ (arg ∷ []);
  counter = q.counter + 1;
}

abbrev pub add_uuid : (ℕ → Condition) → Uuid → Query → Query
add_uuid condition id q = if id == nil_uuid then q else add_condition condition (uuid_arg id) q

abbrev parsed_amount : (ℕ → Condition) → Query → Result ParseError Decimal → Option Query
parsed_amount condition q (ok d) = some (add_condition condition (amount_arg d) q)
parsed_amount condition q (err e) = none

abbrev pub add_amount : (ℕ → Condition) → Bytes → Query → Option Query
add_amount condition [] q = some q
add_amount condition (c ∷ cs) q = parsed_amount condition q (new_from_string (c ∷ cs))

abbrev pub add_time : (ℕ → Condition) → Option Time → Query → Query
add_time condition none q = q
add_time condition (some t) q = add_condition condition (time_arg t) q

abbrev pub add_limit : ℕ → Query → Query
add_limit n q =
    if ltb 0 n
    then record q {
      limit = some q.counter;
      args = q.args ++ (count_arg n ∷ []);
      counter = q.counter + 1;
    }
    else q

abbrev pub add_offset : ℕ → Query → Query
add_offset n q =
    if ltb 0 n then record q { offset = some q.counter; args = q.args ++ (count_arg n ∷ []) } else q

abbrev pub and_then : Option Query → (Query → Option Query) → Option Query
and_then none f = none
and_then (some q) f = f q

-- `none` is the empty text, where an amount is no number. A limit or an offset below 1 counts as
-- none, so the model has natural numbers for them.
unfoldable pub sqlrequest : TransactionFilter → Option Query
sqlrequest filter =
    and_then
      (and_then
        (add_amount amount_from filter.min_amount (
          add_uuid receiver_is filter.receiver_id (
            add_uuid sender_is filter.sender_id (add_uuid party_is filter.account_id empty_query))))
        (add_amount amount_to filter.max_amount))
      (λ q. some (
        add_offset filter.offset (
          add_limit filter.limit
            (add_time created_to filter.to (add_time created_from filter.from q)))))

-- The argument of a placeholder; they count from 1.
abbrev pub argument : ℕ → List Argument → Option Argument
argument n [] = none
argument zero (a ∷ rest) = none
argument (suc zero) (a ∷ rest) = some a
argument (suc (suc n)) (a ∷ rest) = argument (suc n) rest

-- The amount of a row against a bound: -1, 0 or 1.
abbrev pub at_least : Decimal → TransactionRow → Bool
at_least d r = leb_ℤ (pos 0) (cmp (of_units r.amount) d)

abbrev pub at_most : Decimal → TransactionRow → Bool
at_most d r = leb_ℤ (cmp (of_units r.amount) d) (pos 0)

abbrev pub with_uuid : (Uuid → Bool) → Option Argument → Bool
with_uuid p (some (uuid_arg id)) = p id
with_uuid p _ = false

abbrev pub with_amount : (Decimal → Bool) → Option Argument → Bool
with_amount p (some (amount_arg d)) = p d
with_amount p _ = false

abbrev pub with_time : (Time → Bool) → Option Argument → Bool
with_time p (some (time_arg t)) = p t
with_time p _ = false

abbrev pub is_party : TransactionRow → Uuid → Bool
is_party r id = (r.receiver_id == id) || (r.sender_id == id)

-- A row under a condition.
abbrev pub holds : List Argument → TransactionRow → Condition → Bool
holds args r (party_is n) = with_uuid (is_party r) (argument n args)
holds args r (sender_is n) = with_uuid (λ id. r.sender_id == id) (argument n args)
holds args r (receiver_is n) = with_uuid (λ id. r.receiver_id == id) (argument n args)
holds args r (amount_from n) = with_amount (λ d. at_least d r) (argument n args)
holds args r (amount_to n) = with_amount (λ d. at_most d r) (argument n args)
holds args r (created_from n) = with_time (λ t. leb t r.created_at) (argument n args)
holds args r (created_to n) = with_time (λ t. leb r.created_at t) (argument n args)

abbrev pub all_hold : List Argument → TransactionRow → List Condition → Bool
all_hold args r [] = true
all_hold args r (c ∷ cs) = holds args r c && all_hold args r cs

abbrev pub count_of : Option Argument → ℕ
count_of (some (count_arg n)) = n
count_of _ = 0

-- LIMIT and OFFSET, with the argument of their placeholder.
abbrev pub limited : Option ℕ → List Argument → List TransactionRow → List TransactionRow
limited none args rows = rows
limited (some n) args rows = take (count_of (argument n args)) rows

abbrev pub skipped : Option ℕ → List Argument → List TransactionRow → List TransactionRow
skipped none args rows = rows
skipped (some n) args rows = drop (count_of (argument n args)) rows

abbrev pub where_holds : Query → List TransactionRow → List TransactionRow
where_holds q [] = []
where_holds q (r ∷ rs) =
    let rest = where_holds q rs in if all_hold q.args r q.conditions then r ∷ rest else rest

-- ORDER BY created_at DESC.
abbrev pub newest_first : TransactionRow → List TransactionRow → List TransactionRow
newest_first r [] = r ∷ []
newest_first r (x ∷ xs) =
    let rest = newest_first r xs in if leb x.created_at r.created_at then r ∷ x ∷ xs else x ∷ rest

abbrev pub sorted : List TransactionRow → List TransactionRow
sorted [] = []
sorted (r ∷ rs) = newest_first r (sorted rs)

unfoldable pub run_query : Query → List TransactionRow → List TransactionRow
run_query q rows = limited q.limit q.args (skipped q.offset q.args (sorted (where_holds q rows)))

abbrev pub answer : Outcome (List Transaction) → Db → Option Query → Outcome (List Transaction × Db)
answer no_query db (some q) = ok (map transaction_of (run_query q db.transactions), db)
answer (ok rows) db none = ok (rows, db)
answer (err e) db none = err e

-- `no_query` is what the database answers to a query of no text.
unfoldable pub get_transactions :
    {S : Type 0} → Outcome (List Transaction) → TransactionFilter → M S (List Transaction)
unfolding sqlrequest run_query
get_transactions no_query filter = statement (λ now db. answer no_query db (sqlrequest filter))
