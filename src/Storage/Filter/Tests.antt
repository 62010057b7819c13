-- ===== src/Storage/Filter/Tests.antt =====
-- A query for the transactions of account 1 to account 2 from a given time, at most ten after the
-- first five.
use payment_processing.Prelude.{◌≡◌, ◌⊎◌, ◌&&◌, true, false, refl, none, some, [], ◌∷◌}
use payment_processing.Domain.{TransactionFilter}
use payment_processing.Storage.Filter.{
  Query, sqlrequest, sender_is, receiver_is, created_from, uuid_arg, time_arg, count_arg,
}
use payment_processing.Storage.Filter.Selection.{is_amount}
use payment_processing.Storage.Filter.Listing.{Answers, sqlrequest-selects}

abbrev filter : TransactionFilter
filter = record {
  account_id = 0;
  sender_id = 1;
  receiver_id = 2;
  min_amount = [];
  max_amount = [];
  from = some 30;
  to = none;
  limit = 10;
  offset = 5;
}

abbrev query : Query
query = record {
  conditions = sender_is 1 ∷ receiver_is 2 ∷ created_from 3 ∷ [];
  limit = some 4;
  offset = some 5;
  args = uuid_arg 1 ∷ uuid_arg 2 ∷ time_arg 30 ∷ count_arg 10 ∷ count_arg 5 ∷ [];
  counter = 5;
}

built : sqlrequest filter ≡ some query
unfolding sqlrequest
built = refl

sqlrequest-selects_example :
    (((is_amount filter.min_amount && is_amount filter.max_amount) ≡ true)
      × (q : Query) × (sqlrequest filter ≡ some q)
      × Answers filter q)
    ⊎ (((is_amount filter.min_amount && is_amount filter.max_amount) ≡ false)
        × (sqlrequest filter ≡ none))
sqlrequest-selects_example = sqlrequest-selects filter
