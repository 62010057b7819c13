-- ===== src/Storage/Filter/Listing.antt =====
-- helper.go and `GetTransactions`: the rows of the whole query, with its order, limit and offset.
use payment_processing.Prelude.{
  ℕ, zero, suc, ◌≡◌, ◌⊎◌, refl, sym, ◌∙◌, ap, Bool, true, false, ◌&&◌, none, some, List, [], ◌∷◌,
  ◌++◌, leb, ltb, inl, inr, arith, take, drop, select, ◌==◌,
}
use payment_processing.Domain.{TransactionFilter}
use payment_processing.Storage.Tables.{TransactionRow}
use payment_processing.Storage.Filter.{
  Argument, Query, empty_query, add_time, add_limit, add_offset, sqlrequest, argument, all_hold,
  at_least, at_most, is_party, party_is, sender_is, receiver_is, amount_from, amount_to,
  created_from, created_to, count_arg, count_of, with_uuid, with_amount, with_time, limited,
  skipped, where_holds, sorted, run_query,
}
use payment_processing.Storage.Filter.Selection.{
  matches, is_amount, Selects, at_most_rows, argument-last, append_assoc, append_nil, length-last,
  add_uuid-Selects, add_time-Selects, add_amount-Reads,
}
use payment_processing.Storage.Filter.Order.{
  IsNewestFirst, sorted-IsNewestFirst, drop-IsNewestFirst, take-IsNewestFirst,
}

-- What a filter describes: its rows, the newest first, without as many as the offset, and no more
-- than the limit.
abbrev pub listing : TransactionFilter → List TransactionRow → List TransactionRow
listing f rows = at_most_rows f.limit (drop f.offset (sorted (select (matches f) rows)))

add_limit-Selects :
    (n : ℕ) (q : Query) (p : TransactionRow → Bool) → Selects q p 0 → Selects (add_limit n q) p n
add_limit-Selects zero q p s = s
add_limit-Selects (suc n) q p s =
    let positive : ltb 0 (suc n) ≡ true = ground arith in
    let c = count_arg (suc n) in
    let last : (more : List Argument) → argument q.counter ((q.args ++ (c ∷ [])) ++ more) ≡ some c =
      λ more. rw s.next (argument-last q.args c more) in
    rw positive (record {
      next = rw (length-last q.args (count_arg (suc n))) (omega (arith, s.next));
      meaning = λ more r.
          ap (λ args. all_hold args r q.conditions)
            (append_assoc q.args (count_arg (suc n) ∷ []) more)
          ∙ s.meaning (count_arg (suc n) ∷ more) r;
      limit = λ more rows. ap (λ o. take (count_of o) rows) (last more);
      no_offset = s.no_offset;
    })

-- A whole query.
record Lists (q : Query) (p : TransactionRow → Bool) (n m : ℕ) : Type 0 where
  meaning : (r : TransactionRow) → all_hold q.args r q.conditions ≡ p r
  limit : (rows : List TransactionRow) → limited q.limit q.args rows ≡ at_most_rows n rows
  offset : (rows : List TransactionRow) → skipped q.offset q.args rows ≡ drop m rows

add_offset-Lists :
    (m n : ℕ) (q : Query) (p : TransactionRow → Bool) → Selects q p n → Lists (add_offset m q) p n m
add_offset-Lists zero n q p s = record {
  meaning =
      λ r. ap (λ args. all_hold args r q.conditions) (sym (append_nil q.args)) ∙ s.meaning [] r;
  limit =
      λ rows. ap (λ args. limited q.limit args rows) (sym (append_nil q.args)) ∙ s.limit [] rows;
  offset = λ rows. rw s.no_offset refl;
}
add_offset-Lists (suc m) n q p s =
    let positive : ltb 0 (suc m) ≡ true = ground arith in
    let c = count_arg (suc m) in
    let last : argument q.counter (q.args ++ (c ∷ [])) ≡ some c =
      ap (argument q.counter) (sym (append_nil (q.args ++ (c ∷ []))))
      ∙ rw s.next (argument-last q.args c []) in
    rw positive (record {
      meaning = s.meaning (c ∷ []);
      limit = s.limit (c ∷ []);
      offset = λ rows. ap (λ o. drop (count_of o) rows) last;
    })

where-select :
    (q : Query) (p : TransactionRow → Bool)
    → ((r : TransactionRow) → all_hold q.args r q.conditions ≡ p r)
    → (rows : List TransactionRow) → where_holds q rows ≡ select p rows
where-select q p same [] = refl
where-select q p same (r ∷ rs) = rw (same r, where-select q p same rs) refl

listing-IsNewestFirst :
    (f : TransactionFilter) (rows : List TransactionRow) → IsNewestFirst (listing f rows)
listing-IsNewestFirst f rows =
    limit_order f.limit _
      (drop-IsNewestFirst f.offset _ (sorted-IsNewestFirst (select (matches f) rows)))
  where
    limit_order :
        (n : ℕ) (rs : List TransactionRow) → IsNewestFirst rs → IsNewestFirst (at_most_rows n rs)
    limit_order zero rs h = h
    limit_order (suc n) rs h = take-IsNewestFirst (suc n) rs h

-- The conditions up to the amounts.
start-Selects : Selects empty_query (λ r. true) 0
start-Selects = record {
  next = refl;
  meaning = λ more r. refl;
  limit = λ more rows. refl;
  no_offset = refl;
}

abbrev pub whole_query : TransactionFilter → Query → Query
whole_query f q =
    add_offset f.offset
      (add_limit f.limit (add_time created_to f.to (add_time created_from f.from q)))

Lists-rows :
    (f : TransactionFilter) (q : Query)
    → Lists q (matches f) f.limit f.offset
    → (rows : List TransactionRow) → run_query q rows ≡ listing f rows
unfolding run_query
Lists-rows f q l rows =
    l.limit _
    ∙ ap (at_most_rows f.limit) (
        l.offset _
        ∙ ap (λ found. drop f.offset (sorted found)) (where-select q (matches f) l.meaning rows))

-- The query of a filter answers with the rows that the filter describes.
abbrev pub Answers : TransactionFilter → Query → Type 0
Answers f q =
    (rows : List TransactionRow)
    → (run_query q rows ≡ listing f rows) × IsNewestFirst (run_query q rows)

-- Where each amount of a filter is empty or a number, sqlrequest builds a query, and on any
-- table the query answers with the rows that the filter describes, each field that is set being
-- a condition, newest first, without as many as its offset, and no more than its limit, where
-- this is positive; else it builds none.
pub sqlrequest-selects :
    (f : TransactionFilter)
    → (((is_amount f.min_amount && is_amount f.max_amount) ≡ true)
        × (q : Query) × (sqlrequest f ≡ some q)
        × Answers f q)
      ⊎ (((is_amount f.min_amount && is_amount f.max_amount) ≡ false) × (sqlrequest f ≡ none))
unfolding sqlrequest
sqlrequest-selects f =
    let party =
      add_uuid-Selects party_is is_party f.account_id empty_query _
        (λ args n r e. ap (with_uuid (is_party r)) e) start-Selects in
    let sender =
      add_uuid-Selects sender_is (λ r id. r.sender_id == id) f.sender_id _ _
        (λ args n r e. ap (with_uuid (λ id. r.sender_id == id)) e) party in
    let receiver =
      add_uuid-Selects receiver_is (λ r id. r.receiver_id == id) f.receiver_id _ _
        (λ args n r e. ap (with_uuid (λ id. r.receiver_id == id)) e) sender in
    elim (add_amount-Reads amount_from (λ r d. at_least d r) f.min_amount _ _
      (λ args n r d e. ap (with_amount (λ d. at_least d r)) e) receiver) [
        | inr (unreadable, none_built) ↦ inr (rw unreadable refl, rw none_built refl)
        | inl (readable, q4, built, low) ↦
            elim (add_amount-Reads amount_to (λ r d. at_most d r) f.max_amount q4 _
              (λ args n r d e. ap (with_amount (λ d. at_most d r)) e) low) [
                | inr (unreadable, none_built) ↦
                    inr (rw (readable, unreadable) refl, rw (built, none_built) refl)
                | inl (readable', q5, built', up) ↦
                    let from =
                      add_time-Selects created_from (λ r t. leb t r.created_at) f.from q5 _
                        (λ args n r t e. ap (with_time (λ t. leb t r.created_at)) e) up in
                    let to =
                      add_time-Selects created_to (λ r t. leb r.created_at t) f.to _ _
                        (λ args n r t e. ap (with_time (λ t. leb r.created_at t)) e) from in
                    let lists =
                      add_offset-Lists f.offset f.limit _ (matches f)
                        (add_limit-Selects f.limit _ _ to) in
                    inl (
                      rw (readable, readable') refl,
                      whole_query f q5,
                      rw (built, built') refl,
                      λ rows.
                          let same = Lists-rows f (whole_query f q5) lists rows in
                          (same, rw same (listing-IsNewestFirst f rows)),
                    )
              ]
      ]
