-- ===== src/Delivery/Requests/Filters.antt =====
-- request.go, `NewTransactionFilter`: what a query must have.
use payment_processing.Prelude.{
  ◌≡◌, ◌≢◌, ◌⊎◌, refl, inl, inr, [], Bytes, codes, Result, ok, err, ◌>>=◌,
}
use payment_processing.Decimal.Parse.{parse_int}
use payment_processing.Domain.{Error, TransactionFilter, other_error}
use payment_processing.Delivery.Requests.{Codecs, atoi, new_transaction_filter, parse_uuid}

-- A query without a page: no limit, or no offset.
abbrev pub HasNoPage : (Bytes → Bytes) → Type 0
HasNoPage query = (query (codes "limit") ≡ []) ⊎ (query (codes "offset") ≡ [])

atoi-empty : (s : Bytes) → s ≡ [] → atoi s ≡ err other_error
unfolding atoi parse_int
atoi-empty s h = rw h refl

-- A chain that fails further on fails.
fails :
    {A B : Type 0} (r : Result Error A) {f : A → Result Error B}
    → ((a : A) (b : B) → f a ≢ ok b)
    → (b : B) → (r >>= f) ≢ ok b
fails (ok a) k b h = k a b h
fails (err e) k b h = cc

fails_here :
    {A B : Type 0} (r : Result Error A) (e : Error) (f : A → Result Error B)
    → r ≡ err e
    → (b : B) → (r >>= f) ≢ ok b
fails_here (ok a) e f h b k = cc
fails_here (err e') e f h b k = cc

pub filter_needs_page :
    (c : Codecs) (query : Bytes → Bytes) (t : TransactionFilter)
    → HasNoPage query
    → new_transaction_filter c query ≢ ok t
unfolding new_transaction_filter
filter_needs_page c query t (inl no_limit) =
    fails (parse_uuid c query (codes "sender_id"))
      (λ _.
        fails (parse_uuid c query (codes "receiver_id"))
          (λ _. fails_here (atoi (query (codes "limit"))) other_error _ (atoi-empty _ no_limit)))
      t
filter_needs_page c query t (inr no_offset) =
    fails (parse_uuid c query (codes "sender_id"))
      (λ _. fails (parse_uuid c query (codes "receiver_id")) (λ _.
        fails (atoi (query (codes "limit")))
          (λ _. fails_here (atoi (query (codes "offset"))) other_error _ (atoi-empty _ no_offset))))
      t
