-- ===== src/Storage/Filter/Selection.antt =====
-- helper.go: the numbered placeholders against a direct reading of the filter.
use payment_processing.Prelude.{
  zero, take, ◌⊎◌, ℕ, suc, ◌≡◌, refl, sym, ◌∙◌, ap, Bool, true, false, ◌&&◌, Option, none, some,
  List, [], ◌∷◌, ◌++◌, Bytes, Result, ok, err, length, leb, ◌==◌, Bool-cases, inl, inr,
  if◌then◌else◌, arith,
}
use payment_processing.Decimal.{Decimal}
use payment_processing.Decimal.Parse.{ParseError, new_from_string}
use payment_processing.Domain.{Uuid, Time, TransactionFilter, nil_uuid}
use payment_processing.Storage.Tables.{TransactionRow}
use payment_processing.Storage.Filter.{
  Condition, Argument, Query, add_condition, add_uuid, add_amount, add_time, limited, argument,
  at_least, at_most, is_party, holds, all_hold, uuid_arg, amount_arg, time_arg, parsed_amount,
}

abbrev uuid_matches : (Uuid → Bool) → Uuid → Bool
uuid_matches p id = if id == nil_uuid then true else p id

abbrev parsed_matches : (Decimal → Bool) → Result ParseError Decimal → Bool
parsed_matches p (ok d) = p d
parsed_matches p (err e) = false

abbrev amount_matches : (Decimal → Bool) → Bytes → Bool
amount_matches p [] = true
amount_matches p (c ∷ cs) = parsed_matches p (new_from_string (c ∷ cs))

abbrev time_matches : (Time → Bool) → Option Time → Bool
time_matches p none = true
time_matches p (some t) = p t

-- What a filter describes: each field that is set is a condition.
abbrev pub matches : TransactionFilter → TransactionRow → Bool
matches f r =
    let party = uuid_matches (is_party r) f.account_id in
    let sender = uuid_matches (λ id. r.sender_id == id) f.sender_id in
    let receiver = uuid_matches (λ id. r.receiver_id == id) f.receiver_id in
    let low = amount_matches (λ d. at_least d r) f.min_amount in
    let high = amount_matches (λ d. at_most d r) f.max_amount in
    let after = time_matches (λ t. leb t r.created_at) f.from in
    let before = time_matches (λ t. leb r.created_at t) f.to in
    (((((party && sender) && receiver) && low) && high) && after) && before

-- No more than a limit, where it is positive.
abbrev pub at_most_rows : ℕ → List TransactionRow → List TransactionRow
at_most_rows zero rows = rows
at_most_rows (suc n) rows = take (suc n) rows

-- The conditions of a query and its limit, whatever arguments are to follow, and the number of the
-- next one.
pub record Selects (q : Query) (p : TransactionRow → Bool) (n : ℕ) : Type 0 where
  pub next : q.counter ≡ suc (length q.args)
  pub meaning :
      (more : List Argument) (r : TransactionRow) → all_hold (q.args ++ more) r q.conditions ≡ p r
  pub limit :
      (more : List Argument) (rows : List TransactionRow)
      → limited q.limit (q.args ++ more) rows ≡ at_most_rows n rows
  pub no_offset : q.offset ≡ none

pub argument-last :
    (xs : List Argument) (a : Argument) (more : List Argument)
    → argument (suc (length xs)) ((xs ++ (a ∷ [])) ++ more) ≡ some a
argument-last [] a more = refl
argument-last (x ∷ xs) a more = argument-last xs a more

all_hold-last :
    (args : List Argument) (r : TransactionRow) (cs : List Condition) (c : Condition)
    → all_hold args r (cs ++ (c ∷ [])) ≡ (all_hold args r cs && holds args r c)
all_hold-last args r [] c = ground arith
all_hold-last args r (x ∷ cs) c = ground (arith, all_hold-last args r cs c)

pub append_assoc : (xs ys zs : List Argument) → (xs ++ ys) ++ zs ≡ xs ++ (ys ++ zs)
append_assoc [] ys zs = refl
append_assoc (x ∷ xs) ys zs = ap (λ l. x ∷ l) (append_assoc xs ys zs)

pub append_nil : (xs : List Argument) → xs ++ [] ≡ xs
append_nil [] = refl
append_nil (x ∷ xs) = ap (λ l. x ∷ l) (append_nil xs)

pub length-last : (xs : List Argument) (a : Argument) → length (xs ++ (a ∷ [])) ≡ suc (length xs)
length-last [] a = refl
length-last (x ∷ xs) a = ap suc (length-last xs a)

both : {a b c d : Bool} → a ≡ b → c ≡ d → (a && c) ≡ (b && d)
both h k = rw (h, k) refl

true_and : (b : Bool) → (b && true) ≡ b
true_and true = refl
true_and false = refl

add_condition-Selects :
    (condition : ℕ → Condition) (a : Argument) (q : Query) (p t : TransactionRow → Bool)
    → ((args : List Argument) (n : ℕ) (r : TransactionRow)
        → argument n args ≡ some a
        → holds args r (condition n) ≡ t r)
    → Selects q p 0
    → Selects (add_condition condition a q) (λ r. p r && t r) 0
add_condition-Selects condition a q p t means s = record {
  next = rw (length-last q.args a) (omega (arith, s.next));
  meaning = λ more r.
      all_hold-last ((q.args ++ (a ∷ [])) ++ more) r q.conditions (condition q.counter)
      ∙ both
          (ap (λ args. all_hold args r q.conditions) (append_assoc q.args (a ∷ []) more)
            ∙ s.meaning (a ∷ more) r)
          (means ((q.args ++ (a ∷ [])) ++ more) q.counter r
            (rw s.next (argument-last q.args a more)));
  limit = λ more rows.
      ap (λ args. limited q.limit args rows) (append_assoc q.args (a ∷ []) more)
      ∙ s.limit (a ∷ more) rows;
  no_offset = s.no_offset;
}

unset-Selects :
    (q : Query) (p t : TransactionRow → Bool)
    → ((r : TransactionRow) → t r ≡ true)
    → Selects q p 0
    → Selects q (λ r. p r && t r) 0
unset-Selects q p t none_set s = record {
  next = s.next;
  meaning = λ more r. s.meaning more r ∙ sym (ap (λ b. p r && b) (none_set r) ∙ true_and (p r));
  limit = s.limit;
  no_offset = s.no_offset;
}

pub add_uuid-Selects :
    (condition : ℕ → Condition) (t : TransactionRow → Uuid → Bool) (id : Uuid) (q : Query)
    (p : TransactionRow → Bool)
    → ((args : List Argument) (n : ℕ) (r : TransactionRow)
        → argument n args ≡ some (uuid_arg id)
        → holds args r (condition n) ≡ t r id)
    → Selects q p 0
    → Selects (add_uuid condition id q) (λ r. p r && uuid_matches (t r) id) 0
add_uuid-Selects condition t id q p means s = elim (Bool-cases (id == nil_uuid)) [
  | inl unset ↦ rw unset (unset-Selects q p (λ r. true) (λ r. refl) s)
  | inr set ↦ rw set (add_condition-Selects condition (uuid_arg id) q p (λ r. t r id) means s)
]

pub add_time-Selects :
    (condition : ℕ → Condition) (t : TransactionRow → Time → Bool) (o : Option Time) (q : Query)
    (p : TransactionRow → Bool)
    → ((args : List Argument) (n : ℕ) (r : TransactionRow) (at : Time)
        → argument n args ≡ some (time_arg at)
        → holds args r (condition n) ≡ t r at)
    → Selects q p 0
    → Selects (add_time condition o q) (λ r. p r && time_matches (t r) o) 0
add_time-Selects condition t none q p means s = unset-Selects q p (λ r. true) (λ r. refl) s
add_time-Selects condition t (some at) q p means s =
    add_condition-Selects condition (time_arg at) q p (λ r. t r at)
      (λ args n r h. means args n r at h) s

-- Whether a filter's text for an amount is empty or a number.
abbrev is_ok : Result ParseError Decimal → Bool
is_ok (ok d) = true
is_ok (err e) = false

abbrev pub is_amount : Bytes → Bool
is_amount [] = true
is_amount (c ∷ cs) = is_ok (new_from_string (c ∷ cs))

-- A condition on an amount is added exactly if its text can be read.
abbrev pub Reads : Bool → Option Query → (TransactionRow → Bool) → Type 0
Reads readable o p =
    ((readable ≡ true) × (q : Query) × (o ≡ some q) × Selects q p 0)
    ⊎ ((readable ≡ false) × (o ≡ none))

parsed-Reads :
    (condition : ℕ → Condition) (t : TransactionRow → Decimal → Bool) (q : Query)
    (p : TransactionRow → Bool) (parsed : Result ParseError Decimal)
    → ((args : List Argument) (n : ℕ) (r : TransactionRow) (d : Decimal)
        → argument n args ≡ some (amount_arg d)
        → holds args r (condition n) ≡ t r d)
    → Selects q p 0
    → Reads
        (is_ok parsed)
        (parsed_amount condition q parsed)
        (λ r. p r && parsed_matches (t r) parsed)
parsed-Reads condition t q p (ok d) means s = inl (
  refl,
  add_condition condition (amount_arg d) q,
  refl,
  add_condition-Selects condition (amount_arg d) q p (λ r. t r d) (λ args n r k. means args n r d k)
      s,
)
parsed-Reads condition t q p (err e) means s = inr (refl, refl)

pub add_amount-Reads :
    (condition : ℕ → Condition) (t : TransactionRow → Decimal → Bool) (text : Bytes) (q : Query)
    (p : TransactionRow → Bool)
    → ((args : List Argument) (n : ℕ) (r : TransactionRow) (d : Decimal)
        → argument n args ≡ some (amount_arg d)
        → holds args r (condition n) ≡ t r d)
    → Selects q p 0
    → Reads (is_amount text) (add_amount condition text q) (λ r. p r && amount_matches (t r) text)
add_amount-Reads condition t [] q p means s =
    inl (refl, q, refl, unset-Selects q p (λ r. true) (λ r. refl) s)
add_amount-Reads condition t (c ∷ cs) q p means s =
    parsed-Reads condition t q p (new_from_string (c ∷ cs)) means s
