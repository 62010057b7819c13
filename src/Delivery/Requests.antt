-- ===== src/Delivery/Requests.antt =====
-- internal/delivery/http: requests as the handlers read them; helpers/request/request.go, and
-- `DecodeJSON` and `ClientIP` of helpers/httputil/httputil.go. Times begin with the year 1, so that
-- the zero time is 0. A limit or an offset below 0 is 0, as it counts in the query.
pub mod Filters
use payment_processing.Prelude.{
  ℕ, suc, ◌+◌, ◌-◌, Bool, true, false, ◌||◌, Option, none, some, [], ◌∷◌, Bytes, codes, trim_space,
  length, take, drop, exists_row, Result, ok, err, ◌>>=◌, ltb, ◌==◌, if◌then◌else◌,
}
use payment_processing.Prelude.Int.{pos_part, ℤ}
use payment_processing.Decimal.Parse.{NumError, parse_int}
use payment_processing.Domain.{Outcome, Uuid, Time, TransactionFilter, nil_uuid, other_error}
use payment_processing.Delivery.Responses.{Body}

-- requestctx/context.go.
pub record Identity : Type 0 where
  pub user_id : Bytes
  pub role : Bytes

-- A header or a parameter that is absent is empty.
pub record Request : Type 0 where
  pub authorization : Bytes
  pub idempotency_key : Bytes
  pub path_id : Bytes
  pub query : Bytes → Bytes
  pub refresh_cookie : Option Bytes
  pub remote_addr : Bytes
  pub body : Bytes
  pub identity : Option Identity

-- WithIdentity.
abbrev pub with_identity : Identity → Request → Request
with_identity who r = record r { identity = some who }

pub record AuthDto : Type 0 where
  pub email : Bytes
  pub password : Bytes
  pub name : Bytes

pub record TransferDto : Type 0 where
  pub receiver_id : Uuid
  pub amount : Bytes

pub data JsonError : Type 0 where
  eof other_json_error : JsonError

-- uuid.Parse; time.Parse with the layout 2006-01-02; and a json.Decoder that refuses unknown fields:
-- the next value of a text, and what is left of it, for each type that is decoded. Last, whether a
-- body has a JSON form.
pub record Codecs : Type 0 where
  pub parse_uuid : Bytes → Option Uuid
  pub parse_date : Bytes → Option Time
  pub decode_auth : Bytes → Result JsonError (AuthDto × Bytes)
  pub decode_refresh : Bytes → Result JsonError (Bytes × Bytes)
  pub decode_transfer : Bytes → Result JsonError (TransferDto × Bytes)
  pub decode_empty : Bytes → Result JsonError Bytes
  pub encoded : Body → Bool

abbrev pub max_json_body_bytes : ℕ
max_json_body_bytes = 65536

-- After the first value there must be none.
abbrev pub only_value : {A : Type 0} → A → Result JsonError Bytes → Outcome A
only_value a (err eof) = ok a
only_value a (err other_json_error) = err other_error
only_value a (ok rest) = err other_error

abbrev pub uuid_outcome : Option Uuid → Outcome Uuid
uuid_outcome none = err other_error
uuid_outcome (some id) = ok id

module _ (c : Codecs) where
  abbrev pub decoded : {A : Type 0} → Result JsonError (A × Bytes) → Outcome A
  decoded (err e) = err other_error
  decoded (ok (a, rest)) = only_value a (c.decode_empty rest)

  -- DecodeJSON. A reader of a body that is too long fails at the limit, so that one of the two
  -- decodings does not end as it must.
  unfoldable pub decode_json :
      {A : Type 0} → (Bytes → Result JsonError (A × Bytes)) → Bytes → Outcome A
  decode_json decode body =
      if ltb max_json_body_bytes (length body) then err other_error else decoded (decode body)

  abbrev parse_optional_uuid : Bytes → Outcome Uuid
  parse_optional_uuid [] = ok nil_uuid
  parse_optional_uuid (b ∷ val) = uuid_outcome (c.parse_uuid (b ∷ val))

  -- parseUUID.
  unfoldable pub parse_uuid : (Bytes → Bytes) → Bytes → Outcome Uuid
  parse_uuid query key = parse_optional_uuid (query key)

  -- `time.IsZero` reads a zero time as none.
  abbrev date_outcome : Option Time → Outcome (Option Time)
  date_outcome none = err other_error
  date_outcome (some t) = if t == 0 then ok none else ok (some t)

  abbrev parse_optional_time : Bytes → Outcome (Option Time)
  parse_optional_time [] = ok none
  parse_optional_time (b ∷ val) = date_outcome (c.parse_date (b ∷ val))

  -- parseTime.
  unfoldable pub parse_time : (Bytes → Bytes) → Bytes → Outcome (Option Time)
  parse_time query key = parse_optional_time (query key)

abbrev int_outcome : Result NumError ℤ → Outcome ℤ
int_outcome (ok i) = ok i
int_outcome (err e) = err other_error

-- strconv.Atoi.
unfoldable pub atoi : Bytes → Outcome ℤ
unfolding parse_int
atoi s = int_outcome (parse_int 64 s)

-- NewTransactionFilter.
unfoldable pub new_transaction_filter : Codecs → (Bytes → Bytes) → Outcome TransactionFilter
unfolding parse_uuid parse_time atoi
new_transaction_filter c query = do
  sender_id ← parse_uuid c query (codes "sender_id")
  receiver_id ← parse_uuid c query (codes "receiver_id")
  limit ← atoi (query (codes "limit"))
  offset ← atoi (query (codes "offset"))
  from ← parse_time c query (codes "from")
  to ← parse_time c query (codes "to")
  ok (record {
    account_id = nil_uuid;
    sender_id = sender_id;
    receiver_id = receiver_id;
    min_amount = query (codes "min_amount");
    max_amount = query (codes "max_amount");
    from = from;
    to = to;
    limit = pos_part limit;
    offset = pos_part offset;
  })

abbrev next_place : Option ℕ → Option ℕ
next_place none = none
next_place (some n) = some (suc n)

-- The places of the first and of the last of a byte.
index_byte : ℕ → Bytes → Option ℕ
index_byte b [] = none
index_byte b (c ∷ s) = let later = next_place (index_byte b s) in if c == b then some 0 else later

abbrev last_place : Option ℕ → Bool → Option ℕ
last_place (some n) here = some (suc n)
last_place none here = if here then some 0 else none

last_index : ℕ → Bytes → Option ℕ
last_index b [] = none
last_index b (c ∷ s) = last_place (last_index b s) (c == b)

abbrev has : ℕ → Bytes → Bool
has b s = exists_row (λ c. c == b) s

-- The tests on brackets that are out of place, from the indices `j` and `k` on.
abbrev without_brackets : Bytes → ℕ → ℕ → Bytes → Option Bytes
without_brackets s j k host = if has b'[' (drop j s) || has b']' (drop k s) then none else some host

abbrev bracketed_host : Bytes → ℕ → Option ℕ → Option Bytes
bracketed_host s i none = none
bracketed_host s i (some end) =
    if end + 1 == i then without_brackets s 1 (end + 1) (take (end - 1) (drop 1 s)) else none

abbrev plain_host : Bytes → ℕ → Option Bytes
plain_host s i = if has b':' (take i s) then none else without_brackets s 0 0 (take i s)

abbrev host_before : Bytes → Option ℕ → Option Bytes
host_before s none = none
host_before [] (some i) = none
host_before (c ∷ s) (some i) =
    if c == b'[' then bracketed_host (c ∷ s) i (index_byte b']' (c ∷ s)) else plain_host (c ∷ s) i

-- The host of net.SplitHostPort.
unfoldable pub split_host : Bytes → Option Bytes
unfolding index_byte last_index
split_host s = host_before s (last_index b':' s)

abbrev is_bracket : ℕ → Bool
is_bracket c = (c == b'[') || (c == b']')

trim_brackets_left : Bytes → Bytes
trim_brackets_left [] = []
trim_brackets_left (c ∷ s) = if is_bracket c then trim_brackets_left s else c ∷ s

abbrev unless_bracket : ℕ → Bytes → Bytes
unless_bracket c [] = if is_bracket c then [] else c ∷ []
unless_bracket c (d ∷ s) = c ∷ d ∷ s

trim_brackets_right : Bytes → Bytes
trim_brackets_right [] = []
trim_brackets_right (c ∷ s) = unless_bracket c (trim_brackets_right s)

abbrev host_or_all : Bytes → Option Bytes → Bytes
host_or_all s (some host) = host
host_or_all s none = s

-- ClientIP.
unfoldable pub client_ip : Request → Bytes
unfolding split_host trim_brackets_left trim_brackets_right trim_space
client_ip r =
    host_or_all (trim_brackets_right (trim_brackets_left (trim_space r.remote_addr)))
      (split_host (trim_space r.remote_addr))
