-- ===== src/Delivery/Router/Samples.antt =====
-- Requests for the tests of the HTTP layer: account 3, who has a pair of tokens, and account 2. A
-- body is one character for the receiver, and then the amount.
use payment_processing.Prelude.{
  ℕ, suc, ◌≡◌, refl, ap, true, Option, some, none, [], ◌∷◌, ◌^◌, Bytes, codes, ok, err, Result,
  length, replicate, arith,
}
use payment_processing.Prelude.Int.{pos}
use payment_processing.Domain.{Uuid, TokenPair}
use payment_processing.Storage.Tables.{AccountRow, Db}
use payment_processing.Storage.Session.{World, new_uuid}
use payment_processing.Storage.Accounts.Balances.{IsValid}
use payment_processing.Usecase.Transfers.{Platform}
use payment_processing.Delivery.Jwt.{generate_token_pair, new_pair, access_claims, refresh_claims}
use payment_processing.Delivery.Jwt.Pairs.{AreTexts}
use payment_processing.Delivery.Jwt.Tests.{library, manager, service, start, encode}
use payment_processing.Delivery.Requests.{Request, Codecs, JsonError, eof, AuthDto, TransferDto}
use payment_processing.Delivery.Handlers.{App}

abbrev uuid_in : Bytes → Option Uuid
uuid_in [] = none
uuid_in (c ∷ text) = some (length text)

abbrev transfer_in : Bytes → Result JsonError (TransferDto × Bytes)
transfer_in [] = err eof
transfer_in (c ∷ rest) = ok (record { receiver_id = c; amount = rest }, [])

abbrev auth_in : Bytes → Result JsonError (AuthDto × Bytes)
auth_in [] = err eof
auth_in (c ∷ rest) =
    ok (record { email = codes "a@b.cd"; password = codes "secret-1"; name = codes "anna" }, [])

abbrev nothing_in : Bytes → Result JsonError Bytes
nothing_in [] = err eof
nothing_in (c ∷ rest) = ok rest

abbrev pub codecs : Codecs
codecs = record {
  parse_uuid = uuid_in;
  parse_date = λ text. none;
  decode_auth = auth_in;
  decode_refresh = λ body. ok (body, []);
  decode_transfer = transfer_in;
  decode_empty = nothing_in;
  encoded = λ body. true;
}

abbrev platform : Platform (Unit {0})
platform = record { uuid_string = library.uuid_string; sha256 = λ bs. bs; cache = service.cache }

abbrev pub app : App (Unit {0})
app = record {
  platform = platform;
  services = service;
  no_query = ok [];
  codecs = codecs;
  library = library;
  manager = manager;
}

length-replicate : (n c : ℕ) → length (replicate n c) ≡ n
length-replicate ℕ.zero c = refl
length-replicate (suc n) c = ap suc (length-replicate n c)

pub parses : (id : Uuid) → codecs.parse_uuid (library.uuid_string id) ≡ some id
parses id = ap some (length-replicate id b'u')

abbrev pub account : Uuid → Bytes → ℕ → AccountRow
account id email balance = record {
  id = id;
  name = codes "anna";
  email = email;
  balance = pos balance;
  password_hash = codes "h";
  role = codes "user";
}

abbrev pub tables : Db
tables = record {
  accounts = account 3 (codes "a@b.cd") (10 ^ 20) ∷ account 2 (codes "b@b.cd") 0 ∷ [];
  transactions = [];
  transfer_idempotency = [];
  refresh_token = [];
}

pub tables-IsValid : IsValid tables.accounts
tables-IsValid = ground arith

abbrev pub world : World (Unit {0})
world = record start { db = tables; tx_db = tables; ids = some 7 ∷ []; clock = 8000000000 }

abbrev pub request : Request
request = record {
  authorization = codes "Bearer x";
  idempotency_key = codes "k";
  path_id = codes "uuu";
  query = λ key. [];
  refresh_cookie = none;
  remote_addr = codes "10.0.0.1:80";
  body = 2 ∷ codes "7";
  identity = none;
}

pub texts : AreTexts manager (library.uuid_string 3) (codes "user")
texts = record {
  user_ascii = (omega arith, (omega arith, (omega arith, (omega arith, tt))));
  role_ascii = (omega arith, (omega arith, (omega arith, (omega arith, tt))));
  issuer_ascii = (omega arith, (omega arith, (omega arith, tt)));
  has_user = λ h. cc;
  has_role = λ h. cc;
}

abbrev pub pair : TokenPair
pair =
    new_pair library manager (codes "uuuu") 7500000000
      (encode (codes "s") (access_claims library manager (codes "uuuu") (codes "user") 7500000000))
      (encode (codes "s") (refresh_claims library manager (codes "uuuu") (codes "uuuu") 7500000000))

pub generated :
    generate_token_pair library manager (library.uuid_string 3) (codes "user") start
    ≡ (ok pair, record start { ids = [] })
unfolding generate_token_pair new_uuid
generated = refl
