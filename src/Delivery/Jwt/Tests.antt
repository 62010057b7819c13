-- ===== src/Delivery/Jwt/Tests.antt =====
-- The theorems on pairs of tokens at work, with a library that writes the secret and the claims one
-- after another, each text behind its length.
use payment_processing.Prelude.{
  ℕ, suc, ◌≡◌, ◌≢◌, ◌≤◌, ◌<◌, ◌+◌, refl, sym, ap, ◌∙◌, Bool, true, false, inl, inr, ◌&&◌, some, [],
  ◌∷◌, ◌++◌, Bytes, codes, eq_bytes, eq_bytes_self, ok, err, Result, length, take, drop, replicate,
  ltb, lt→ltb, if◌then◌else◌, Bool-cases, arith,
}
use payment_processing.Prelude.Int.{pos}
use payment_processing.Domain.{TokenPair, Time, token_invalid}
use payment_processing.Storage.Session.{World, new_uuid}
use payment_processing.Usecase.Auth.{Services}
use payment_processing.Delivery.Jwt.{
  Claims, JwtError, expired, malformed, Library, Manager, generate_token_pair,
  validate_access_token, validate_refresh_token, nanoseconds, new_pair, access_claims,
  refresh_claims,
}
use payment_processing.Delivery.Jwt.Laws.{IsLibrary, IsAscii}
use payment_processing.Delivery.Jwt.Pairs.{AreTexts, refresh_end, pair_roundtrip}
use payment_processing.Delivery.Jwt.Purposes.{pair_purposes}

abbrev write_field : Bytes → Bytes → Bytes
write_field text rest = length text ∷ (text ++ rest)

abbrev read_field : Bytes → Bytes × Bytes
read_field [] = ([], [])
read_field (n ∷ rest) = (take n rest, drop n rest)

take-append : (text rest : Bytes) → take (length text) (text ++ rest) ≡ text
take-append [] rest = refl
take-append (c ∷ text) rest = ap (λ t. c ∷ t) (take-append text rest)

drop-append : (text rest : Bytes) → drop (length text) (text ++ rest) ≡ rest
drop-append [] rest = refl
drop-append (c ∷ text) rest = drop-append text rest

read-write : (text rest : Bytes) → read_field (write_field text rest) ≡ (text, rest)
read-write text rest = rw (take-append text rest, drop-append text rest) refl

abbrev first_time : Bytes → Time
first_time [] = 0
first_time (t ∷ ts) = t

abbrev second_time : Bytes → Time
second_time [] = 0
second_time (t ∷ ts) = first_time ts

unfoldable pub encode : Bytes → Claims → Bytes
encode secret c = write_field secret (
    write_field c.user_id (
      write_field c.role (
        write_field c.id
          (write_field c.subject (write_field c.issuer (c.expires_at ∷ c.issued_at ∷ []))))))

unfoldable pub decode : Bytes → Bytes × Claims
decode token =
    let (secret, r1) = read_field token in
    let (user_id, r2) = read_field r1 in
    let (role, r3) = read_field r2 in
    let (id, r4) = read_field r3 in
    let (subject, r5) = read_field r4 in
    let (issuer, r6) = read_field r5 in
    (
      secret,
      record {
        user_id = user_id;
        role = role;
        id = id;
        subject = subject;
        issuer = issuer;
        expires_at = first_time r6;
        issued_at = second_time r6;
      },
    )

decode-encode : (secret : Bytes) (c : Claims) → decode (encode secret c) ≡ (secret, c)
unfolding encode decode
decode-encode secret c =
    rw
      (
        take-append secret _,
        drop-append secret _,
        take-append c.user_id _,
        drop-append c.user_id _,
        take-append c.role _,
        drop-append c.role _,
        take-append c.id _,
        drop-append c.id _,
        take-append c.subject _,
        drop-append c.subject _,
        take-append c.issuer _,
        drop-append c.issuer _,
      )
      refl

encode-full : (secret : Bytes) (c : Claims) → encode secret c ≢ []
unfolding encode
encode-full secret c h = cc

abbrev believe : Bytes × Claims → Bytes → Bytes → Time → Result JwtError (Claims × Bool)
believe (signer, c) secret issuer now =
    if eq_bytes signer secret && eq_bytes c.issuer issuer
    then if ltb now c.expires_at then ok (c, true) else err expired
    else err malformed

abbrev pub library : Library
library = record {
  signed_string = λ c secret. ok (encode secret c);
  parse_with_claims = λ token secret issuer now. believe (decode token) secret issuer now;
  uuid_string = λ n. replicate (suc n) b'u';
}

believe-ok :
    (t : Bytes × Claims) (secret issuer : Bytes) (now : Time) {d : Claims} {valid : Bool}
    → believe t secret issuer now ≡ ok (d, valid)
    → d ≡ t.1
believe-ok (signer, c) secret issuer now h =
    elim (Bool-cases (eq_bytes signer secret && eq_bytes c.issuer issuer)) [
      | inl good ↦ elim (Bool-cases (ltb now c.expires_at)) [
        | inl early ↦ cc (rw (good, early) at h)
        | inr late ↦ cc (rw (good, late) at h)
      ]
      | inr bad ↦ cc (rw bad at h)
    ]

letters-IsAscii : (n : ℕ) → IsAscii (replicate n b'u')
letters-IsAscii ℕ.zero = tt
letters-IsAscii (suc n) = (omega arith, letters-IsAscii n)

pub library-IsLibrary : IsLibrary library
library-IsLibrary = record {
  believed = λ c secret token now text signed early.
      let written : encode secret c ≡ token = cc in
      rw
        (
          sym written,
          decode-encode secret c,
          eq_bytes_self secret,
          eq_bytes_self c.issuer,
          lt→ltb now c.expires_at early,
        )
        refl;
  expires = λ c secret token now text signed late.
      let written : encode secret c ≡ token = cc in
      let over : ltb now c.expires_at ≡ false = ground arith in
      rw (sym written, decode-encode secret c, eq_bytes_self secret, eq_bytes_self c.issuer, over)
        refl;
  payload = λ c d secret other token issuer now valid text signed read.
      let written : encode secret c ≡ token = cc in
      believe-ok (decode token) other issuer now read
      ∙ ap (λ t. (decode t).1) (sym written)
      ∙ ap (λ (t : Bytes × Claims). t.1) (decode-encode secret c);
  signed_full = λ c secret token signed empty. encode-full secret c (cc);
  steady = λ token secret issuer now later c d valid still_valid read reread.
      believe-ok (decode token) secret issuer now read
      ∙ sym (believe-ok (decode token) secret issuer later reread);
  uuid_ascii = λ id. letters-IsAscii (suc id);
  uuid_full = λ id h. cc;
}

-- One token for both secrets: only the claims keep the purposes apart.
abbrev pub manager : Manager
manager = record {
  access_secret = codes "s";
  refresh_secret = codes "s";
  access_ttl = pos 900000000000;
  refresh_ttl = pos 2592000000000000;
  issuer = codes "app";
}

abbrev pub start : World (Unit {0})
start = record {
  db = record { accounts = []; transactions = []; transfer_idempotency = []; refresh_token = [] };
  tx_db = record {
    accounts = [];
    transactions = [];
    transfer_idempotency = [];
    refresh_token = [];
  };
  locked = [];
  faults = [];
  ids = some 3 ∷ [];
  cancels = [];
  clock = 7500000000;
  cache = tt;
  rate_limit_checked = false;
}

pub texts : AreTexts manager (codes "u7") (codes "user")
texts = record {
  user_ascii = (omega arith, (omega arith, tt));
  role_ascii = (omega arith, (omega arith, (omega arith, (omega arith, tt))));
  issuer_ascii = (omega arith, (omega arith, (omega arith, tt)));
  has_user = λ h. cc;
  has_role = λ h. cc;
}

abbrev pub after : World (Unit {0})
after = record start { ids = [] }

abbrev pub pair : TokenPair
pair =
    new_pair library manager (codes "uuuu") 7500000000
      (encode (codes "s") (access_claims library manager (codes "u7") (codes "user") 7500000000))
      (encode (codes "s") (refresh_claims library manager (codes "u7") (codes "uuuu") 7500000000))

pub generated :
    generate_token_pair library manager (codes "u7") (codes "user") start ≡ (ok pair, after)
unfolding generate_token_pair new_uuid
generated = refl

pair_roundtrip_example :
    (validate_access_token library manager pair.access_token 8000000000
      ≡ ok (record { user_id = codes "u7"; role = codes "user"; subject = codes "u7" }))
    × (validate_refresh_token library manager pair.refresh_token 8000000000
        ≡ ok (record { user_id = codes "u7"; id = codes "uuuu"; subject = codes "u7" }))
    × (refresh_end manager 7500000000 ≤ pair.expires_at)
    × (pair.expires_at < refresh_end manager 7500000000 + nanoseconds)
pair_roundtrip_example =
    pair_roundtrip library manager library-IsLibrary (codes "u7") (codes "user") start texts
      generated 8000000000

pair_purposes_example :
    (validate_refresh_token library manager pair.access_token 8000000000
      ≢ ok (record { user_id = codes "u7"; id = []; subject = codes "u7" }))
    × (validate_access_token library manager pair.refresh_token 8000000000
        ≢ ok (record { user_id = codes "u7"; role = []; subject = codes "u7" }))
pair_purposes_example =
    pair_purposes library manager library-IsLibrary (codes "u7") (codes "user") start texts
      generated 8000000000 (record { user_id = codes "u7"; role = []; subject = codes "u7" })
      (record { user_id = codes "u7"; id = []; subject = codes "u7" })

-- A service whose own token manager is never asked.
abbrev pub service : Services (Unit {0})
service = record {
  uuid_string = λ n. n ∷ [];
  sha256 = λ bs. bs;
  generate_hash = λ bs. ok bs;
  compare_hash = λ h p. eq_bytes h p;
  cache = record { check_rate_limit = λ _ c. (ok tt, c); idempotency_check = λ _ _ c. (ok tt, c) };
  generate_token_pair = λ _ _ w. (err token_invalid, w);
  validate_refresh_token = λ _ _. err token_invalid;
}
