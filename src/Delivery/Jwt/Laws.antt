-- ===== src/Delivery/Jwt/Laws.antt =====
-- jwt.go: what the manager relies on in golang-jwt, for texts that are ASCII. A payload can be read
-- without the secret; the secret decides whether it is believed.
use payment_processing.Prelude.{◌<◌, ◌≤◌, ◌≡◌, ◌≢◌, Bool, true, [], Bytes, All, ok, err}
use payment_processing.Domain.{Uuid, Time}
use payment_processing.Delivery.Jwt.{Claims, Library, expired}

abbrev pub IsAscii : Bytes → Type 0
IsAscii text = All (λ c. c < 128) text

pub record IsText (c : Claims) : Type 0 where
  pub user_id : IsAscii c.user_id
  pub role : IsAscii c.role
  pub id : IsAscii c.id
  pub subject : IsAscii c.subject
  pub issuer : IsAscii c.issuer

pub record IsLibrary (lib : Library) : Type 0 where
  -- A token that was signed is believed until it expires, by whom has the secret.
  pub believed :
      (c : Claims) (secret token : Bytes) (now : Time)
      → IsText c
      → lib.signed_string c secret ≡ ok token
      → now < c.expires_at
      → lib.parse_with_claims token secret c.issuer now ≡ ok (c, true)
  pub expires :
      (c : Claims) (secret token : Bytes) (now : Time)
      → IsText c
      → lib.signed_string c secret ≡ ok token
      → c.expires_at ≤ now
      → lib.parse_with_claims token secret c.issuer now ≡ err expired
  -- Whatever the secret, the claims of a token are those that were signed.
  pub payload :
      (c d : Claims) (secret other token issuer : Bytes) (now : Time) (valid : Bool)
      → IsText c
      → lib.signed_string c secret ≡ ok token
      → lib.parse_with_claims token other issuer now ≡ ok (d, valid)
      → d ≡ c
  -- No token is the empty text.
  pub signed_full :
      (c : Claims) (secret token : Bytes) → lib.signed_string c secret ≡ ok token → token ≢ []
  -- They do not depend on the time.
  pub steady :
      (token secret issuer : Bytes) (now later : Time) (c d : Claims) (valid still_valid : Bool)
      → lib.parse_with_claims token secret issuer now ≡ ok (c, valid)
      → lib.parse_with_claims token secret issuer later ≡ ok (d, still_valid)
      → c ≡ d
  -- A UUID is written in ASCII, with one character at least.
  pub uuid_ascii : (id : Uuid) → IsAscii (lib.uuid_string id)
  pub uuid_full : (id : Uuid) → lib.uuid_string id ≢ []
