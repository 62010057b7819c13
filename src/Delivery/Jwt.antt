-- ===== src/Delivery/Jwt.antt =====
-- internal/delivery/http/jwt/jwt.go: `Manager`. The library golang-jwt is a parameter. The claims of
-- a token are those of its JSON payload, an absent text being empty; an instant of NumericDate is
-- cut to whole seconds. The seconds of a duration are exact for all durations of less than 97 days,
-- where a float64 holds them well enough.
pub mod Laws
pub mod Pairs
pub mod Purposes
pub mod Renewal
pub mod Tests
use payment_processing.Prelude.{
  ℕ, ◌+◌, ◌-◌, ◌/◌, ◌%◌, Bool, true, false, not, ◌||◌, [], Bytes, eq_bytes, Result, ok, err,
  if◌then◌else◌,
}
use payment_processing.Prelude.Int.{ℤ, map_abs, pos_part, neg_part}
use payment_processing.Domain.{
  Outcome, Uuid, Time, TokenPair, AccessClaims, RefreshClaims, token_expired, token_invalid,
}
use payment_processing.Storage.Session.{M, pure, lift, ◌>>=◌, new_uuid}
use payment_processing.Config.{JwtConfig}

pub record Claims : Type 0 where
  pub user_id : Bytes
  pub role : Bytes
  pub id : Bytes
  pub subject : Bytes
  pub issuer : Bytes
  pub expires_at : Time
  pub issued_at : Time

-- jwt.ErrTokenExpired, and any other error of the library.
pub data JwtError : Type 0 where
  expired malformed : JwtError

-- SignedString with HS256 and a secret; ParseWithClaims for HS256, with a secret, the issuer and the
-- time, the expiration being required: the claims, and whether the token is valid.
pub record Library : Type 0 where
  pub signed_string : Claims → Bytes → Outcome Bytes
  pub parse_with_claims : Bytes → Bytes → Bytes → Time → Result JwtError (Claims × Bool)
  -- uuid.UUID.String.
  pub uuid_string : Uuid → Bytes

pub record Manager : Type 0 where
  pub access_secret : Bytes
  pub refresh_secret : Bytes
  pub access_ttl : ℤ
  pub refresh_ttl : ℤ
  pub issuer : Bytes

abbrev pub new_manager : JwtConfig → Manager
new_manager cfg = record {
  access_secret = cfg.access_secret;
  refresh_secret = cfg.refresh_secret;
  access_ttl = cfg.access_ttl;
  refresh_ttl = cfg.refresh_ttl;
  issuer = cfg.issuer;
}

abbrev pub nanoseconds : ℕ
nanoseconds = 1000000000

-- time.Time.Add.
abbrev pub time_add : Time → ℤ → Time
time_add t d = t + pos_part d - neg_part d

abbrev pub numeric_date : Time → Time
numeric_date t = t - t % nanoseconds

-- int64(d.Seconds()).
abbrev whole_seconds : ℤ → ℤ
whole_seconds d = map_abs (λ n. n / nanoseconds) d

abbrev pub current_time : {S : Type 0} → M S Time
current_time w = (ok w.clock, w)

abbrev pub parse_outcome : Result JwtError (Claims × Bool) → Outcome Claims
parse_outcome (err expired) = err token_expired
parse_outcome (err malformed) = err token_invalid
parse_outcome (ok (claims, valid)) = if not valid then err token_invalid else ok claims

abbrev pub access_view : Outcome Claims → Outcome AccessClaims
access_view (err e) = err e
access_view (ok c) =
    if eq_bytes c.user_id [] || not (eq_bytes c.subject c.user_id) || eq_bytes c.role []
    then err token_invalid
    else ok (record { user_id = c.user_id; role = c.role; subject = c.subject })

abbrev pub refresh_view : Outcome Claims → Outcome RefreshClaims
refresh_view (err e) = err e
refresh_view (ok c) =
    if eq_bytes c.id [] || eq_bytes c.user_id [] || not (eq_bytes c.subject c.user_id)
    then err token_invalid
    else ok (record { user_id = c.user_id; id = c.id; subject = c.subject })

module _ (lib : Library) (m : Manager) where
  abbrev pub access_claims : Bytes → Bytes → Time → Claims
  access_claims user_id role now = record {
    user_id = user_id;
    role = role;
    id = [];
    subject = user_id;
    issuer = m.issuer;
    expires_at = numeric_date (time_add now m.access_ttl);
    issued_at = numeric_date now;
  }

  abbrev pub refresh_claims : Bytes → Bytes → Time → Claims
  refresh_claims user_id jti now = record {
    user_id = user_id;
    role = [];
    id = jti;
    subject = user_id;
    issuer = m.issuer;
    expires_at = numeric_date (time_add now m.refresh_ttl);
    issued_at = numeric_date now;
  }

  abbrev pub new_pair : Bytes → Time → Bytes → Bytes → TokenPair
  new_pair jti now access_signed refresh_signed = record {
    access_token = access_signed;
    refresh_token = refresh_signed;
    expires_in = whole_seconds m.access_ttl;
    jti = jti;
    expires_at = time_add now m.refresh_ttl;
  }

  -- Manager.GenerateTokenPair.
  unfoldable pub generate_token_pair : {S : Type 0} → Bytes → Bytes → M S TokenPair
  generate_token_pair user_id role = do
    now ← current_time
    access_signed ← lift (lib.signed_string (access_claims user_id role now) m.access_secret)
    jti ← new_uuid
    refresh_signed ←
        lift (lib.signed_string (refresh_claims user_id (lib.uuid_string jti) now) m.refresh_secret)
    pure (new_pair (lib.uuid_string jti) now access_signed refresh_signed)

  -- Manager.parse.
  unfoldable pub parse : Bytes → Bytes → Time → Outcome Claims
  parse token secret now = parse_outcome (lib.parse_with_claims token secret m.issuer now)

  unfoldable pub validate_access_token : Bytes → Time → Outcome AccessClaims
  unfolding parse
  validate_access_token token now = access_view (parse token m.access_secret now)

  unfoldable pub validate_refresh_token : Bytes → Time → Outcome RefreshClaims
  unfolding parse
  validate_refresh_token token now = refresh_view (parse token m.refresh_secret now)
