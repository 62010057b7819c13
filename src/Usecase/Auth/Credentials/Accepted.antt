-- ===== src/Usecase/Auth/Credentials/Accepted.antt =====
-- usecase/auth.go, `validateRegistration`: what it accepts.
use payment_processing.Prelude.{◌≤◌, ◌≡◌, true, Bytes, ok, length, arith}
use payment_processing.Usecase.Auth.Credentials.{
  validate_registration, valid_email, valid_password, rune_count, match_email, between,
}
use payment_processing.Usecase.Auth.Credentials.Pattern.{IsEmail, match_email-IsEmail_iff}

pub record IsAcceptable (email password name : Bytes) : Type 0 where
  pub an_email : IsEmail email
  pub email_length : length email ≤ 254
  pub password_length : (8 ≤ length password) × (length password ≤ 72)
  pub name_length : (3 ≤ rune_count 0 name) × (rune_count 0 name ≤ 100)

valid_email-matched :
    (email : Bytes) → valid_email email ≡ true → (match_email email ≡ true) × (length email ≤ 254)
unfolding valid_email
valid_email-matched email h = (ground (arith, h), ground (arith, h))

valid_password-length :
    (password : Bytes)
    → valid_password password ≡ true
    → (8 ≤ length password) × (length password ≤ 72)
unfolding valid_password
valid_password-length password h = ground (arith, h)

pub validate_registration-IsAcceptable :
    (email password name : Bytes)
    → validate_registration email password name ≡ ok tt
    → IsAcceptable email password name
unfolding validate_registration
validate_registration-IsAcceptable email password name h =
    let good_email : valid_email email ≡ true = ground (arith, h) in
    let good_password : valid_password password ≡ true = ground (arith, h) in
    let good_name : between 3 100 (rune_count 0 name) ≡ true = ground (arith, h) in
    let (matched, short) = valid_email-matched email good_email in
    record {
      an_email = (match_email-IsEmail_iff email).0 matched;
      email_length = short;
      password_length = valid_password-length password good_password;
      name_length = ground (arith, good_name);
    }
