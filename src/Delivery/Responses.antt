-- ===== src/Delivery/Responses.antt =====
-- internal/delivery/http/helpers/httputil/httputil.go: answers. A writer holds what a handler has
-- sent. The text of an error is the error. The header Content-Type is left out.
use payment_processing.Prelude.{
  ℕ, Bool, true, false, Option, none, some, List, [], ◌∷◌, ◌++◌, Bytes, codes, ◌==◌, if◌then◌else◌,
}
use payment_processing.Prelude.Int.{ℤ}
use payment_processing.Domain.{
  Error, Account, Transaction, TokenPair, account_already_exist, invalid_email, invalid_password,
  invalid_name, invalid_credentials, invalid_refresh_token, refresh_token_expired,
  refresh_token_revoked, refresh_token_reuse, rate_limited,
}

-- A JSON body, before it is encoded. The middleware has three messages of its own.
pub data Body : Type 0 where
  error_body : (status_text : Bytes) → Body
  message_body : (status_text : Bytes) (e : Error) → Body
  no_token_body expired_token_body invalid_token_body : Body
  registered_body : Account → TokenPair → Body
  tokens_body : TokenPair → Body
  success_body : Body
  transfer_body : (transaction_id : Bytes) → Body
  transaction_body : Transaction → Body
  transactions_body : List Transaction → Body
  account_body : Account → Body
  history_body : (total : ℕ) → List Transaction → Body
  health_body : (text : Bytes) → Body

-- A cookie that is HttpOnly, Secure and of SameSite strict.
pub record Cookie : Type 0 where
  pub path : Bytes
  pub name : Bytes
  pub value : Bytes
  pub max_age : ℤ

-- `status` is none until the header has been sent; it is then final.
pub record Writer : Type 0 where
  pub cookies : List Cookie
  pub www_authenticate : Bool
  pub status : Option ℕ
  pub body : List Body

abbrev pub no_answer : Writer
no_answer = record { cookies = []; www_authenticate = false; status = none; body = [] }

abbrev pub write_header : ℕ → Writer → Writer
write_header code w = elim w.status [ none ↦ record w { status = some code } | some sent ↦ w ]

abbrev pub write_body : Body → Writer → Writer
write_body b w = record w { body = w.body ++ (b ∷ []) }

-- `status`.
abbrev pub status_text : ℕ → Bytes
status_text code =
    if code == 200
    then codes "OK"
    else if code == 400
    then codes "Bad Request"
    else if code == 401
    then codes "Unauthorized"
    else if code == 403
    then codes "Forbidden"
    else if code == 404
    then codes "Not Found"
    else if code == 409
    then codes "Conflict"
    else if code == 422
    then codes "Unprocessable Entity"
    else if code == 429
    then codes "Too Many Requests"
    else if code == 500
    then codes "Internal Server Error"
    else []

abbrev error_with : Bool → ℕ → Error → Body
error_with true code e = message_body (status_text code) e
error_with false code e = error_body (status_text code)

-- WriteError; the flag says whether the message is told.
unfoldable pub write_error : ℕ → Error → Bool → Writer → Writer
write_error code e flag w = write_body (error_with flag code e) (write_header code w)

-- The status of an error of the authentication service, in WriteAuthError.
unfoldable pub auth_status : Error → ℕ
auth_status rate_limited = 429
auth_status account_already_exist = 409
auth_status invalid_email = 422
auth_status invalid_password = 422
auth_status invalid_name = 422
auth_status invalid_credentials = 401
auth_status invalid_refresh_token = 401
auth_status refresh_token_expired = 401
auth_status refresh_token_revoked = 401
auth_status refresh_token_reuse = 401
auth_status _ = 500

unfoldable pub write_auth_error : Error → Writer → Writer
unfolding auth_status write_error
write_auth_error e w = write_error (auth_status e) e false w

-- WriteJSON: `encoded` says whether the body has a JSON form. The second part is its error.
unfoldable pub write_json : Bool → ℕ → Body → Writer → Writer × Bool
write_json true code b w = (write_body b (write_header code w), false)
write_json false code b w = (write_header 500 w, true)

unfoldable pub set_auth_cookie : Bytes → Bytes → Bytes → ℤ → Writer → Writer
set_auth_cookie path name token max_age w = record w {
  cookies =
      w.cookies ++ (record { path = path; name = name; value = token; max_age = max_age } ∷ []);
}
