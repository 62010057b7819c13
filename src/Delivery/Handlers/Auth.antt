-- ===== src/Delivery/Handlers/Auth.antt =====
-- internal/delivery/http/handlers/auth/auth_handler.go.
pub mod Answers
use payment_processing.Prelude.{
  ℕ, Bool, true, false, Option, none, some, Bytes, codes, [], ◌∷◌, Result, ok, err,
}
use payment_processing.Prelude.Int.{ℤ, pos, negsuc}
use payment_processing.Domain.{Error, Outcome, TokenPair, other_error}
use payment_processing.Usecase.Auth.{Services, register, login, refresh, logout, logout_all}
use payment_processing.Delivery.Jwt.Purposes.{with_manager}
use payment_processing.Delivery.Responses.{
  Writer, Body, no_answer, registered_body, tokens_body, success_body, write_error,
  write_auth_error, write_json, set_auth_cookie, auth_status,
}
use payment_processing.Delivery.Requests.{Request, Codecs, AuthDto, decode_json, client_ip}
use payment_processing.Delivery.Handlers.{
  App, Answer, checking, calling, ◌>>=◌, answer_error, sending, identity_from, uuid_of,
}

-- The answer to an error of the service.
abbrev pub answer_auth_error : Error → Writer
answer_auth_error e = write_auth_error e no_answer

-- The two cookies, before the body.
unfoldable pub set_cookies : Bytes → ℤ → Bytes → ℤ → Writer
unfolding set_auth_cookie
set_cookies access_token access_age refresh_token refresh_age =
    set_auth_cookie (codes "/auth/refresh") (codes "refresh_token") refresh_token refresh_age
      (set_auth_cookie (codes "/api") (codes "access_token") access_token access_age no_answer)

abbrev pub token_cookies : TokenPair → Writer
token_cookies pair = set_cookies pair.access_token (pos 900) pair.refresh_token (pos 604800)

-- Both cookies are deleted.
abbrev pub no_cookies : Writer
no_cookies = set_cookies [] (negsuc 0) [] (negsuc 0)

abbrev pub after_json : Bool → Writer × Bool → Writer
after_json flag (w, false) = w
after_json flag (w, true) = write_error 500 other_error flag w

-- WriteJSON, and WriteError if it fails.
abbrev pub json_or_error : Codecs → Bool → ℕ → Body → Writer → Writer
json_or_error c flag code b w = after_json flag (write_json (c.encoded b) code b w)

abbrev full : Bytes → Outcome Bytes
full [] = err other_error
full (b ∷ token) = ok (b ∷ token)

abbrev pub token_in : Outcome Bytes → Outcome Bytes
token_in (err e) = err e
token_in (ok token) = full token

-- The refresh token of a request: the cookie, or else the body. Both ways to have none are answered
-- alike.
abbrev pub refresh_token_of : Codecs → Bytes → Option Bytes → Outcome Bytes
refresh_token_of c body (some token) = token_in (ok token)
refresh_token_of c body none = token_in (decode_json c c.decode_refresh body)

abbrev pub auth_service : {S : Type 0} → App S → Services S
auth_service app = with_manager app.library app.manager app.services

module _ {S : Type 0} (app : App S) where
  -- Handler.Register.
  unfoldable pub handle_register : Request → Answer S
  unfolding write_error write_auth_error write_json set_cookies decode_json client_ip
  handle_register r = do
    dto ← checking (decode_json app.codecs app.codecs.decode_auth r.body) (answer_error 400 false)
    account ←
        calling (register (auth_service app) dto.email dto.password dto.name (client_ip r))
          answer_auth_error
    token ←
        calling (login (auth_service app) dto.email dto.password (client_ip r)) answer_auth_error
    sending
        (json_or_error app.codecs true 201 (registered_body account token) (token_cookies token))

  -- Handler.Login.
  unfoldable pub handle_login : Request → Answer S
  unfolding write_error write_auth_error write_json set_cookies decode_json client_ip
  handle_login r = do
    dto ← checking (decode_json app.codecs app.codecs.decode_auth r.body) (answer_error 400 false)
    token ←
        calling (login (auth_service app) dto.email dto.password (client_ip r)) answer_auth_error
    sending (json_or_error app.codecs true 200 (tokens_body token) (token_cookies token))

  -- Handler.Refresh.
  unfoldable pub handle_refresh : Request → Answer S
  unfolding write_error write_auth_error write_json set_cookies decode_json client_ip
  handle_refresh r = do
    refresh_token ←
        checking (refresh_token_of app.codecs r.body r.refresh_cookie) (answer_error 400 true)
    token ← calling (refresh (auth_service app) refresh_token (client_ip r)) answer_auth_error
    sending (json_or_error app.codecs false 200 (tokens_body token) (token_cookies token))

  -- Handler.Logout.
  unfoldable pub handle_logout : Request → Answer S
  unfolding write_error write_auth_error write_json set_cookies decode_json client_ip
  handle_logout r = do
    refresh_token ←
        checking (refresh_token_of app.codecs r.body r.refresh_cookie) (answer_error 400 false)
    _ ← calling (logout (auth_service app) refresh_token (client_ip r)) answer_auth_error
    sending (json_or_error app.codecs false 200 success_body no_cookies)

  -- Handler.LogoutAll.
  unfoldable pub handle_logout_all : Request → Answer S
  unfolding write_error write_auth_error write_json set_cookies
  handle_logout_all r = do
    identity ← checking (identity_from r) (answer_error 400 true)
    user_id ← checking (uuid_of app.codecs identity.user_id) (answer_error 400 false)
    _ ← calling (logout_all (auth_service app) user_id) answer_auth_error
    sending (json_or_error app.codecs false 200 success_body no_cookies)
