-- ===== src/Delivery/Handlers/Auth/Answers.antt =====
-- auth_handler.go: the answers of `Register`, `Login` and `Refresh`, and what then is stored.
use payment_processing.Prelude.{
  ℕ, ◌≡◌, ◌⊎◌, refl, ap, subst, Bool, true, false, some, inl, inr, [], ◌∷◌, Bytes, ok, arith,
}
use payment_processing.Domain.{Error, Outcome, Account, TokenPair, RefreshClaims}
use payment_processing.Storage.Tables.{Db}
use payment_processing.Storage.Session.{World}
use payment_processing.Usecase.Auth.{register, login, refresh}
use payment_processing.Usecase.Auth.Revoked.{IsTokenManager}
use payment_processing.Usecase.Auth.Registration.{Registered, register-Registered}
use payment_processing.Usecase.Auth.Sessions.{LoggedIn, login-LoggedIn}
use payment_processing.Usecase.Auth.Refresh.{Rotated, refresh-Rotated}
use payment_processing.Delivery.Jwt.{validate_refresh_token}
use payment_processing.Delivery.Jwt.Laws.{IsLibrary}
use payment_processing.Delivery.Jwt.Purposes.{manager-IsTokenManager}
use payment_processing.Delivery.Responses.{
  Writer, Body, registered_body, tokens_body, write_error, write_auth_error, write_json,
  auth_status,
}
use payment_processing.Delivery.Requests.{Request, AuthDto, decode_json, client_ip}
use payment_processing.Delivery.Handlers.{App, answer_error}
use payment_processing.Delivery.Handlers.Rules.{checking-rule, calling-rule}
use payment_processing.Delivery.Handlers.Auth.{
  answer_auth_error, token_cookies, refresh_token_of, auth_service, handle_register, handle_login,
  handle_refresh,
}

-- The tokens, in the cookies and in the body.
pub record Sent (code : ℕ) (b : Body) (token : TokenPair) (answer : Writer) : Type 0 where
  pub status : answer.status ≡ some code
  pub body : answer.body ≡ b ∷ []
  pub cookies : answer.cookies ≡ (token_cookies token).cookies

abbrev pub IsErrorCode : ℕ → Type 0
IsErrorCode code =
    (code ≡ 400) ⊎ (code ≡ 401) ⊎ (code ≡ 409) ⊎ (code ≡ 422) ⊎ (code ≡ 429) ⊎ (code ≡ 500)

-- An error, and no cookie.
abbrev pub AuthRefused : Writer → Type 0
AuthRefused answer =
    (code : ℕ) × (answer.status ≡ some code) × IsErrorCode code × (answer.cookies ≡ [])

auth_status-IsErrorCode : (e : Error) → IsErrorCode (auth_status e)
unfolding auth_status
auth_status-IsErrorCode e = ground arith

auth-Refused : (e : Error) → AuthRefused (answer_auth_error e)
unfolding write_auth_error write_error
auth-Refused e = (auth_status e, refl, auth_status-IsErrorCode e, refl)

bad_request-Refused : (flag : Bool) (e : Error) → AuthRefused (answer_error 400 flag e)
unfolding write_error
bad_request-Refused flag e = (400, refl, inl refl, refl)

-- What ran is what the service did.
fst_of :
    {S A : Type 0} {t : Outcome A × World S} {o : Outcome A} {w : World S} → t ≡ (o, w) → t.0 ≡ o
fst_of h = ap (λ t. t.0) h

module _ {S : Type 0} (app : App S) where
  pub record Created (r : Request) (db : Db) (ran : Writer × World S) : Type 0 where
    pub dto : AuthDto
    pub account : Account
    pub token : TokenPair
    pub between : Db
    pub decoded : decode_json app.codecs app.codecs.decode_auth r.body ≡ ok dto
    pub registered :
        Registered (auth_service app) dto.email dto.password dto.name account db between
    pub logged_in : LoggedIn (auth_service app) dto.email dto.password between ran.1.db
    pub sent : Sent 201 (registered_body account token) token ran.0

  pub record Opened (r : Request) (db : Db) (ran : Writer × World S) : Type 0 where
    pub dto : AuthDto
    pub token : TokenPair
    pub decoded : decode_json app.codecs app.codecs.decode_auth r.body ≡ ok dto
    pub logged_in : LoggedIn (auth_service app) dto.email dto.password db ran.1.db
    pub sent : Sent 200 (tokens_body token) token ran.0

  pub record Renewed (r : Request) (w : World S) (ran : Writer × World S) : Type 0 where
    pub refresh_token : Bytes
    pub claims : RefreshClaims
    pub token : TokenPair
    pub read : refresh_token_of app.codecs r.body r.refresh_cookie ≡ ok refresh_token
    pub valid : validate_refresh_token app.library app.manager refresh_token w.clock ≡ ok claims
    pub rotated : Rotated w.clock claims.id w.db ran.1.db
    pub sent : Sent 200 (tokens_body token) token ran.0

  module _ (law : IsLibrary app.library) (encodes : (b : Body) → app.codecs.encoded b ≡ true) where
    manager_law : IsTokenManager (auth_service app)
    manager_law = manager-IsTokenManager app.library app.manager law app.services

    registered :
        (dto : AuthDto) (ip : Bytes) (w : World S) {account : Account} {w' : World S}
        → register (auth_service app) dto.email dto.password dto.name ip w ≡ (ok account, w')
        → Registered (auth_service app) dto.email dto.password dto.name account w.db w'.db
    registered dto ip w {account} {w'} ran =
        subst
          (λ (t : Outcome Account × World S).
            Registered (auth_service app) dto.email dto.password dto.name account w.db t.1.db)
          ran
          (register-Registered (auth_service app) dto.email dto.password dto.name ip w account
            (fst_of ran))

    logged_in :
        (dto : AuthDto) (ip : Bytes) (w : World S) {token : TokenPair} {w' : World S}
        → login (auth_service app) dto.email dto.password ip w ≡ (ok token, w')
        → LoggedIn (auth_service app) dto.email dto.password w.db w'.db
    logged_in dto ip w {token} {w'} ran =
        subst
          (λ (t : Outcome TokenPair × World S).
            LoggedIn (auth_service app) dto.email dto.password w.db t.1.db)
          ran
          (login-LoggedIn (auth_service app) manager_law dto.email dto.password ip w token
            (fst_of ran))

    -- Over a library that keeps its laws, and with a JSON form for every body, a registration
    -- is answered with status 201, the account, the tokens and their two cookies, and then the
    -- account has been registered and a session of it opened, one after the other; or with an
    -- error status and no cookie.
    pub handle_register-Answered :
        (r : Request) (w : World S)
        → let ran = handle_register app r w in Created r w.db ran ⊎ AuthRefused ran.0
    unfolding handle_register write_json
    handle_register-Answered r w =
        let P : Writer × World S → Type 0 = λ ran. Created r w.db ran ⊎ AuthRefused ran.0 in
        checking-rule P _ _ _ (λ e _. inr (bad_request-Refused false e))
          (λ dto decoded.
            calling-rule P
              (register (auth_service app) dto.email dto.password dto.name (client_ip r)) _ _
              (λ e w' _. inr (auth-Refused e))
              (λ account between made.
                calling-rule P (login (auth_service app) dto.email dto.password (client_ip r)) _ _
                  (λ e w' _. inr (auth-Refused e))
                  (λ token w' entered. inl (record {
                    dto = dto;
                    account = account;
                    token = token;
                    between = between.db;
                    decoded = decoded;
                    registered = registered dto (client_ip r) w made;
                    logged_in = logged_in dto (client_ip r) between entered;
                    sent =
                        rw (encodes (registered_body account token))
                          (record { status = refl; body = refl; cookies = refl });
                  }))))

    -- Under the same conditions, a login is answered with status 200, the tokens and their
    -- cookies, and then it was one with the email and the password of an account, and has
    -- opened a session of it; or with an error status and no cookie.
    pub handle_login-Answered :
        (r : Request) (w : World S)
        → let ran = handle_login app r w in Opened r w.db ran ⊎ AuthRefused ran.0
    unfolding handle_login write_json
    handle_login-Answered r w =
        let P : Writer × World S → Type 0 = λ ran. Opened r w.db ran ⊎ AuthRefused ran.0 in
        checking-rule P _ _ _ (λ e _. inr (bad_request-Refused false e))
          (λ dto decoded.
            calling-rule P (login (auth_service app) dto.email dto.password (client_ip r)) _ _
              (λ e w' _. inr (auth-Refused e))
              (λ token w' entered. inl (record {
                dto = dto;
                token = token;
                decoded = decoded;
                logged_in = logged_in dto (client_ip r) w entered;
                sent =
                    rw (encodes (tokens_body token))
                      (record { status = refl; body = refl; cookies = refl });
              })))

    -- Under the same conditions, a refresh is answered with status 200 and new tokens only for
    -- a valid refresh token, of the cookie or else of the body, whose live session it has
    -- replaced; or with an error status and no cookie.
    pub handle_refresh-Answered :
        (r : Request) (w : World S)
        → let ran = handle_refresh app r w in Renewed r w ran ⊎ AuthRefused ran.0
    unfolding handle_refresh write_json
    handle_refresh-Answered r w =
        let P : Writer × World S → Type 0 = λ ran. Renewed r w ran ⊎ AuthRefused ran.0 in
        checking-rule P _ _ _ (λ e _. inr (bad_request-Refused true e))
          (λ token read.
            calling-rule P (refresh (auth_service app) token (client_ip r)) _ _
              (λ e w' _. inr (auth-Refused e))
              (λ pair w' ran.
                let (claims, valid, rotated) =
                  refresh-Rotated (auth_service app) manager_law token (client_ip r) w ran in
                inl (record {
                  refresh_token = token;
                  claims = claims;
                  token = pair;
                  read = read;
                  valid = valid;
                  rotated = rotated;
                  sent =
                      rw (encodes (tokens_body pair))
                        (record { status = refl; body = refl; cookies = refl });
                })))
