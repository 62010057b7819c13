-- ===== src/Delivery/Router/Protected.antt =====
-- router.go: requests with a token of the manager, from the middleware to the services.
use payment_processing.Prelude.{
  ◌≡◌, ◌⊎◌, refl, sym, ap, subst, ◌∙◌, true, some, inl, inr, Bytes, ok, err, ltb, Bool-cases,
}
use payment_processing.Domain.{Outcome, Uuid, TokenPair, AccessClaims}
use payment_processing.Storage.Tables.{Db}
use payment_processing.Storage.Session.{World}
use payment_processing.Storage.Accounts.Balances.{IsValid}
use payment_processing.Delivery.Jwt.{generate_token_pair, validate_access_token}
use payment_processing.Delivery.Jwt.Laws.{IsLibrary}
use payment_processing.Delivery.Jwt.Pairs.{AreTexts, access_end}
use payment_processing.Delivery.Responses.{Writer, expired_token_body, transfer_body}
use payment_processing.Delivery.Requests.{Request, Identity, with_identity, uuid_outcome}
use payment_processing.Delivery.Middleware.{
  Handler, bearer_token, middleware, unauthorized, with_token, as_claimed,
}
use payment_processing.Delivery.Middleware.Guarded.{with_bearer, IsRefused, middleware_pair}
use payment_processing.Delivery.Handlers.{App, uuid_of}
use payment_processing.Delivery.Handlers.Transactions.Transfer.{
  Transferring, Refused, handle_transfer-Answered,
}
use payment_processing.Delivery.Router.{
  ProtectedRoute, protected, transfer_route, protected_handler, serve,
}

module _ {S : Type 0} (app : App S) where
  -- A valid token, and the request with the identity of its claims.
  pub record Passed (r passed : Request) (w : World S) : Type 0 where
    pub token : Bytes
    pub claims : AccessClaims
    pub bearer : bearer_token r ≡ ok token
    pub valid : validate_access_token app.library app.manager token w.clock ≡ ok claims
    pub identified :
        passed ≡ with_identity (record { user_id = claims.user_id; role = claims.role }) r

  claims_decide :
      (next : Handler S) (r : Request) (w : World S) (token : Bytes) (o : Outcome AccessClaims)
      → bearer_token r ≡ ok token
      → validate_access_token app.library app.manager token w.clock ≡ o
      → ((passed : Request) × Passed r passed w
          × (as_claimed app.library app.manager next r w o ≡ next passed w))
        ⊎ IsRefused w (as_claimed app.library app.manager next r w o)
  unfolding unauthorized
  claims_decide next r w token (err e) bearer valid = inr (refl, refl)
  claims_decide next r w token (ok claims) bearer valid = inl (
    with_identity (record { user_id = claims.user_id; role = claims.role }) r,
    record { token = token; claims = claims; bearer = bearer; valid = valid; identified = refl },
    refl,
  )

  token_decides :
      (next : Handler S) (r : Request) (w : World S) (o : Outcome Bytes)
      → bearer_token r ≡ o
      → ((passed : Request) × Passed r passed w
          × (with_token app.library app.manager next r w o ≡ next passed w))
        ⊎ IsRefused w (with_token app.library app.manager next r w o)
  unfolding unauthorized
  token_decides next r w (err e) bearer = inr (refl, refl)
  token_decides next r w (ok token) bearer = claims_decide next r w token _ bearer refl

  -- A request to a route behind the middleware either carries a valid bearer token, and its
  -- handler runs with the identity of the token's claims, or is answered with status 401 and
  -- changes nothing.
  pub protected_decides :
      (route : ProtectedRoute) (r : Request) (w : World S)
      → ((passed : Request) × Passed r passed w
          × (serve app (protected route) r w ≡ protected_handler app route passed w))
        ⊎ IsRefused w (serve app (protected route) r w)
  unfolding serve middleware
  protected_decides route r w = token_decides (protected_handler app route) r w _ refl

  -- The request of a user with an access token.
  abbrev pub as_user : Bytes → Identity → Request → Request
  as_user token who r = with_identity who (with_bearer token r)

  late-IsRefused : (w : World S) → IsRefused w (unauthorized expired_token_body, w)
  unfolding unauthorized
  late-IsRefused w = (refl, refl)

  module _ (law : IsLibrary app.library)
      (parses : (id : Uuid) → app.codecs.parse_uuid (app.library.uuid_string id) ≡ some id)
      {T : Type 0} (user : Uuid) (role : Bytes) (before : World T) {pair : TokenPair}
      {after : World T} (texts : AreTexts app.manager (app.library.uuid_string user) role)
      (made : generate_token_pair app.library app.manager (app.library.uuid_string user) role before
        ≡ (ok pair, after)) where
    abbrev pub holder : Identity
    holder = record { user_id = app.library.uuid_string user; role = role }

    -- Until the token expires its request reaches the handler, as its user's; then it is refused.
    passes :
        (route : ProtectedRoute) (r : Request) (w : World S)
        → (serve app (protected route) (with_bearer pair.access_token r) w
            ≡ protected_handler app route (as_user pair.access_token holder r) w)
          ⊎ IsRefused w (serve app (protected route) (with_bearer pair.access_token r) w)
    unfolding serve
    passes route r w =
        let through =
          (middleware_pair app.library app.manager (protected_handler app route) law
            (app.library.uuid_string user) role before texts made r w).0 in
        elim (Bool-cases (ltb w.clock (access_end app.manager before.clock))) [
          | inl early ↦ inl (through ∙ rw early refl)
          | inr late ↦
              let ended : serve app (protected route) (with_bearer pair.access_token r) w
                  ≡ (unauthorized expired_token_body, w) =
                through ∙ rw late refl in
              inr (subst (IsRefused w) (sym ended) (late-IsRefused w))
        ]

    -- A transfer that is asked for with an access token which the manager has given to a user
    -- moves money of that user only, from a valid table of accounts: it is answered with status
    -- 201 and the id of a transfer that is done, with this user as the sender, or with an error
    -- status, and nothing is committed. UUIDs are read back as they are written, and the body
    -- of the answer has a JSON form.
    pub holder_transfers :
        ((result : Bytes) → app.codecs.encoded (transfer_body result) ≡ true)
        → (r : Request) (w : World S) → IsValid w.db.accounts
        → let ran = serve app (protected transfer_route) (with_bearer pair.access_token r) w in
          ((t : Transferring app (as_user pair.access_token holder r) w ran.0 ran.1.db)
            × (t.sender_id ≡ user))
          ⊎ Refused app w ran
    unfolding protected_handler
    holder_transfers encodes r w valid = elim (passes transfer_route r w) [
      | inl same ↦
          subst
            (λ ran.
              ((t : Transferring app (as_user pair.access_token holder r) w ran.0 ran.1.db)
                × (t.sender_id ≡ user))
              ⊎ Refused app w ran)
            (sym same)
            (elim (handle_transfer-Answered app encodes (as_user pair.access_token holder r) w
              valid) [ inl t ↦ inl (t, same_sender r t) | inr refused ↦ inr refused ])
      | inr refused ↦ inr (401, refused.0, inr (inl refl), ap (λ (v : World S). v.db) refused.1)
    ]
      where
        same_sender :
            (r : Request) {w : World S} {answer : Writer} {db : Db}
            (t : Transferring app (as_user pair.access_token holder r) w answer db)
            → t.sender_id ≡ user
        same_sender r t =
            let same : holder ≡ t.identity = cc t.known in
            let parsed : uuid_of app.codecs (app.library.uuid_string user) ≡ ok user =
              ap uuid_outcome (parses user) in
            let again : uuid_of app.codecs (app.library.uuid_string user) ≡ ok t.sender_id =
              ap (λ (who : Identity). uuid_of app.codecs who.user_id) same ∙ t.sender in
            cc again
