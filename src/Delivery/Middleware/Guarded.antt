-- ===== src/Delivery/Middleware/Guarded.antt =====
-- middleware.go: whom the middleware lets through, and as whom.
use payment_processing.Prelude.{
  ◌≡◌, ◌≢◌, refl, sym, ap, ◌∙◌, some, inl, inr, [], ◌++◌, Bytes, codes, eq_bytes, eq_bytes_ne, ok,
  err, ltb, if◌then◌else◌, Bool-cases,
}
use payment_processing.Domain.{Time, Outcome, AccessClaims, TokenPair, RefreshClaims}
use payment_processing.Storage.Tables.{lower, lower_char}
use payment_processing.Storage.Session.{World}
use payment_processing.Delivery.Jwt.{Library, Manager, generate_token_pair, validate_access_token}
use payment_processing.Delivery.Jwt.Laws.{IsLibrary}
use payment_processing.Delivery.Jwt.Pairs.{
  generate-Made, AreTexts, access_end, until, pair_roundtrip,
}
use payment_processing.Delivery.Jwt.Purposes.{pair_purposes}
use payment_processing.Delivery.Responses.{Writer, expired_token_body}
use payment_processing.Delivery.Requests.{Request, Identity, with_identity}
use payment_processing.Delivery.Middleware.{
  Handler, bearer_token, cut_space, middleware, unauthorized, with_token, as_claimed,
}

-- A request with a token behind the scheme of bearer tokens.
abbrev pub with_bearer : Bytes → Request → Request
with_bearer token r = record r { authorization = codes "Bearer " ++ token }

bearer_token-with :
    (token : Bytes) (r : Request) → token ≢ [] → bearer_token (with_bearer token r) ≡ ok token
unfolding bearer_token cut_space lower lower_char eq_bytes
bearer_token-with token r full = rw (eq_bytes_ne token [] full) refl

abbrev no_claims : RefreshClaims
no_claims = record { user_id = []; id = []; subject = [] }

-- A refusal: status 401, and nothing done.
abbrev pub IsRefused : {S : Type 0} → World S → Writer × World S → Type 0
IsRefused w ran = (ran.0.status ≡ some 401) × (ran.1 ≡ w)

-- What the middleware makes of a token that is good until `end`.
abbrev pub passes_until :
    {S : Type 0} → Time → Handler S → Identity → Request → World S → Writer × World S
passes_until end next who r w =
    if ltb w.clock end then next (with_identity who r) w else (unauthorized expired_token_body, w)

module _ {S : Type 0} (lib : Library) (m : Manager) (next : Handler S) where
  IsRefused-claims :
      (r : Request) (w : World S) (o : Outcome AccessClaims)
      → ((a : AccessClaims) → o ≢ ok a)
      → IsRefused w (as_claimed lib m next r w o)
  unfolding unauthorized
  IsRefused-claims r w (ok a) h = absurd (h a refl)
  IsRefused-claims r w (err e) h = (refl, refl)

  pub IsRefused-token :
      (r : Request) (w : World S) (o : Outcome Bytes)
      → ((token : Bytes) (a : AccessClaims)
          → o ≡ ok token
          → validate_access_token lib m token w.clock ≢ ok a)
      → IsRefused w (with_token lib m next r w o)
  unfolding unauthorized
  IsRefused-token r w (err e) h = (refl, refl)
  IsRefused-token r w (ok token) h = IsRefused-claims r w _ (λ a. h token a refl)

  claimed_until :
      (who : Identity) (subject : Bytes) (r : Request) (w : World S) (end : Time)
      → as_claimed lib m next r w
          (until w.clock end (record { user_id = who.user_id; role = who.role; subject = subject }))
        ≡ passes_until end next who r w
  claimed_until who subject r w end = elim (Bool-cases (ltb w.clock end)) [
    | inl early ↦ rw early refl
    | inr late ↦ rw late refl
  ]

  -- Under the laws of the library, a request with the access token of a pair reaches the
  -- handler behind the middleware until the token expires, as the user and the role that the
  -- pair was made for, and is refused as expired after that; with the refresh token it is
  -- refused always, with status 401 and nothing done.
  pub middleware_pair :
      IsLibrary lib
      → {T : Type 0} (user_id role : Bytes) (before : World T) {pair : TokenPair} {after : World T}
      → AreTexts m user_id role
      → generate_token_pair lib m user_id role before ≡ (ok pair, after)
      → (r : Request) (w : World S)
      → (middleware lib m next (with_bearer pair.access_token r) w
          ≡ passes_until
              (access_end m before.clock)
              next
              (record { user_id = user_id; role = role })
              (with_bearer pair.access_token r)
              w)
        × IsRefused w (middleware lib m next (with_bearer pair.refresh_token r) w)
  unfolding middleware
  middleware_pair law user_id role before {pair = pair} texts made r w =
      let parts = generate-Made lib m user_id role before made in
      let good = (pair_roundtrip lib m law user_id role before texts made w.clock).0 in
      let request = with_bearer pair.access_token r in
      (
        ap (with_token lib m next request w) (
              bearer_token-with pair.access_token r
                (law.signed_full _ m.access_secret pair.access_token parts.access))
            ∙ ap (as_claimed lib m next request w) good
            ∙ claimed_until _ user_id request w _,
        IsRefused-token (with_bearer pair.refresh_token r) w _ (λ token a q k.
            let same : token ≡ pair.refresh_token = cc (
              bearer_token-with pair.refresh_token r
                (law.signed_full _ m.refresh_secret pair.refresh_token parts.refresh)) in
            (pair_purposes lib m law user_id role before texts made w.clock a no_claims).1
              (ap (λ t. validate_access_token lib m t w.clock) (sym same) ∙ k)),
      )
