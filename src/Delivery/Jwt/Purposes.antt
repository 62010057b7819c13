-- ===== src/Delivery/Jwt/Purposes.antt =====
-- jwt.go: a token serves the purpose that it was made for, and the manager is what the service of
-- internal/usecase/auth.go takes it for.
use payment_processing.Prelude.{
  ◌≡◌, ◌≢◌, refl, sym, ap, ◌∙◌, Bool, true, false, [], Bytes, eq_bytes, ok, err, Result, arith,
}
use payment_processing.Domain.{Outcome, Uuid, Time, TokenPair, AccessClaims, RefreshClaims}
use payment_processing.Storage.Session.{World, lift, new_uuid}
use payment_processing.Storage.Session.Frames.{Keeps, Keeps-bind}
use payment_processing.Usecase.Auth.{Services}
use payment_processing.Usecase.Auth.Revoked.{IsTokenManager}
use payment_processing.Delivery.Jwt.{
  Claims, JwtError, Library, Manager, access_claims, refresh_claims, generate_token_pair, parse,
  current_time, parse_outcome, access_view, refresh_view, validate_access_token,
  validate_refresh_token,
}
use payment_processing.Delivery.Jwt.Laws.{IsLibrary}
use payment_processing.Delivery.Jwt.Pairs.{generate-Made, AreTexts, access-IsText, refresh-IsText}

-- A validation that succeeds has read the claims from the token.
refresh_view-ok :
    (r : Result JwtError (Claims × Bool)) {a : RefreshClaims}
    → refresh_view (parse_outcome r) ≡ ok a
    → (c : Claims) × (r ≡ ok (c, true))
      × (eq_bytes c.id [] ≡ false)
      × (a ≡ record { user_id = c.user_id; id = c.id; subject = c.subject })
refresh_view-ok (err JwtError.expired) h = cc
refresh_view-ok (err JwtError.malformed) h = cc
refresh_view-ok (ok (c, false)) h = cc
refresh_view-ok (ok (c, true)) h = (c, refl, ground arith, ground arith)

access_view-ok :
    (r : Result JwtError (Claims × Bool)) {a : AccessClaims}
    → access_view (parse_outcome r) ≡ ok a
    → (c : Claims) × (r ≡ ok (c, true)) × (eq_bytes c.role [] ≡ false)
access_view-ok (err JwtError.expired) h = cc
access_view-ok (err JwtError.malformed) h = cc
access_view-ok (ok (c, false)) h = cc
access_view-ok (ok (c, true)) h = (c, refl, ground arith)

-- The service with this manager.
abbrev pub with_manager : {S : Type 0} → Library → Manager → Services S → Services S
with_manager lib m s = record s {
  uuid_string = lib.uuid_string;
  generate_token_pair = generate_token_pair lib m;
  validate_refresh_token = validate_refresh_token lib m;
}

module _ (lib : Library) (m : Manager) (law : IsLibrary lib) where
  -- Under the same laws, no access token of a pair is ever accepted as a refresh token, and no
  -- refresh token as an access token, even if both have one secret.
  pub pair_purposes :
      {S : Type 0} (user_id role : Bytes) (w : World S) {pair : TokenPair} {w' : World S}
      → AreTexts m user_id role
      → generate_token_pair lib m user_id role w ≡ (ok pair, w')
      → (now : Time) (a : AccessClaims) (r : RefreshClaims)
      → (validate_refresh_token lib m pair.access_token now ≢ ok r)
        × (validate_access_token lib m pair.refresh_token now ≢ ok a)
  unfolding validate_access_token validate_refresh_token parse eq_bytes
  pair_purposes user_id role w {pair = pair} texts h now a r =
      let made = generate-Made lib m user_id role w h in
      (
        λ k.
            let (c, read, full, _) = refresh_view-ok _ k in
            let same =
              law.payload _ c m.access_secret m.refresh_secret pair.access_token m.issuer now true
                (access-IsText lib m law user_id role w.clock texts) made.access read in
            cc (ap (λ (d : Claims). eq_bytes d.id []) same),
        λ k.
            let (c, read, full) = access_view-ok _ k in
            let same =
              law.payload _ c m.refresh_secret m.access_secret pair.refresh_token m.issuer now true
                (refresh-IsText lib m law user_id role made.jti w.clock texts) made.refresh read in
            cc (ap (λ (d : Claims). eq_bytes d.role []) same),
      )

  Keeps-generate :
      {S X : Type 0} (f : World S → X)
      → ((w : World S) → f (new_uuid w).1 ≡ f w)
      → (user_id role : Bytes) → Keeps f (generate_token_pair lib m user_id role)
  unfolding generate_token_pair
  Keeps-generate f same user_id role =
      let access : Time → Outcome Bytes =
        λ now. lib.signed_string (access_claims lib m user_id role now) m.access_secret in
      let refresh : Time → Uuid → Outcome Bytes = λ now jti.
        lib.signed_string (refresh_claims lib m user_id (lib.uuid_string jti) now)
          m.refresh_secret in
      Keeps-bind current_time _ (record { at = λ w. refl })
        (λ now.
          Keeps-bind (lift (access now)) _ (record { at = λ w. refl })
            (λ access_signed.
              Keeps-bind new_uuid _ (record { at = same })
                (λ jti.
                  Keeps-bind (lift (refresh now jti)) _ (record { at = λ w. refl })
                    (λ refresh_signed. record { at = λ w. refl }))))

  -- Over a library that keeps its laws, the manager is what the authentication service takes it
  -- for: it changes no table, and a token has the same claims whenever it is accepted.
  pub manager-IsTokenManager : {S : Type 0} (s : Services S) → IsTokenManager (with_manager lib m s)
  unfolding validate_refresh_token parse new_uuid
  manager-IsTokenManager s = record {
    same_tables = λ user role w. (
      (Keeps-generate (λ (w : World _). w.db) (λ w. refl) user role).at w,
      (Keeps-generate (λ (w : World _). w.tx_db) (λ w. refl) user role).at w,
    );
    same_claims = λ token now later a b h k.
        let (c, read, _, is_a) = refresh_view-ok _ h in
        let (d, reread, _, is_b) = refresh_view-ok _ k in
        let same = law.steady token m.refresh_secret m.issuer now later c d true true read reread in
        is_a
        ∙ ap (λ (c : Claims). record { user_id = c.user_id; id = c.id; subject = c.subject }) same
        ∙ sym is_b;
  }
