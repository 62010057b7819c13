-- ===== src/Delivery/Jwt/Renewal.antt =====
-- jwt.go under usecase/auth.go: a pair that the manager has made is renewed.
use payment_processing.Prelude.{
  ◌≡◌, ◌≢◌, ◌<◌, refl, ◌∙◌, true, false, some, List, [], ◌∷◌, Bytes, Option, codes, ok, find,
  exists_row, ltb, ◌==◌, arith,
}
use payment_processing.Domain.{Uuid, TokenPair}
use payment_processing.Storage.Tables.{AccountRow}
use payment_processing.Storage.Session.{World, new_uuid}
use payment_processing.Storage.Tokens.{token_row}
use payment_processing.Usecase.Auth.{
  Services, refresh, check_rate_limit, public_token_pair, is_empty,
}
use payment_processing.Usecase.Auth.Spent.{has_jti}
use payment_processing.Usecase.Auth.Rotation.{after_rotation}
use payment_processing.Usecase.Auth.Reuse.{opened}
use payment_processing.Usecase.Auth.Renewal.{revoked, refresh_succeeds}
use payment_processing.Delivery.Jwt.{
  Library, Manager, access_claims, refresh_claims, new_pair, generate_token_pair,
}
use payment_processing.Delivery.Jwt.Laws.{IsLibrary}
use payment_processing.Delivery.Jwt.Pairs.{AreTexts, generate-Made, pair_roundtrip, refresh_end}
use payment_processing.Delivery.Jwt.Purposes.{with_manager, manager-IsTokenManager}

not_empty : (token : Bytes) → token ≢ [] → is_empty token ≡ false
not_empty [] h = absurd (h refl)
not_empty (c ∷ cs) h = refl

module _ (lib : Library) (m : Manager) where
  -- A manager whose library signs makes the pair of the next id.
  generates :
      {S : Type 0} (user_id role access refresh_signed : Bytes) (next : Uuid)
      (rest : List (Option Uuid)) (w : World S)
      → w.ids ≡ some next ∷ rest
      → lib.signed_string (access_claims lib m user_id role w.clock) m.access_secret ≡ ok access
      → lib.signed_string
          (refresh_claims lib m user_id (lib.uuid_string next) w.clock)
          m.refresh_secret
        ≡ ok refresh_signed
      → generate_token_pair lib m user_id role w ≡ (
        ok (new_pair lib m (lib.uuid_string next) w.clock access refresh_signed),
        record w { ids = rest },
      )
  unfolding generate_token_pair new_uuid
  generates user_id role access refresh_signed next rest w ids signed signed' =
      simp (ids, signed, signed') refl

  module _ (law : IsLibrary lib) {S : Type 0} (s : Services S) where
    -- Over a library that keeps its laws, and signs the claims of a new pair, where the limiter
    -- lets the request pass and the database raises no error, a refresh with the refresh token
    -- of a pair that the manager has made succeeds until the token expires, where the table has
    -- the session of the pair, live, and the account of its user, and the next id is in no
    -- session: it returns a new pair made at that time, without its id, revokes the old session
    -- and adds the new pair's in the same family.
    pub pair_renews :
        (account : AccountRow) (role ip : Bytes) (pair : TokenPair) (family_id : Uuid)
        (issued after w : World S) (next : Uuid) (rest : List (Option Uuid))
        (access refresh_signed : Bytes)
        → AreTexts m (lib.uuid_string account.id) role
        → generate_token_pair lib m (lib.uuid_string account.id) role issued ≡ (ok pair, after)
        → w.clock < refresh_end m issued.clock
        → find (has_jti pair.jti) w.db.refresh_token
          ≡ some (token_row pair.jti account.id family_id pair.expires_at)
        → find (λ r. r.id == account.id) w.db.accounts ≡ some account
        → (check_rate_limit (with_manager lib m s) (codes "refresh") ip w).0 ≡ ok tt
        → w.faults ≡ []
        → w.ids ≡ some next ∷ rest
        → exists_row (has_jti (lib.uuid_string next)) w.db.refresh_token ≡ false
        → lib.signed_string
            (access_claims lib m (lib.uuid_string account.id) account.role w.clock)
            m.access_secret
          ≡ ok access
        → lib.signed_string
            (refresh_claims lib m (lib.uuid_string account.id) (lib.uuid_string next) w.clock)
            m.refresh_secret
          ≡ ok refresh_signed
        → let ran = refresh (with_manager lib m s) pair.refresh_token ip w in
          let renewed = new_pair lib m (lib.uuid_string next) w.clock access refresh_signed in
          (ran.0 ≡ ok (public_token_pair renewed))
          × (ran.1.db
              ≡ after_rotation pair.jti renewed.jti account.id family_id renewed.expires_at w.db)
    unfolding check_rate_limit
    pair_renews account role ip pair family_id issued after w next rest access refresh_signed texts
          made_pair in_time found has_owner allowed quiet ids fresh signed signed' =
        let made = generate-Made lib m (lib.uuid_string account.id) role issued made_pair in
        let (_, valid, ends, _) =
          pair_roundtrip lib m law (lib.uuid_string account.id) role issued texts made_pair
            w.clock in
        let service = with_manager lib m s in
        let early : ltb w.clock (refresh_end m issued.clock) ≡ true = ground (arith, in_time) in
        let at = revoked service pair.jti (opened service ip w) in
        refresh_succeeds service (manager-IsTokenManager lib m law s) pair.refresh_token ip
          (record {
            user_id = lib.uuid_string account.id;
            id = pair.jti;
            subject = lib.uuid_string account.id;
          })
          (token_row pair.jti account.id family_id pair.expires_at) account
          (new_pair lib m (lib.uuid_string next) w.clock access refresh_signed) w
          (record at { ids = rest })
          (not_empty pair.refresh_token
            (law.signed_full _ m.refresh_secret pair.refresh_token made.refresh))
          allowed (valid ∙ rw early refl) quiet found refl (omega (arith, in_time, ends)) refl
          has_owner
          (generates (lib.uuid_string account.id) account.role access refresh_signed next rest at
            ids signed signed')
          refl fresh
