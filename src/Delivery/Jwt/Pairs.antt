-- ===== src/Delivery/Jwt/Pairs.antt =====
-- jwt.go: the pairs that `GenerateTokenPair` makes, and what the two validations answer to them.
use payment_processing.Prelude.{
  ◌+◌, ◌≤◌, ◌<◌, ◌≡◌, ◌≢◌, refl, sym, ap, ◌∙◌, inl, inr, [], Bytes, eq_bytes_self, eq_bytes_ne, ok,
  err, ltb, if◌then◌else◌, Bool-cases, arith,
}
use payment_processing.Domain.{Outcome, Uuid, Time, TokenPair, token_expired}
use payment_processing.Storage.Session.{World, lift, new_uuid}
use payment_processing.Storage.Session.Frames.{bind-ok}
use payment_processing.Delivery.Jwt.{
  Claims, Library, Manager, numeric_date, time_add, nanoseconds, access_claims, refresh_claims,
  new_pair, generate_token_pair, parse, access_view, refresh_view, validate_access_token,
  validate_refresh_token,
}
use payment_processing.Delivery.Jwt.Laws.{IsAscii, IsText, IsLibrary}

lift-ok :
    {S A : Type 0} (r : Outcome A) (w : World S) {a : A} {w' : World S}
    → lift r w ≡ (ok a, w')
    → (r ≡ ok a) × (w' ≡ w)
lift-ok r w h = (cc, cc)

-- What a pair is made of.
pub record Made {S : Type 0} (lib : Library) (m : Manager) (user_id role : Bytes) (w : World S)
    (pair : TokenPair) : Type 0 where
  pub jti : Uuid
  pub access :
      lib.signed_string (access_claims lib m user_id role w.clock) m.access_secret
      ≡ ok pair.access_token
  pub refresh :
      lib.signed_string
        (refresh_claims lib m user_id (lib.uuid_string jti) w.clock)
        m.refresh_secret
      ≡ ok pair.refresh_token
  pub id : pair.jti ≡ lib.uuid_string jti
  pub ends : pair.expires_at ≡ time_add w.clock m.refresh_ttl

module _ (lib : Library) (m : Manager) where
  pub generate-Made :
      {S : Type 0} (user_id role : Bytes) (w : World S) {pair : TokenPair} {w' : World S}
      → generate_token_pair lib m user_id role w ≡ (ok pair, w')
      → Made lib m user_id role w pair
  unfolding generate_token_pair
  generate-Made user_id role w {pair = pair} h =
      let (access_signed, w1, signed1, h1) =
        bind-ok
          (lift (lib.signed_string (access_claims lib m user_id role w.clock) m.access_secret)) _ w
          h in
      let (jti, w2, _, h2) = bind-ok new_uuid _ w1 h1 in
      let (refresh_signed, w3, signed3, h3) =
        bind-ok
          (lift (
            lib.signed_string (refresh_claims lib m user_id (lib.uuid_string jti) w.clock)
              m.refresh_secret))
          _ w2 h2 in
      let (first, _) = lift-ok _ w signed1 in
      let (second, _) = lift-ok _ w2 signed3 in
      let made : new_pair lib m (lib.uuid_string jti) w.clock access_signed refresh_signed ≡ pair =
        cc in
      record {
        jti = jti;
        access = first ∙ ap (λ (p : TokenPair). ok p.access_token) made;
        refresh = second ∙ ap (λ (p : TokenPair). ok p.refresh_token) made;
        id = sym (ap (λ (p : TokenPair). p.jti) made);
        ends = sym (ap (λ (p : TokenPair). p.expires_at) made);
      }

-- The texts that go into a pair.
pub record AreTexts (m : Manager) (user_id role : Bytes) : Type 0 where
  pub user_ascii : IsAscii user_id
  pub role_ascii : IsAscii role
  pub issuer_ascii : IsAscii m.issuer
  pub has_user : user_id ≢ []
  pub has_role : role ≢ []

-- The instants at which the two tokens of a pair made at `now` expire.
abbrev pub access_end : Manager → Time → Time
access_end m now = numeric_date (time_add now m.access_ttl)

abbrev pub refresh_end : Manager → Time → Time
refresh_end m now = numeric_date (time_add now m.refresh_ttl)

-- What a validation answers that accepts until `end`.
abbrev pub until : {A : Type 0} → Time → Time → A → Outcome A
until now end a = if ltb now end then ok a else err token_expired

numeric_date_bounds : (t : Time) → (numeric_date t ≤ t) × (t < numeric_date t + nanoseconds)
numeric_date_bounds t = (omega arith, omega arith)

module _ (lib : Library) (m : Manager) (law : IsLibrary lib) where
  parse_signed :
      (c : Claims) (secret token : Bytes) (now : Time)
      → IsText c
      → c.issuer ≡ m.issuer
      → lib.signed_string c secret ≡ ok token
      → parse lib m token secret now ≡ until now c.expires_at c
  unfolding parse
  parse_signed c secret token now text same signed = elim (Bool-cases (ltb now c.expires_at)) [
    | inl early ↦
        rw (sym same, law.believed c secret token now text signed (ground arith), early) refl
    | inr late ↦ rw (sym same, law.expires c secret token now text signed (ground arith), late) refl
  ]

  pub access-IsText :
      (user_id role : Bytes) (now : Time)
      → AreTexts m user_id role
      → IsText (access_claims lib m user_id role now)
  access-IsText user_id role now t = record {
    user_id = t.user_ascii;
    role = t.role_ascii;
    id = tt;
    subject = t.user_ascii;
    issuer = t.issuer_ascii;
  }

  pub refresh-IsText :
      (user_id role : Bytes) (id : Uuid) (now : Time)
      → AreTexts m user_id role
      → IsText (refresh_claims lib m user_id (lib.uuid_string id) now)
  refresh-IsText user_id role id now t = record {
    user_id = t.user_ascii;
    role = tt;
    id = law.uuid_ascii id;
    subject = t.user_ascii;
    issuer = t.issuer_ascii;
  }

  access_view-until :
      (user_id role : Bytes) (now end : Time) (issued : Time)
      → AreTexts m user_id role
      → access_view (until now end (access_claims lib m user_id role issued))
        ≡ until now end (record { user_id = user_id; role = role; subject = user_id })
  access_view-until user_id role now end issued t = elim (Bool-cases (ltb now end)) [
    | inl early ↦
        rw
          (
            early,
            eq_bytes_ne user_id [] t.has_user,
            eq_bytes_self user_id,
            eq_bytes_ne role [] t.has_role,
          )
          refl
    | inr late ↦ rw late refl
  ]

  refresh_view-until :
      (user_id role jti : Bytes) (now end : Time) (issued : Time)
      → AreTexts m user_id role
      → jti ≢ []
      → refresh_view (until now end (refresh_claims lib m user_id jti issued))
        ≡ until now end (record { user_id = user_id; id = jti; subject = user_id })
  refresh_view-until user_id role jti now end issued t full = elim (Bool-cases (ltb now end)) [
    | inl early ↦
        rw
          (early, eq_bytes_ne user_id [] t.has_user, eq_bytes_self user_id, eq_bytes_ne jti [] full)
          refl
    | inr late ↦ rw late refl
  ]

  -- Where the library keeps its laws and the texts are ASCII, with a user and a role that are
  -- not empty, a pair that the manager has made is read back until each token expires, as the
  -- user and the role that it was made for, and with the pair's id; after that, as expired. The
  -- refresh token ends with the session of the pair, or less than a second before.
  pub pair_roundtrip :
      {S : Type 0} (user_id role : Bytes) (w : World S) {pair : TokenPair} {w' : World S}
      → AreTexts m user_id role
      → generate_token_pair lib m user_id role w ≡ (ok pair, w')
      → (now : Time)
      → (validate_access_token lib m pair.access_token now
          ≡ until now
              (access_end m w.clock)
              (record { user_id = user_id; role = role; subject = user_id }))
        × (validate_refresh_token lib m pair.refresh_token now
            ≡ until now
                (refresh_end m w.clock)
                (record { user_id = user_id; id = pair.jti; subject = user_id }))
        × (refresh_end m w.clock ≤ pair.expires_at)
        × (pair.expires_at < refresh_end m w.clock + nanoseconds)
  unfolding validate_access_token validate_refresh_token
  pair_roundtrip user_id role w {pair = pair} texts h now =
      let made = generate-Made lib m user_id role w h in
      (
        ap access_view (
              parse_signed _ m.access_secret pair.access_token now
                (access-IsText user_id role w.clock texts) refl made.access)
            ∙ access_view-until user_id role now _ w.clock texts,
        ap refresh_view (
              parse_signed _ m.refresh_secret pair.refresh_token now
                (refresh-IsText user_id role made.jti w.clock texts) refl made.refresh)
            ∙ refresh_view-until user_id role _ now _ w.clock texts (law.uuid_full made.jti)
            ∙ ap
                (λ jti.
                  until now (refresh_end m w.clock)
                    (record { user_id = user_id; id = jti; subject = user_id }))
                (sym made.id),
        rw made.ends (numeric_date_bounds _).0,
        rw made.ends (numeric_date_bounds _).1,
      )
