-- ===== src/Usecase/Auth/Refresh.antt =====
-- usecase/auth.go, `Refresh`: a success, and the token that was used.
use payment_processing.Prelude.{
  ◌<◌, ◌≡◌, ◌≢◌, refl, sym, subst, subst₂, ◌∙◌, ap, Bool, true, false, not, some, List, [], ◌∷◌,
  Bytes, eq_bytes, eq_bytes_iff, codes, ok, err, find, find-append, arith,
}
use payment_processing.Domain.{
  Error, Outcome, Time, RefreshSession, RefreshClaims, TokenPair, invalid_refresh_token,
}
use payment_processing.Storage.Tables.{TokenRow, Db}
use payment_processing.Storage.Session.{
  World, M, guard, pure, ◌>>=◌, ◌>>◌, new_tx, deferring_rollback, rollback,
}
use payment_processing.Storage.Session.Preserves.{Holds}
use payment_processing.Storage.Session.Frames.{
  bind-ok, guard-ok, deferring-ok, new_tx-ok, SameOutside-ran, Frame-statement, Frame-new_tx,
}
use payment_processing.Storage.Tokens.{session_of, get_refresh_token}
use payment_processing.Usecase.Auth.Spent.{has_jti, IsSpent}
use payment_processing.Usecase.Auth.Revoked.{IsTokenManager}
use payment_processing.Usecase.Auth.Requests.{Request, handle_all, handle_all-IsSpent}
use payment_processing.Usecase.Auth.Rotation.{
  with_revoked, after_rotation, get_refresh_token-ok, use-ok,
}
use payment_processing.Usecase.Auth.{
  Services, refresh, claimed_session, use_session, map_error, map_outcome, claims_error,
  session_error, check_rate_limit, is_empty,
}

-- What a successful refresh has found and left.
pub record Rotated (now : Time) (jti : Bytes) (db db' : Db) : Type 0 where
  pub row : TokenRow
  pub found : find (has_jti jti) db.refresh_token ≡ some row
  pub live : row.revoked ≡ false
  pub in_time : now < row.expires_at
  pub new_jti : Bytes
  pub expires_at : Time
  pub left : db' ≡ after_rotation jti new_jti row.user_id row.family_id expires_at db

pub mapped-ok :
    {S A : Type 0} (f : Error → Error) (m : M S A) (w : World S) {a : A} {w' : World S}
    → map_error f m w ≡ (ok a, w')
    → m w ≡ (ok a, w')
unfolding map_error
mapped-ok {S} {A} f m w {a} {w'} h = go (m w).0 (m w).1 h
  where
    go :
        (r : Outcome A) (v : World S)
        → ◌≡◌ {A = Outcome A × World S} (map_outcome f r, v) (ok a, w')
        → ◌≡◌ {A = Outcome A × World S} (r, v) (ok a, w')
    go (ok b) v h = h
    go (err e) v h = cc

guarded-ok :
    {S A : Type 0} (b : Bool) (e : Error) (a : A) (w : World S) {a' : A} {w' : World S}
    → (guard b e >> pure a) w ≡ (ok a', w')
    → (b ≡ true) × (a' ≡ a) × (w' ≡ w)
guarded-ok true e a w h = (refl, cc, cc)
guarded-ok false e a w h = cc

-- What `check_rate_limit` leaves alone.
asked-same :
    {S : Type 0} (s : Services S) (operation ip : Bytes) (w : World S) {r : Outcome (Unit {0})}
    {w' : World S}
    → check_rate_limit s operation ip w ≡ (r, w')
    → (w'.db ≡ w.db) × (w'.clock ≡ w.clock)
unfolding check_rate_limit
asked-same s operation ip w h = (
  ap (λ (t : Outcome (Unit {0}) × World _). t.1.db) (sym h),
  ap (λ (t : Outcome (Unit {0}) × World _). t.1.clock) (sym h),
)

deferring-tx :
    {S A : Type 0} (m : M S A) (w : World S) {r : Outcome A} {w' : World S}
    → deferring_rollback m w ≡ (r, w')
    → w'.tx_db ≡ w'.db
unfolding deferring_rollback rollback
deferring-tx {S} {A} m w h =
    ap (λ (t : Outcome A × World S). t.1.tx_db) (sym h) ∙ ap (λ (t : Outcome A × World S). t.1.db) h

module _ {S : Type 0} (s : Services S) (law : IsTokenManager s) where
  Frame-get_refresh_token :
      (jti : Bytes) (w : World S) {r : RefreshSession} {w' : World S}
      → get_refresh_token jti w ≡ (ok r, w')
      → w'.clock ≡ w.clock
  unfolding get_refresh_token
  Frame-get_refresh_token jti w h = (SameOutside-ran _ (Frame-statement _) w h).clock

  claimed_session-ok :
      (claims : RefreshClaims) (w : World S) {session : RefreshSession} {w' : World S}
      → claimed_session s claims w ≡ (ok session, w')
      → (w'.tx_db ≡ w.tx_db)
        × (w'.clock ≡ w.clock)
        × (claims.user_id ≡ s.uuid_string session.user_id)
        × ((r : TokenRow) × (find (has_jti claims.id) w.tx_db.refresh_token ≡ some r)
            × (session ≡ session_of r))
  unfolding map_error
  claimed_session-ok claims w {session} {w'} h =
      let (found, w1, ran1, h1) =
        bind-ok (map_error session_error (get_refresh_token claims.id)) _ w h in
      let (owner, session_found, left) =
        guarded-ok (eq_bytes claims.user_id (s.uuid_string found.user_id)) invalid_refresh_token
          found w1 h1 in
      let got = mapped-ok session_error (get_refresh_token claims.id) w ran1 in
      let (same, (r, hit, is_r)) = get_refresh_token-ok claims.id w got in
      (
        ap (λ (v : World S). v.tx_db) left ∙ same,
        ap (λ (v : World S). v.clock) left ∙ Frame-get_refresh_token claims.id w got,
        rw session_found ((eq_bytes_iff _ _).0 owner),
        (r, hit, session_found ∙ is_r),
      )

  body-ok :
      (claims : RefreshClaims) (w : World S) {pair : TokenPair} {w' : World S}
      → deferring_rollback (claimed_session s claims >>= use_session s claims) w ≡ (ok pair, w')
      → Rotated w.clock claims.id w.tx_db w'.db
  body-ok claims w h =
      let (u, body, left) = deferring-ok (claimed_session s claims >>= use_session s claims) w h in
      let (session, v, claimed, used) =
        bind-ok (claimed_session s claims) (use_session s claims) w body in
      let (same, clock, owner, (r, hit, is_r)) = claimed_session-ok claims w claimed in
      let (live, in_time, (jti, t, rotated)) = use-ok s law claims session v used in
      record {
        row = r;
        found = hit;
        live = rw is_r at live;
        in_time = rw (clock, is_r) at in_time;
        new_jti = jti;
        expires_at = t;
        left = left ∙ rw (same, is_r) at rotated;
      }

  -- What precedes the session.
  pub refresh-begins :
      (token ip : Bytes) (w : World S) {pair : TokenPair} {w' : World S}
      → refresh s token ip w ≡ (ok pair, w')
      → (claims : RefreshClaims) × (v : World S) × (s.validate_refresh_token token w.clock
          ≡ ok claims)
        × (v.clock ≡ w.clock)
        × (v.tx_db ≡ w.db)
        × (deferring_rollback (claimed_session s claims >>= use_session s claims) v ≡ (ok pair, w'))
  unfolding refresh
  refresh-begins token ip w h =
      let (_, w1, ran1, h1) = bind-ok (guard (not (is_empty token)) invalid_refresh_token) _ w h in
      let (_, w2, ran2, h2) = bind-ok (check_rate_limit s (codes "refresh") ip) _ w1 h1 in
      let (claims, w3, ran3, h3) =
        bind-ok
          (map_error claims_error (λ (v : World S). (s.validate_refresh_token token v.clock, v))) _
          w2 h2 in
      let (_, w4, ran4, h4) = bind-ok new_tx _ w3 h3 in
      let (_, same1) = guard-ok (not (is_empty token)) invalid_refresh_token w ran1 in
      let (db2, clock2) = asked-same s (codes "refresh") ip w1 ran2 in
      let valid =
        mapped-ok claims_error (λ (v : World S). (s.validate_refresh_token token v.clock, v)) w2
          ran3 in
      let began = SameOutside-ran new_tx Frame-new_tx w3 ran4 in
      let same3 : w3 ≡ w2 = sym (ap (λ (t : Outcome RefreshClaims × World S). t.1) valid) in
      let clock : w2.clock ≡ w.clock = clock2 ∙ ap (λ (v : World S). v.clock) (sym same1) in
      let db : w2.db ≡ w.db = db2 ∙ ap (λ (v : World S). v.db) (sym same1) in
      (
        claims,
        w4,
        ap (s.validate_refresh_token token) (sym clock)
            ∙ ap (λ (t : Outcome RefreshClaims × World S). t.0) valid,
        began.clock ∙ ap (λ (v : World S). v.clock) same3 ∙ clock,
        (new_tx-ok w3 ran4).0 ∙ ap (λ (v : World S). v.db) same3 ∙ db,
        h4,
      )

  -- With a token manager that keeps the tables, a refresh succeeds only with the session that
  -- the token's valid claims name, which must be live: it is then revoked, and a new one of the
  -- same user stands in its family; no other table has changed.
  pub refresh-Rotated :
      (token ip : Bytes) (w : World S) {pair : TokenPair} {w' : World S}
      → refresh s token ip w ≡ (ok pair, w')
      → (claims : RefreshClaims) × (s.validate_refresh_token token w.clock ≡ ok claims)
        × Rotated w.clock claims.id w.db w'.db
  refresh-Rotated token ip w {pair} {w'} h =
      let (claims, v, valid, clock, same, ran) = refresh-begins token ip w h in
      (claims, valid, subst₂ (λ t d. Rotated t claims.id d w'.db) clock same (body-ok claims v ran))

pub find-rotated :
    (jti : Bytes) (rs : List TokenRow) (r : TokenRow)
    → find (has_jti jti) rs ≡ some r
    → r.revoked ≡ false
    → find (has_jti jti) (with_revoked jti rs) ≡ some (record r { revoked = true })
find-rotated jti [] r h k = cc
find-rotated jti (x ∷ rs) r h k = ground (arith, find-rotated jti rs r)

Rotated-IsSpent :
    (now : Time) (jti : Bytes) (db db' : Db) → Rotated now jti db db' → IsSpent jti db'
Rotated-IsSpent now jti db db' t = (
  record t.row { revoked = true },
  rw t.left (
      find-append (has_jti jti) (with_revoked jti db.refresh_token) _ _
        (find-rotated jti db.refresh_token t.row t.found t.live)),
  refl,
)

module _ {S : Type 0} (s : Services S) (law : IsTokenManager s) where
  refresh-IsSpent :
      (token ip : Bytes) (w : World S) (pair : TokenPair)
      → (refresh s token ip w).0 ≡ ok pair
      → (claims : RefreshClaims) × (s.validate_refresh_token token w.clock ≡ ok claims)
        × Holds (IsSpent claims.id) (refresh s token ip w).1
  refresh-IsSpent token ip w pair first =
      let w1 = (refresh s token ip w).1 in
      let ran : refresh s token ip w ≡ (ok pair, w1) = ap (λ r. (r, w1)) first in
      let (claims, valid, t) = refresh-Rotated s law token ip w ran in
      let (claims', v, _, _, _, body) = refresh-begins s law token ip w ran in
      let spent = Rotated-IsSpent w.clock claims.id w.db w1.db t in
      (
        claims,
        valid,
        (
          spent,
          subst (IsSpent claims.id)
              (sym (deferring-tx (claimed_session s claims' >>= use_session s claims') v body))
              spent,
        ),
      )

  -- A spent session lets no refresh succeed.
  pub spent-refused :
      (claims : RefreshClaims) (token ip : Bytes) (before : Time) (w : World S) (again : TokenPair)
      → s.validate_refresh_token token before ≡ ok claims
      → IsSpent claims.id w.db
      → (refresh s token ip w).0 ≢ ok again
  spent-refused claims token ip before w again valid (row, found, revoked) second =
      let w1 = (refresh s token ip w).1 in
      let (claims', valid', t) = refresh-Rotated s law token ip w (ap (λ r. (r, w1)) second) in
      let same : claims' ≡ claims =
        law.same_claims token w.clock before claims' claims valid' valid in
      let hit : find (has_jti claims.id) w.db.refresh_token ≡ some t.row =
        subst (λ (c : RefreshClaims). find (has_jti c.id) w.db.refresh_token ≡ some t.row) same
          t.found in
      cc (hit, found, revoked, t.live)

  -- With a token manager that keeps the tables and gives a token the same claims always, after
  -- a refresh has succeeded, and whatever requests came in between, no refresh with the same
  -- token succeeds, at any time.
  pub refresh_once :
      (token ip : Bytes) (w : World S) (pair : TokenPair)
      → (refresh s token ip w).0 ≡ ok pair
      → (between : List (Time × Request)) (now : Time) (ip' : Bytes) (again : TokenPair)
      → let later = handle_all s between (refresh s token ip w).1 in
        (refresh s token ip' (record later { clock = now })).0 ≢ ok again
  refresh_once token ip w pair first between now ip' again second =
      let (claims, valid, spent) = refresh-IsSpent token ip w pair first in
      let later = handle_all s between (refresh s token ip w).1 in
      spent-refused claims token ip' w.clock (record later { clock = now }) again valid
        (handle_all-IsSpent s law claims.id between (refresh s token ip w).1 spent).0 second
