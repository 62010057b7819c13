-- ===== src/Usecase/Auth/Spent.antt =====
-- storage.go: the statements, against a refresh session that is revoked.
use payment_processing.Prelude.{
  ◌≡◌, Bool, true, ◌&&◌, not, some, List, [], ◌∷◌, ◌++◌, Bytes, eq_bytes, ok, find, find-append,
  update_where, arith,
}
use payment_processing.Domain.{Uuid, Time, Account}
use payment_processing.Storage.Tables.{TokenRow, Db}
use payment_processing.Storage.Session.{statement}
use payment_processing.Storage.Session.Preserves.{
  Preserves, Preserves-statement, Preserves-mapped, preserve_rules,
}
use payment_processing.Storage.Accounts.{
  create, create_outcome, insert_account, check_balances, get_by_id, get_by_email,
}
use payment_processing.Storage.Tokens.{
  save_refresh_token_row, save_outcome, insert_token, revoke_where, get_refresh_token,
  revoke_refresh_token, revoke_all_user_tokens, revoke_token_family,
}

abbrev pub has_jti : Bytes → TokenRow → Bool
has_jti jti r = eq_bytes r.jti jti

-- The session of this jti is there and revoked.
abbrev pub IsSpent : Bytes → Db → Type 0
IsSpent jti db =
    (r : TokenRow) × (find (has_jti jti) db.refresh_token ≡ some r) × (r.revoked ≡ true)

find-revoked :
    (jti : Bytes) (p : TokenRow → Bool) (rs : List TokenRow) (r : TokenRow)
    → find (has_jti jti) rs ≡ some r
    → r.revoked ≡ true
    → find
        (has_jti jti)
        (update_where (λ x. p x && not x.revoked) (λ x. record x { revoked = true }) rs)
      ≡ some r
find-revoked jti p [] r h k = cc
find-revoked jti p (x ∷ rs) r h k = ground (arith, find-revoked jti p rs r)

module _ (jti : Bytes) where
  same_tokens :
      (db db' : Db) → db'.refresh_token ≡ db.refresh_token → IsSpent jti db → IsSpent jti db'
  same_tokens db db' e (r, f, k) = (r, rw e f, k)

  insert_token-tokens :
      (row : TokenRow) (db : Db) (u : Unit {0}) (db' : Db)
      → IsSpent jti db
      → insert_token row db ≡ ok (u, db')
      → IsSpent jti db'
  unfolding insert_token
  insert_token-tokens row db u db' (r, f, k) h =
      let e : db'.refresh_token ≡ db.refresh_token ++ (row ∷ []) = ground arith in
      (r, rw e (find-append (has_jti jti) db.refresh_token (row ∷ []) r f), k)

  insert_account-tokens :
      (row : _) (db : Db) (u : Unit {0}) (db' : Db)
      → insert_account row db ≡ ok (u, db')
      → db'.refresh_token ≡ db.refresh_token
  unfolding insert_account check_balances
  insert_account-tokens row db u db' h = ground arith

  module _ {S : Type 0} where
    Spent-insert_token :
        (row : TokenRow) → Preserves {S = S} (IsSpent jti) (statement (λ now. insert_token row))
    Spent-insert_token row =
        Preserves-statement _ (λ now db u db' s h. insert_token-tokens row db u db' s h)

    Spent-revoke_where :
        (p : TokenRow → Bool) → Preserves {S = S} (IsSpent jti) (statement (λ now. revoke_where p))
    unfolding revoke_where
    Spent-revoke_where p = Preserves-statement _ (λ now db n db' (r, f, k) h.
        let e : db'.refresh_token
            ≡ update_where (λ x. p x && not x.revoked) (λ x. record x { revoked = true })
                db.refresh_token =
          ground arith in
        (r, rw e (find-revoked jti p db.refresh_token r f k), k))

    pub Spent-save :
        (j : Bytes) (u f : Uuid) (t : Time)
        → Preserves {S = S} (IsSpent jti) (save_refresh_token_row j u f t)
    unfolding save_refresh_token_row
    Spent-save j u f t = Preserves-mapped save_outcome _ (Spent-insert_token _)

    pub Spent-create : (a : Account) → Preserves {S = S} (IsSpent jti) (create a)
    unfolding create
    Spent-create a = Preserves-mapped create_outcome _ (
        Preserves-statement _
          (λ now db u db' s h. same_tokens db db' (insert_account-tokens _ db u db' h) s))

    pub Spent-get_by_id : (id : Uuid) → Preserves {S = S} (IsSpent jti) (get_by_id id)
    unfolding get_by_id
    Spent-get_by_id id =
        Preserves-statement _ (λ now db a db' s h. same_tokens db db' (ground arith) s)

    pub Spent-get_by_email : (email : Bytes) → Preserves {S = S} (IsSpent jti) (get_by_email email)
    unfolding get_by_email
    Spent-get_by_email email =
        Preserves-statement _ (λ now db a db' s h. same_tokens db db' (ground arith) s)

    pub Spent-get_refresh_token :
        (j : Bytes) → Preserves {S = S} (IsSpent jti) (get_refresh_token j)
    unfolding get_refresh_token
    Spent-get_refresh_token j =
        Preserves-statement _ (λ now db a db' s h. same_tokens db db' (ground arith) s)

    pub Spent-revoke : (j : Bytes) → Preserves {S = S} (IsSpent jti) (revoke_refresh_token j)
    unfolding revoke_refresh_token
    Spent-revoke j = search (Spent-revoke_where, preserve_rules)

    pub Spent-revoke_all : (u : Uuid) → Preserves {S = S} (IsSpent jti) (revoke_all_user_tokens u)
    unfolding revoke_all_user_tokens
    Spent-revoke_all u = search (Spent-revoke_where, preserve_rules)

    pub Spent-revoke_family : (f : Uuid) → Preserves {S = S} (IsSpent jti) (revoke_token_family f)
    unfolding revoke_token_family
    Spent-revoke_family f = search (Spent-revoke_where, preserve_rules)
