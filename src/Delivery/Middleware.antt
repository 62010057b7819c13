-- ===== src/Delivery/Middleware.antt =====
-- internal/delivery/http/middleware/middleware.go: `Auth`, in front of a handler. A handler takes a
-- request and the session of its services, and answers.
pub mod Guarded
use payment_processing.Prelude.{
  Bool, true, false, not, Option, none, some, [], ◌∷◌, Bytes, codes, eq_bytes, Result, ok, err,
  ◌++◌, ◌==◌, if◌then◌else◌,
}
use payment_processing.Domain.{Error, Outcome, AccessClaims, token_expired, other_error}
use payment_processing.Storage.Tables.{lower}
use payment_processing.Storage.Session.{World, M}
use payment_processing.Delivery.Jwt.{Library, Manager, validate_access_token}
use payment_processing.Delivery.Responses.{
  Body, Writer, no_answer, write_header, write_body, no_token_body, expired_token_body,
  invalid_token_body,
}
use payment_processing.Delivery.Requests.{Request, Identity, with_identity}

abbrev pub Handler : Type 0 → Type 0
Handler S = Request → World S → Writer × World S

abbrev put_before : Bytes → Option (Bytes × Bytes) → Option (Bytes × Bytes)
put_before s none = none
put_before s (some (before, behind)) = some (s ++ before, behind)

-- strings.Cut at the first space: the texts before and behind it.
unfoldable pub cut_space : Bytes → Option (Bytes × Bytes)
cut_space [] = none
cut_space (c ∷ s) =
    let rest = put_before (c ∷ []) (cut_space s) in if c == b' ' then some ([], s) else rest

-- strings.EqualFold with a text of letters that have no other folding than their two cases.
abbrev equal_fold : Bytes → Bytes → Bool
equal_fold s t = eq_bytes (lower s) (lower t)

abbrev pub token_of_parts : Option (Bytes × Bytes) → Outcome Bytes
token_of_parts none = err other_error
token_of_parts (some (scheme, token)) =
    if not (equal_fold scheme (codes "Bearer"))
    then err other_error
    else if eq_bytes token []
    then err other_error
    else ok token

-- bearerToken.
unfoldable pub bearer_token : Request → Outcome Bytes
unfolding cut_space lower
bearer_token r = token_of_parts (cut_space r.authorization)

-- unauthorized.
unfoldable pub unauthorized : Body → Writer
unauthorized message =
    write_body message (write_header 401 (record no_answer { www_authenticate = true }))

abbrev pub refusal : Error → Body
refusal token_expired = expired_token_body
refusal e = invalid_token_body

module _ {S : Type 0} (lib : Library) (m : Manager) where
  abbrev pub as_claimed : Handler S → Request → World S → Outcome AccessClaims → Writer × World S
  as_claimed next r w (err e) = (unauthorized (refusal e), w)
  as_claimed next r w (ok claims) =
      next (with_identity (record { user_id = claims.user_id; role = claims.role }) r) w

  abbrev pub with_token : Handler S → Request → World S → Outcome Bytes → Writer × World S
  with_token next r w (err e) = (unauthorized no_token_body, w)
  with_token next r w (ok token) = as_claimed next r w (validate_access_token lib m token w.clock)

  -- Auth.Middleware.
  unfoldable pub middleware : Handler S → Handler S
  unfolding bearer_token unauthorized
  middleware next r w = with_token next r w (bearer_token r)
