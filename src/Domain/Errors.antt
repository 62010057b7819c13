-- ===== src/Domain/Errors.antt =====
-- internal/domain/errors.go, and the errors of the libraries that the code tells apart.
use payment_processing.Prelude.{String}

pub data Error : Type 0 where
  access_denied insufficient_funds invalid_amount same_account : Error
  receiver_account_not_found account_not_found : Error
  save_refresh_token refresh_token_not_found user_not_found refresh_token_revoked : Error
  refresh_token_expired invalid_credentials invalid_refresh_token token_expired : Error
  token_invalid : Error
  account_already_exist account_blocked rate_limited duplicate_request : Error
  idempotency_key_required invalid_idempotency_key idempotency_conflict : Error
  idempotency_in_progress refresh_token_reuse invalid_email invalid_password invalid_name : Error
  -- pgconn.PgError with its SQLSTATE code; sql.ErrNoRows; ctx.Err().
  pg_error : String → Error
  no_rows context_done : Error
  -- Any other error: of a connection, of a library, or one that the code makes on the spot.
  other_error : Error
