-- ===== src/Usecase/Auth/Requests.antt =====
-- Requests to the authentication service, one after another, each at a time of its own.
use payment_processing.Prelude.{List, [], ◌∷◌, Bytes}
use payment_processing.Domain.{Uuid, Time}
use payment_processing.Storage.Session.{World}
use payment_processing.Storage.Session.Preserves.{Holds}
use payment_processing.Usecase.Auth.Spent.{IsSpent}
use payment_processing.Usecase.Auth.Revoked.{
  IsTokenManager, Spent-register, Spent-login, Spent-refresh, Spent-logout, Spent-logout_all,
}
use payment_processing.Usecase.Auth.{Services, register, login, refresh, logout, logout_all}

pub data Request : Type 0 where
  registering : (email password name ip : Bytes) → Request
  logging_in : (email password ip : Bytes) → Request
  refreshing : (refresh_token ip : Bytes) → Request
  logging_out : (refresh_token ip : Bytes) → Request
  logging_out_all : (user_id : Uuid) → Request

module _ {S : Type 0} (s : Services S) where
  -- The world after a request.
  unfoldable pub handle : Request → World S → World S
  handle (registering email password name ip) w = (register s email password name ip w).1
  handle (logging_in email password ip) w = (login s email password ip w).1
  handle (refreshing refresh_token ip) w = (refresh s refresh_token ip w).1
  handle (logging_out refresh_token ip) w = (logout s refresh_token ip w).1
  handle (logging_out_all user_id) w = (logout_all s user_id w).1

  unfoldable pub handle_all : List (Time × Request) → World S → World S
  unfolding handle
  handle_all [] w = w
  handle_all ((now, r) ∷ rs) w = handle_all rs (handle r (record w { clock = now }))

  pub handle-IsSpent :
      IsTokenManager s
      → (jti : Bytes) (r : Request) (w : World S) → Holds (IsSpent jti) w
      → Holds (IsSpent jti) (handle r w)
  unfolding handle
  handle-IsSpent law jti (registering email password name ip) w h =
      (Spent-register s law jti email password name ip).at w h
  handle-IsSpent law jti (logging_in email password ip) w h =
      (Spent-login s law jti email password ip).at w h
  handle-IsSpent law jti (refreshing refresh_token ip) w h =
      (Spent-refresh s law jti refresh_token ip).at w h
  handle-IsSpent law jti (logging_out refresh_token ip) w h =
      (Spent-logout s law jti refresh_token ip).at w h
  handle-IsSpent law jti (logging_out_all user_id) w h = (Spent-logout_all s law jti user_id).at w h

  pub handle_all-IsSpent :
      IsTokenManager s
      → (jti : Bytes) (rs : List (Time × Request)) (w : World S) → Holds (IsSpent jti) w
      → Holds (IsSpent jti) (handle_all rs w)
  unfolding handle_all
  handle_all-IsSpent law jti [] w h = h
  handle_all-IsSpent law jti ((now, r) ∷ rs) w h =
      handle_all-IsSpent law jti rs _ (handle-IsSpent law jti r (record w { clock = now }) h)
