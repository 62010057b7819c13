-- ===== src/Delivery/Router.antt =====
-- internal/delivery/http/router/router.go: the routes, and which of them pass the middleware. The
-- choice of a route by method and path is that of net/http.
pub mod Protected
mod Samples
mod Tests
use payment_processing.Prelude.{Bool, List, Bytes}
use payment_processing.Storage.Session.{World}
use payment_processing.Delivery.Responses.{Writer}
use payment_processing.Delivery.Requests.{Request}
use payment_processing.Delivery.Middleware.{Handler, middleware}
use payment_processing.Delivery.Handlers.{App}
use payment_processing.Delivery.Handlers.Auth.{
  handle_register, handle_login, handle_refresh, handle_logout, handle_logout_all,
}
use payment_processing.Delivery.Handlers.Accounts.{handle_get_account, handle_account_transactions}
use payment_processing.Delivery.Handlers.Transactions.{
  handle_transfer, handle_get_transaction, handle_transaction_filter,
}
use payment_processing.Delivery.Handlers.Health.{health, readiness}

-- The routes behind the middleware.
pub data ProtectedRoute : Type 0 where
  -- POST /auth/logout, POST /auth/logout-all
  logout_route logout_all_route : ProtectedRoute
  -- GET /accounts/{id}, GET /accounts/{id}/transactions
  account_route account_transactions_route : ProtectedRoute
  -- POST /transactions, GET /transactions/{id}, GET /transactions
  transfer_route transaction_route transactions_route : ProtectedRoute

pub data Route : Type 0 where
  -- GET /health and GET /health/live; GET /health/ready with what the checks find.
  health_route : Route
  ready_route : List Bool → Route
  -- POST /auth/register, POST /auth/login, POST /auth/refresh
  register_route login_route refresh_route : Route
  protected : ProtectedRoute → Route

module _ {S : Type 0} (app : App S) where
  unfoldable pub protected_handler : ProtectedRoute → Handler S
  protected_handler logout_route = handle_logout app
  protected_handler logout_all_route = handle_logout_all app
  protected_handler account_route = handle_get_account app
  protected_handler account_transactions_route = handle_account_transactions app
  protected_handler transfer_route = handle_transfer app
  protected_handler transaction_route = handle_get_transaction app
  protected_handler transactions_route = handle_transaction_filter app

  -- The handler of a route.
  unfoldable pub serve : Route → Handler S
  unfolding protected_handler health readiness middleware
  serve health_route r w = (health, w)
  serve (ready_route checks) r w = (readiness checks, w)
  serve register_route r w = handle_register app r w
  serve login_route r w = handle_login app r w
  serve refresh_route r w = handle_refresh app r w
  serve (protected route) r w = middleware app.library app.manager (protected_handler route) r w
