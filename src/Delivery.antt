-- ===== src/Delivery.antt =====
-- internal/delivery/http: what stands between a request and the services.
pub mod Jwt
pub mod Responses
pub mod Requests
pub mod Middleware
pub mod Handlers
pub mod Router
