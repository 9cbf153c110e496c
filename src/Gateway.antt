-- ===== src/Gateway.antt =====
-- The gateway of libs/gateway/src: the rate limiter, the replay of idempotent requests, the page
-- parameters and the error codes.
pub mod RateLimit
pub mod Idempotency
pub mod Pages
pub mod Codes
mod Tests
