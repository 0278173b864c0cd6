-- ===== src/Middleware.antt =====
-- The middleware of the HTTP server, internal/middleware.
pub mod Admission
pub mod RateLimit
pub mod ClientIp
mod Tests
