-- ===== src/Middleware.antt =====
-- internal/middleware: the middlewares of the gateway's router.
pub mod Recovery
pub mod Logging
pub mod Metrics
pub mod Auth
pub mod Cors
pub mod RateLimit
