-- ===== src/Middleware.antt =====
-- middleware/: the rate limiter and the write guard.
pub mod RateLimit
pub mod Redis
pub mod WriteGuard
