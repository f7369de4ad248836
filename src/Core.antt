-- ===== src/Core.antt =====
-- core: the rate limiter and the resolution of a caller's address.
pub mod Redis
pub mod RateLimit
pub mod RateWindow
pub mod ClientIp
pub mod Forwarded
pub mod Idempotency
pub mod Replay
