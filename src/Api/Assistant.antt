-- ===== src/Api/Assistant.antt =====
-- The assistant (api/src/assistant).
pub mod RateLimiter
