-- ===== src/Lite.antt =====
-- internal/lite: the in-memory queue, rate limiter, idempotency cache and suppression store.
pub mod Time
pub mod Queue
pub mod RateLimiter
pub mod Idempotency
pub mod Suppression
pub mod Stats
pub mod Jsonl
pub mod Json
pub mod Records
pub mod MessageLog
