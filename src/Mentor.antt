-- ===== src/Mentor.antt =====
-- The mentor pipeline of apps/web/lib/mentor and packages/ai/src: limits, spend,
-- context, redaction and the request itself.
pub mod RateLimiter
pub mod Spend
pub mod Budget
pub mod ContextCache
pub mod Context
pub mod Redaction
pub mod Runtime
mod Tests
