-- ===== src/Runner.antt =====
-- The runs of submissions: their callback, their limits and the budget against abuse.
pub mod Callback
pub mod Limits
pub mod RetryBudget
mod Tests
