-- ===== src/Submissions.antt =====
-- apps/web: what becomes of a submission on its way to a run, and of its bundle.
pub mod Retention
pub mod Finalize
mod Tests
