-- ===== src/Worker.antt =====
-- apps/worker/src: the background jobs.
pub mod SubmissionRun
pub mod Rollup
pub mod Scheduler
mod Tests
