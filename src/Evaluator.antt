-- ===== src/Evaluator.antt =====
-- packages/evaluator-sdk/src: how runs and submissions become grades.
pub mod Numeric
pub mod Implementation
pub mod Claims
pub mod Grades
pub mod Attempt
pub mod Rows
mod Tests
