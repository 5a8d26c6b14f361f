-- ===== src/Lib.antt =====
-- ResearchCrafters: models of the parts of the platform that decide, and what is proved of them.
--
-- The program is a monorepo of TypeScript. A learner signs in, works through the stages of a package,
-- submits attempts that a runner executes and an evaluator grades, and may ask a mentor, a hosted
-- language model behind limits and redaction. The parts that are modelled, and where:
-- - Access: apps/web/lib/permissions.ts, `permissions.canAccess`. The answers of its four database
--   reads are a record of rows.
-- - Auth.DeviceFlow: apps/web/app/api/auth, the routes device-code, device-token, device/approve and
--   revoke, on the tables of flows and sessions. `device_token` is an undisturbed poll; `commit_poll`
--   is its part behind the read, so that overlapping polls can be written down.
-- - Mentor.RateLimiter, Mentor.Spend: apps/web/lib/mentor, the two in-memory stores, each with a log
--   as its specification. Mentor.Budget, Mentor.ContextCache, Mentor.Context, Mentor.Redaction:
--   packages/ai/src, cost-cap.ts, context-cache.ts, context-builder.ts, redaction.ts and leak-test.ts.
--   Mentor.Runtime: apps/web/lib/mentor-runtime.ts, `runMentorRequest`, which calls the others.
-- - Evaluator.Claims, Evaluator.Grades, Evaluator.Attempt: packages/evaluator-sdk/src,
--   writing-claims.ts, types.ts, idempotency.ts, intermediate.ts and grade.ts (`gradeAttempt`), over
--   any `GradeStore` and `IntermediateStore`; Evaluator.Grades.Memory holds the in-memory stores,
--   Evaluator.Rows the rows of packages/db/src/grade-store.ts.
-- - Runner.Callback: apps/web/app/api/runs/[id]/callback/route.ts. Runner.Limits:
--   apps/runner/src/limits.ts. Runner.RetryBudget: apps/web/lib/abuse-budget.ts.
-- - Submissions.Finalize: apps/web/app/api/submissions/[id]/finalize/route.ts and the check of
--   apps/web/lib/storage.ts; it asks Access and hands a job to Worker.SubmissionRun, whose tables it
--   shares. Submissions.Retention: apps/web/lib/submission-retention.ts.
-- - Worker.SubmissionRun: apps/worker/src/jobs/submission-run.ts, `runSubmissionRun`.
--   Worker.Rollup: apps/worker/src/jobs/branch-stats-rollup.ts. Worker.Scheduler:
--   apps/worker/src/scheduler.ts, over any queue, with the cohorts of packages/telemetry/src/cohorts.ts.
-- - Evaluator.Numeric, Evaluator.Implementation: packages/evaluator-sdk/src, numeric.ts and
--   implementation-checks.ts.
-- - Content.Issues, Content.CrossLink: packages/content-sdk/src/validator, issues.ts and
--   ara-cross-link.ts, on a loaded package (types.ts) and the parsed file of its exploration tree.
--   Content.Pedagogy: pedagogy.ts. Content.Validation: index.ts, which calls the layers in turn.
-- - Account: apps/web/lib/account-cascade.ts, `deleteAccount` and `exportAccount`.
-- Prelude holds what they share: Boolean tests, lists, `Map` as an association list in insertion
-- order (Prelude.Dict), JavaScript numbers with NaN and the infinities (Prelude.Number), and `async`
-- functions that may throw after they have written (Prelude.Action).
--
-- State is passed explicitly: an operation takes the state and returns its answer and the new state.
-- Times are milliseconds. Where the code subtracts and compares, as in `ts <= now - windowMs`, the
-- model adds on the other side, so no negative number is lost. Amounts of money and of resources are
-- whole numbers of a fixed unit, so the rounding of doubles is not modelled, but for the percentages
-- of the rollup, where an argument says which halves fall below; scores are of any type with the
-- operations that the code uses. All loops are structural recursions, so no fuel is needed.
-- A text that is only shown (a reason, a feedback, a prompt) is kept as the data that it is printed
-- from. Random codes, clocks, regular expressions, digests, the gateway and the environment are
-- arguments. Database calls act on tables given as arguments, one statement at a time.
--
-- Not modelled: schema parsing, telemetry but for the events named in the models, the pages, the
-- command-line client, the sandboxes, the structural and sandbox layers of the content validator, what
-- the database's foreign keys do on a deletion, and the graders that call a language model.
pub mod Prelude
pub mod Access
pub mod Mentor
pub mod Auth
pub mod Evaluator
pub mod Runner
pub mod Worker
pub mod Submissions
pub mod Account
pub mod Content
