-- ===== src/Worker/SubmissionRun.antt =====
-- apps/worker/src/jobs/submission-run.ts: one job takes a run from the queue through the runner to its
-- grade. The database's calls may throw, which the environment decides for each of them; the executor
-- and the grader are functions of it, with a text or none for one that throws. Log lines for the
-- console and tracing spans are left out.
mod Data
mod Steps
pub mod Ending
pub mod Retry
pub mod Grading
pub use Data.*
unfoldable pub use Steps.*
use research_crafters.Prelude.Action.{Action, attempt, or_throw, pure, ◌>>=◌, ◌>>◌}
use research_crafters.Prelude.{Option, [], false, if◌then◌else◌, none, not, some, ◌++◌, ◌∷◌}
use research_crafters.Prelude.Dict.{lookup}

module _ {Policy : Type 0} where
  -- What the grader is asked with: there is one, and the stage has a rubric.
  unfoldable pub grading :
      RunEnv Policy
      → SubmissionRunJob
      → SubmissionRow
      → RunnerArtifacts
      → Option (StageRow Policy)
      → Option (Option (Option GradeRow))
  grading env job sub a none = none
  grading env job sub a (some stage) = elim env.grader [
    | none ↦ none
    | some f ↦ elim (truthy stage.rubric_ref) [
      | none ↦ none
      | some rubric ↦ some (f (grader_input job sub a rubric stage.pass_threshold))
    ]
  ]

  unfoldable pub track_grade : GradeRow → WorkerDb Policy → WorkerDb Policy
  track_grade g db = record db { grade_events = db.grade_events ++ g ∷ [] }

  -- The grade in the attempt's row, and its event.
  unfoldable pub keep_grade :
      RunEnv Policy
      → SubmissionRunJob
      → SubmissionRow
      → Option GradeRow
      → Action (WorkerDb Policy) SubmissionRunResult
  keep_grade env job sub none = pure (result_of job ok none)
  keep_grade env job sub (some g) = do
    update_attempt (env.fails record_grade) sub.stage_attempt_id (grade_attempt_row g)
    attempt false (track_grade g)
    pure (result_of job ok (some g.id))

  -- Step 6
  unfoldable pub grade_step :
      RunEnv Policy
      → SubmissionRunJob
      → SubmissionRow
      → RunnerArtifacts
      → Option (StageRow Policy)
      → Action (WorkerDb Policy) SubmissionRunResult
  grade_step env job sub a stage =
      if not (is_ok a.outcome)
      then pure (result_of job a.outcome none)
      else elim (grading env job sub a stage) [
        | none ↦ pure (result_of job ok none)
        | some asked ↦ or_throw asked >>= keep_grade env job sub
      ]

  -- Steps 4 to 6
  unfoldable pub settle :
      RunEnv Policy
      → SubmissionRunJob
      → SubmissionRow
      → Option (StageRow Policy)
      → RunnerArtifacts
      → Action (WorkerDb Policy) SubmissionRunResult
  settle env job sub stage a = do
    key ← write_logs env job.run_id a.logs
    update_run (env.fails end_run) job.run_id (finish_run env.finish_now a key)
    update_attempt (env.fails mirror_status) sub.stage_attempt_id (mirror_attempt a.outcome)
    grade_step env job sub a stage

  unfoldable pub with_submission :
      RunEnv Policy
      → SubmissionRunJob
      → Option SubmissionRow
      → Action (WorkerDb Policy) SubmissionRunResult
  with_submission env job none = do
    update_run (env.fails fail_run) job.run_id (crash_run env.finish_now)
    pure (missing_result job)
  with_submission env job (some sub) = do
    stage ←
        read (env.fails find_stage)
          (λ db. find_stage_in db.stages job.package_version_id job.stage_ref)
    settle env job sub stage (dispatch env job stage)

  -- `runSubmissionRun`
  unfoldable pub run_submission_run :
      RunEnv Policy → SubmissionRunJob → Action (WorkerDb Policy) SubmissionRunResult
  run_submission_run env job = do
    update_run (env.fails mark_running) job.run_id (start_run env.start_now job.runner_mode)
    sub ← read (env.fails find_submission) (λ db. lookup db.submissions job.submission_id)
    with_submission env job sub
