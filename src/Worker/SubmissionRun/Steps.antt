-- ===== src/Worker/SubmissionRun/Steps.antt =====
-- apps/worker/src/jobs/submission-run.ts: the helpers of the job and its single steps.
use research_crafters.Prelude.{
  Bool, List, Option, String, [], false, if◌then◌else◌, inl, inr, is_some, nat_eq, none, not, some,
  string_eq, true, ℕ, ◌&&◌, ◌++ₛ◌, ◌==◌, ◌∷◌,
}
use research_crafters.Prelude.Dict.{insert, lookup}
use research_crafters.Prelude.Number.{Number, int, pos}
use research_crafters.Prelude.Action.{Action}
use research_crafters.Worker.SubmissionRun.Data.{
  AttemptRow, ExecutionStatus, GradeRow, GraderInput, MetricsBody, RunEnv, RunLogLine, RunRow,
  RunStatus, RunnerArtifacts, RunnerExecutorInput, RunnerMode, StageRow, SubmissionRow,
  SubmissionRunJob, SubmissionRunResult, WorkerDb, crash, ended, error, exit_nonzero, info,
  none_mode, ok, oom, running, timeout,
}

-- `isTerminalExecution`
unfoldable pub is_terminal_execution : ExecutionStatus → Bool
is_terminal_execution ok = true
is_terminal_execution timeout = true
is_terminal_execution oom = true
is_terminal_execution crash = true
is_terminal_execution exit_nonzero = true

-- `executionToRunStatus`
abbrev pub execution_to_run_status : ExecutionStatus → RunStatus
execution_to_run_status = ended

abbrev pub is_ok : ExecutionStatus → Bool
is_ok ok = true
is_ok _ = false

abbrev pub is_none_mode : RunnerMode → Bool
is_none_mode none_mode = true
is_none_mode _ = false

-- A text that is there and not empty.
abbrev pub truthy : Option String → Option String
truthy none = none
truthy (some t) = if t == "" then none else some t

abbrev pub runner_version : String
runner_version = "0.1.0"

abbrev pub log_key : String → String
log_key run_id = "runs/" ++ₛ run_id ++ₛ "/logs.ndjson"

-- `logs.map(JSON.stringify).join('\n')`
unfoldable pub ndjson : (RunLogLine → String) → List RunLogLine → String
ndjson f [] = ""
ndjson f (l ∷ []) = f l
ndjson f (l ∷ m ∷ rest) = f l ++ₛ "\n" ++ₛ ndjson f (m ∷ rest)

abbrev pub crashed : String → String → RunnerArtifacts
crashed ts text = record {
  outcome = crash;
  logs = record { ts = ts; severity = error; text = "Runner crashed: " ++ₛ text } ∷ [];
  metrics = none;
  artifact_pointers = none;
  test_results = none;
  duration_ms = some (int (pos 0));
  exit_code = none;
}

abbrev pub skipped_execution : String → String → RunnerArtifacts
skipped_execution ts stage_ref = record {
  outcome = ok;
  logs =
      record {
        ts = ts;
        severity = info;
        text = "Stage " ++ₛ stage_ref ++ₛ ": runner mode=none, skipping execution.";
      }
      ∷ [];
  metrics = none;
  artifact_pointers = none;
  test_results = none;
  duration_ms = some (int (pos 0));
  exit_code = none;
}

abbrev pub metrics_body : RunnerArtifacts → MetricsBody
metrics_body a = record {
  body_logs = a.logs;
  runner_version = runner_version;
  body_metrics = a.metrics;
  body_test_results = a.test_results;
  body_artifact_pointers = a.artifact_pointers;
  body_duration_ms = a.duration_ms;
  body_exit_code = a.exit_code;
}

abbrev pub start_run : ℕ → RunnerMode → RunRow → RunRow
start_run now mode row = record row { run_status = running; run_mode = mode; started_at = some now }

-- The row once the job has its artifacts.
unfoldable pub finish_run : ℕ → RunnerArtifacts → Option String → RunRow → RunRow
finish_run now a key row = record row {
  run_status = execution_to_run_status a.outcome;
  metrics_json = some (metrics_body a);
  finished_at = if is_terminal_execution a.outcome then some now else row.finished_at;
  log_object_key = if is_some key then key else row.log_object_key;
}

abbrev pub crash_run : ℕ → RunRow → RunRow
crash_run now row = record row { run_status = ended crash; finished_at = some now }

abbrev pub mirror_attempt : ExecutionStatus → AttemptRow → AttemptRow
mirror_attempt e row = record row { attempt_status = some e }

abbrev pub grade_attempt_row : GradeRow → AttemptRow → AttemptRow
grade_attempt_row g row = record row {
  attempt_grade_id = some g.id;
  attempt_passed = some g.passed;
  attempt_score = g.score;
}

abbrev pub result_of : SubmissionRunJob → ExecutionStatus → Option String → SubmissionRunResult
result_of job e grade = record {
  result_run_id = job.run_id;
  status = execution_to_run_status e;
  execution_status = e;
  grade_id = grade;
  graded_skipped = not (is_some grade);
  short_circuited = is_none_mode job.runner_mode;
}

abbrev pub grader_input :
    SubmissionRunJob → SubmissionRow → RunnerArtifacts → String → Option Number → GraderInput
grader_input job sub a rubric threshold = record {
  grader_run_id = job.run_id;
  grader_submission_id = job.submission_id;
  grader_attempt_id = sub.stage_attempt_id;
  grader_stage_ref = sub.attempt_stage_ref;
  grader_version_id = sub.attempt_package_version_id;
  grader_rubric_version = rubric;
  grader_artifacts = a;
  grader_threshold = threshold;
}

abbrev pub missing_result : SubmissionRunJob → SubmissionRunResult
missing_result job = record {
  result_run_id = job.run_id;
  status = ended crash;
  execution_status = crash;
  grade_id = none;
  graded_skipped = true;
  short_circuited = false;
}

module _ {Policy : Type 0} where
  -- `prisma.run.update` and `prisma.stageAttempt.update`, which throw where there is no such row.
  unfoldable pub update_run : Bool → String → (RunRow → RunRow) → Action (WorkerDb Policy) Unit
  update_run fails id f db = elim (lookup db.runs id) [
    | none ↦ (none, db)
    | some row ↦
        if fails then (none, db) else (some tt, record db { runs = insert db.runs id (f row) })
  ]

  unfoldable pub update_attempt :
      Bool → String → (AttemptRow → AttemptRow) → Action (WorkerDb Policy) Unit
  update_attempt fails id f db = elim (lookup db.attempts id) [
    | none ↦ (none, db)
    | some row ↦
        if fails
        then (none, db)
        else (some tt, record db { attempts = insert db.attempts id (f row) })
  ]

  -- `prisma.stage.findFirst`
  unfoldable pub find_stage_in : List (StageRow Policy) → String → String → Option (StageRow Policy)
  find_stage_in [] version ref = none
  find_stage_in (s ∷ rest) version ref =
      if s.stage_version_id == version && s.stage_id == ref
      then some s
      else find_stage_in rest version ref

  -- A read that may throw.
  abbrev pub read : {A : Type 0} → Bool → (WorkerDb Policy → A) → Action (WorkerDb Policy) A
  read fails f db = (if fails then none else some (f db), db)

  abbrev pub policy_of : Option (StageRow Policy) → Option Policy
  policy_of none = none
  policy_of (some s) = some s.stage_policy

  abbrev pub executor_input :
      SubmissionRunJob → Option (StageRow Policy) → RunnerExecutorInput Policy
  executor_input job stage = record {
    input_mode = job.runner_mode;
    input_version_id = job.package_version_id;
    input_submission_id = job.submission_id;
    input_stage_ref = job.stage_ref;
    input_run_id = job.run_id;
    input_policy = policy_of stage;
  }

  -- Step 3: a throwing executor counts as a crash.
  unfoldable pub dispatch :
      RunEnv Policy → SubmissionRunJob → Option (StageRow Policy) → RunnerArtifacts
  dispatch env job stage =
      if is_none_mode job.runner_mode
      then skipped_execution env.log_now job.stage_ref
      else elim (env.executor (executor_input job stage)) [
        | inl artifacts ↦ artifacts
        | inr thrown ↦ crashed env.log_now thrown
      ]

  -- `writeNdjsonLogs`, whose failure is swallowed: the key that it wrote.
  unfoldable pub write_logs :
      RunEnv Policy → String → List RunLogLine → Action (WorkerDb Policy) (Option String)
  write_logs env run_id logs db =
      if is_some (truthy env.ndjson_log_dir) && not env.write_fails
      then (
        some (some (log_key run_id)),
        record db { log_files = insert db.log_files (log_key run_id) (ndjson env.line_json logs) },
      )
      else (some none, db)

-- `makeDefaultRunnerExecutor`
unfoldable pub default_runner_executor :
    {Policy : Type 0}
    → (RunnerMode → String)
    → String
    → RunnerExecutorInput Policy
    → RunnerArtifacts
default_runner_executor mode_text ts input = record {
  outcome = ok;
  logs =
      record {
        ts = ts;
        severity = info;
        text =
            "runner=stub mode="
            ++ₛ mode_text input.input_mode
            ++ₛ " stage="
            ++ₛ input.input_stage_ref
            ++ₛ " runId="
            ++ₛ input.input_run_id;
      }
      ∷ record {
        ts = ts;
        severity = info;
        text =
            "canonical-solution path: replace with sandboxed execution against the submitted bundle";
      }
      ∷ [];
  metrics = some (("canonical_solution", int (pos 1)) ∷ []);
  artifact_pointers = none;
  test_results = none;
  duration_ms = some (int (pos 0));
  exit_code = none;
}
