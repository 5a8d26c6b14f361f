-- ===== src/Worker/SubmissionRun/Data.antt =====
-- apps/worker/src/jobs/submission-run.ts: the job, the rows and the environment of a submission run.
use research_crafters.Prelude.{Bool, List, Option, String, ℕ, ◌⊎◌}
use research_crafters.Prelude.Dict.{Dict}
use research_crafters.Prelude.Number.{Number}

pub data RunnerMode : Type 0 where
  test replay mini_experiment none_mode : RunnerMode

pub data ExecutionStatus : Type 0 where
  ok timeout oom crash exit_nonzero : ExecutionStatus

-- `RunStatus`: the two that the worker sets before the end, and those of the execution.
pub data RunStatus : Type 0 where
  queued running : RunStatus
  ended : ExecutionStatus → RunStatus

pub data Severity : Type 0 where
  debug info warn error : Severity

pub record SubmissionRunJob : Type 0 where
  pub run_id : String
  pub submission_id : String
  pub package_version_id : String
  pub stage_ref : String
  pub runner_mode : RunnerMode

pub record SubmissionRunResult : Type 0 where
  pub result_run_id : String
  pub status : RunStatus
  pub execution_status : ExecutionStatus
  pub grade_id : Option String
  pub graded_skipped : Bool
  pub short_circuited : Bool

pub record RunLogLine : Type 0 where
  pub ts : String
  pub severity : Severity
  pub text : String

pub record TestResult : Type 0 where
  pub name : String
  pub test_passed : Bool
  pub message : Option String

pub record RunnerArtifacts : Type 0 where
  pub outcome : ExecutionStatus
  pub logs : List RunLogLine
  pub metrics : Option (Dict Number)
  pub artifact_pointers : Option (Dict String)
  pub test_results : Option (List TestResult)
  pub duration_ms : Option Number
  pub exit_code : Option Number

-- What is written into `Run.metricsJson`.
pub record MetricsBody : Type 0 where
  pub body_logs : List RunLogLine
  pub runner_version : String
  pub body_metrics : Option (Dict Number)
  pub body_test_results : Option (List TestResult)
  pub body_artifact_pointers : Option (Dict String)
  pub body_duration_ms : Option Number
  pub body_exit_code : Option Number

pub record GradeRow : Type 0 where
  pub id : String
  pub graded_attempt : String
  pub graded_submission : String
  pub rubric_version : String
  pub evaluator_version : String
  pub passed : Bool
  pub score : Option Number

pub record RunRow : Type 0 where
  pub run_status : RunStatus
  pub run_mode : RunnerMode
  pub started_at : Option ℕ
  pub finished_at : Option ℕ
  pub metrics_json : Option MetricsBody
  pub log_object_key : Option String

-- A submission with its attempt's id, stage and package version; a hash is the list of its character
-- codes.
pub record SubmissionRow : Type 0 where
  pub bundle_object_key : String
  pub bundle_sha : List ℕ
  pub byte_size : ℕ
  pub stage_attempt_id : String
  pub attempt_stage_ref : String
  pub attempt_package_version_id : String

module _ (Policy : Type 0) where
  pub record StageRow : Type 0 where
    pub stage_version_id : String
    pub stage_id : String
    pub stage_runner_mode : String
    pub rubric_ref : Option String
    pub pass_threshold : Option Number
    pub stage_policy : Policy

  pub record RunnerExecutorInput : Type 0 where
    pub input_mode : RunnerMode
    pub input_version_id : String
    pub input_submission_id : String
    pub input_stage_ref : String
    pub input_run_id : String
    pub input_policy : Option Policy

pub record GraderInput : Type 0 where
  pub grader_run_id : String
  pub grader_submission_id : String
  pub grader_attempt_id : String
  pub grader_stage_ref : String
  pub grader_version_id : String
  pub grader_rubric_version : String
  pub grader_artifacts : RunnerArtifacts
  pub grader_threshold : Option Number

pub record AttemptRow : Type 0 where
  pub attempt_status : Option ExecutionStatus
  pub attempt_grade_id : Option String
  pub attempt_passed : Option Bool
  pub attempt_score : Option Number

-- The tables, the log files by their key, and the `grade_created` events.
pub record WorkerDb (Policy : Type 0) : Type 0 where
  pub runs : Dict RunRow
  pub submissions : Dict SubmissionRow
  pub stages : List (StageRow Policy)
  pub attempts : Dict AttemptRow
  pub log_files : Dict String
  pub grade_events : List GradeRow

-- The database's calls, in the order in which the job makes them.
pub data Call : Type 0 where
  mark_running find_submission fail_run find_stage end_run mirror_status record_grade : Call

pub record RunEnv (Policy : Type 0) : Type 0 where
  pub fails : Call → Bool
  pub executor : RunnerExecutorInput Policy → RunnerArtifacts ⊎ String
  pub grader : Option (GraderInput → Option (Option GradeRow))
  pub ndjson_log_dir : Option String
  pub write_fails : Bool
  pub line_json : RunLogLine → String
  pub start_now : ℕ
  pub finish_now : ℕ
  pub log_now : String
