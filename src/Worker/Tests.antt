-- ===== src/Worker/Tests.antt =====
-- A job in a table with one run, and a rollup.
use research_crafters.Prelude.{
  Bool, String, [], arith, eq_iff, false, if◌then◌else◌, inl, inr, none, refl, some, true, ℕ, ◌∷◌,
  ◌≡◌, ◌≢◌,
}
use research_crafters.Prelude.Dict.{insert, lookup}
use research_crafters.Worker.SubmissionRun.{
  AttemptRow, GradeRow, RunEnv, RunRow, SubmissionRow, SubmissionRunJob, SubmissionRunResult,
  WorkerDb, crash, default_runner_executor, dispatch, find_stage_in, finish_run, grade_step,
  grading, is_terminal_execution, keep_grade, none_mode, ok, queued, result_of, run_submission_run,
  settle, test, track_grade, update_attempt, update_run, with_submission, write_logs,
}
use research_crafters.Worker.SubmissionRun.Ending.{Ended, HasRun, run_submission_run-Ended}
use research_crafters.Worker.SubmissionRun.Retry.{
  attempts_at, attempts_at-Ended, run_submission_run-others,
}
use research_crafters.Worker.SubmissionRun.Grading.{Graded, run_submission_run-Graded}

abbrev test_job : SubmissionRunJob
test_job = record {
  run_id = "r1";
  submission_id = "s1";
  package_version_id = "v1";
  stage_ref = "S001";
  runner_mode = test;
}

abbrev queued_row : RunRow
queued_row = record {
  run_status = queued;
  run_mode = none_mode;
  started_at = none;
  finished_at = none;
  metrics_json = none;
  log_object_key = none;
}

abbrev new_attempt : AttemptRow
new_attempt = record {
  attempt_status = none;
  attempt_grade_id = none;
  attempt_passed = none;
  attempt_score = none;
}

abbrev first_submission : SubmissionRow
first_submission = record {
  bundle_object_key = "submissions/s1";
  bundle_sha = [];
  byte_size = 0;
  stage_attempt_id = "a1";
  attempt_stage_ref = "S001";
  attempt_package_version_id = "v1";
}

abbrev one_run : WorkerDb ℕ
one_run = record {
  runs = ("r1", queued_row) ∷ ("r2", queued_row) ∷ [];
  submissions = ("s1", first_submission) ∷ [];
  stages =
      record {
        stage_version_id = "v1";
        stage_id = "S001";
        stage_runner_mode = "test";
        rubric_ref = some "rubric-1";
        pass_threshold = none;
        stage_policy = 0;
      }
      ∷ [];
  attempts = ("a1", new_attempt) ∷ [];
  log_files = [];
  grade_events = [];
}

abbrev test_grade : GradeRow
test_grade = record {
  id = "g1";
  graded_attempt = "a1";
  graded_submission = "s1";
  rubric_version = "rubric-1";
  evaluator_version = "1";
  passed = true;
  score = none;
}

-- An executor that throws, or the default one, and a grader that always answers.
abbrev run_env : Bool → RunEnv ℕ
run_env throws = record {
  fails = λ c. false;
  executor = λ input.
      if throws then inr "no sandbox" else inl (default_runner_executor (λ m. "test") "now" input);
  grader = some (λ input. some (some test_grade));
  ndjson_log_dir = none;
  write_fails = false;
  line_json = λ l. l.text;
  start_now = 1;
  finish_now = 2;
  log_now = "now";
}

abbrev unreachable_env : RunEnv ℕ
unreachable_env = record (run_env false) { fails = λ c. true }

abbrev graded_result : SubmissionRunResult
graded_result = result_of test_job ok (some "g1")

job_graded : (run_submission_run (run_env false) test_job one_run).0 ≡ some graded_result
unfolding run_submission_run update_run lookup insert with_submission find_stage_in settle dispatch
    write_logs finish_run is_terminal_execution update_attempt grade_step grading keep_grade
    track_grade default_runner_executor
job_graded = refl

-- An executor that throws ends the run as a crash, without a grade.
job_crashed :
    (run_submission_run (run_env true) test_job one_run).0 ≡ some (result_of test_job crash none)
unfolding run_submission_run update_run lookup insert with_submission find_stage_in settle dispatch
    write_logs finish_run is_terminal_execution update_attempt grade_step grading keep_grade
    track_grade default_runner_executor
job_crashed = refl

has_row : HasRun "r1" one_run
unfolding lookup
has_row = (queued_row, refl)

other_run : ◌≢◌ {A = String} "r2" "r1"
other_run h = ground (arith, eq_iff "r2" "r1", h)

run_submission_run-Ended_example :
    Ended 2 "r1" (run_submission_run (run_env true) test_job one_run).1
run_submission_run-Ended_example =
    run_submission_run-Ended (run_env true) test_job one_run has_row (λ c before. refl)

attempts_at-Ended_example :
    Ended 2 "r1" (attempts_at test_job (unreachable_env ∷ run_env false ∷ []) one_run)
attempts_at-Ended_example =
    attempts_at-Ended test_job (unreachable_env ∷ []) (run_env false) one_run has_row
      (λ c before. refl)

run_submission_run-others_example :
    lookup (run_submission_run (run_env true) test_job one_run).1.runs "r2"
    ≡ lookup one_run.runs "r2"
run_submission_run-others_example =
    run_submission_run-others test_job (run_env true) one_run "r2" other_run

run_submission_run-Graded_example : Graded (run_env false) test_job one_run "g1"
run_submission_run-Graded_example =
    run_submission_run-Graded (run_env false) test_job one_run graded_result "g1" job_graded refl
