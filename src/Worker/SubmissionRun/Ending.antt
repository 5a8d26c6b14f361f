-- ===== src/Worker/SubmissionRun/Ending.antt =====
-- How a submission run ends, whatever the executor and the grader do.
use research_crafters.Prelude.{
  Bool, Bool-cases, List, Option, Option-cases, String, arith, eq_iff, false, inl, inr, is_some,
  none, not, refl, some, true, ℕ, ◌&&◌, ◌≡◌,
}
use research_crafters.Prelude.Dict.{insert, lookup, lookup-insert}
use research_crafters.Prelude.Action.{Action, ◌>>◌}
use research_crafters.Worker.SubmissionRun.{
  AttemptRow, Call, ExecutionStatus, GradeRow, RunEnv, RunLogLine, RunRow, RunnerArtifacts,
  StageRow, SubmissionRow, SubmissionRunJob, SubmissionRunResult, WorkerDb, crash, crash_run,
  dispatch, end_run, ended, fail_run, find_stage, find_stage_in, find_submission, finish_run,
  grade_step, grading, is_ok, is_terminal_execution, keep_grade, log_key, mark_running,
  mirror_attempt, mirror_status, record_grade, run_submission_run, settle, start_run, track_grade,
  truthy, update_attempt, update_run, with_submission, write_logs,
}

-- The calls that stand between the start of a run and its end.
abbrev pub before_end : Call → Bool
before_end mirror_status = false
before_end record_grade = false
before_end _ = true

is_terminal_execution-total : (e : ExecutionStatus) → is_terminal_execution e ≡ true
unfolding is_terminal_execution
is_terminal_execution-total e = ground arith

module _ {Policy : Type 0} where
  -- The run has a row whose status is an execution's, with the time of its end.
  abbrev pub Ended : ℕ → String → WorkerDb Policy → Type 0
  Ended at id db =
      (row : RunRow) × (lookup db.runs id ≡ some row)
      × ((e : ExecutionStatus) × (row.run_status ≡ ended e))
      × (row.finished_at ≡ some at)

  abbrev pub HasRun : String → WorkerDb Policy → Type 0
  HasRun id db = (row : RunRow) × (lookup db.runs id ≡ some row)

  pub update_run-found :
      (id : String) (f : RunRow → RunRow) (db : WorkerDb Policy) (row : RunRow)
      → lookup db.runs id ≡ some row
      → update_run false id f db ≡ (some tt, record db { runs = insert db.runs id (f row) })
  unfolding update_run
  update_run-found id f db row h = ground arith

  pub update_run-Run :
      (fails : Bool) (id : String) (f : RunRow → RunRow) (db : WorkerDb Policy)
      → HasRun id db
      → HasRun id (update_run fails id f db).1
  unfolding update_run
  update_run-Run true id f db (row, h) = (row, ground arith)
  update_run-Run false id f db (row, h) =
      (f row, ground (arith, lookup-insert db.runs id id (f row), eq_iff id id))

  pub update_attempt-runs :
      (fails : Bool) (id : String) (f : AttemptRow → AttemptRow) (db : WorkerDb Policy)
      → (update_attempt fails id f db).1.runs ≡ db.runs
  unfolding update_attempt
  update_attempt-runs fails id f db = ground arith

  pub keep_grade-runs :
      (env : RunEnv Policy) (job : SubmissionRunJob) (sub : SubmissionRow) (g : Option GradeRow)
      (db : WorkerDb Policy)
      → (keep_grade env job sub g db).1.runs ≡ db.runs
  unfolding keep_grade track_grade update_attempt
  keep_grade-runs env job sub none db = refl
  keep_grade-runs env job sub (some g) db = ground arith

  pub grade_step-runs :
      (env : RunEnv Policy) (job : SubmissionRunJob) (sub : SubmissionRow) (a : RunnerArtifacts)
      (stage : Option (StageRow Policy)) (db : WorkerDb Policy)
      → (grade_step env job sub a stage db).1.runs ≡ db.runs
  unfolding grade_step
  grade_step-runs env job sub a stage db = elim (Bool-cases (is_ok a.outcome)) [
    | inr bad ↦ ground arith
    | inl good ↦ elim (Option-cases (grading env job sub a stage)) [
      | inl skipped ↦ ground arith
      | inr (none, e) ↦ ground arith
      | inr (some g, e) ↦ ground (arith, keep_grade-runs env job sub g db)
    ]
  ]

  pub write_logs-runs :
      (env : RunEnv Policy) (id : String) (logs : List RunLogLine) (db : WorkerDb Policy)
      → (write_logs env id logs db).1.runs ≡ db.runs
  unfolding write_logs
  write_logs-runs env id logs db = ground arith

  pub write_logs-returns :
      (env : RunEnv Policy) (id : String) (logs : List RunLogLine) (db : WorkerDb Policy)
      → (key : Option String) × (write_logs env id logs db
          ≡ (some key, (write_logs env id logs db).1))
  unfolding write_logs
  write_logs-returns env id logs db =
      elim (Bool-cases (is_some (truthy env.ndjson_log_dir) && not env.write_fails)) [
        | inl written ↦ (some (log_key id), ground arith)
        | inr left ↦ (none, ground arith)
      ]

  -- Steps 5 and 6
  abbrev pub after_end :
      RunEnv Policy
      → SubmissionRunJob
      → SubmissionRow
      → Option (StageRow Policy)
      → RunnerArtifacts
      → Action (WorkerDb Policy) SubmissionRunResult
  after_end env job sub stage a = do
    update_attempt (env.fails mirror_status) sub.stage_attempt_id (mirror_attempt a.outcome)
    grade_step env job sub a stage

  pub after_end-runs :
      (env : RunEnv Policy) (job : SubmissionRunJob) (sub : SubmissionRow)
      (stage : Option (StageRow Policy)) (a : RunnerArtifacts) (db : WorkerDb Policy)
      → (after_end env job sub stage a db).1.runs ≡ db.runs
  after_end-runs env job sub stage a db =
      let mirrored =
        update_attempt (env.fails mirror_status) sub.stage_attempt_id (mirror_attempt a.outcome)
          db in
      let same =
        update_attempt-runs (env.fails mirror_status) sub.stage_attempt_id
          (mirror_attempt a.outcome) db in
      elim (Option-cases mirrored.0) [
        | inl threw ↦ ground (arith, same)
        | inr (u, went) ↦ ground (arith, same, grade_step-runs env job sub a stage mirrored.1)
      ]

  finished-Ended :
      (now : ℕ) (id : String) (a : RunnerArtifacts) (key : Option String) (row : RunRow)
      (db : WorkerDb Policy)
      → Ended now id (record db { runs = insert db.runs id (finish_run now a key row) })
  unfolding finish_run
  finished-Ended now id a key row db = (
    finish_run now a key row,
    ground (arith, lookup-insert db.runs id id (finish_run now a key row), eq_iff id id),
    (a.outcome, refl),
    ground (arith, is_terminal_execution-total a.outcome),
  )

  Ended-runs :
      (at : ℕ) (id : String) (db db' : WorkerDb Policy)
      → db'.runs ≡ db.runs
      → Ended at id db
      → Ended at id db'
  Ended-runs at id db db' same (row, found, e, t) = (row, ground arith, e, t)

  settle-Ended :
      (env : RunEnv Policy) (job : SubmissionRunJob) (sub : SubmissionRow)
      (stage : Option (StageRow Policy)) (a : RunnerArtifacts) (db : WorkerDb Policy)
      → HasRun job.run_id db
      → env.fails end_run ≡ false
      → Ended env.finish_now job.run_id (settle env job sub stage a db).1
  unfolding settle
  settle-Ended env job sub stage a db (row, h) works =
      let (key, logged) = write_logs-returns env job.run_id a.logs db in
      let db1 = (write_logs env job.run_id a.logs db).1 in
      let f = finish_run env.finish_now a key in
      let db2 : WorkerDb Policy = record db1 { runs = insert db1.runs job.run_id (f row) } in
      let ended_row =
        update_run-found job.run_id f db1 row
          (ground (arith, write_logs-runs env job.run_id a.logs db)) in
      let path : settle env job sub stage a db ≡ after_end env job sub stage a db2 = ground arith in
      rw path (
        Ended-runs env.finish_now job.run_id db2 (after_end env job sub stage a db2).1
          (after_end-runs env job sub stage a db2)
          (finished-Ended env.finish_now job.run_id a key row db1))

  with_submission-Ended :
      (env : RunEnv Policy) (job : SubmissionRunJob) (sub : Option SubmissionRow)
      (db : WorkerDb Policy)
      → HasRun job.run_id db
      → ((c : Call) → before_end c ≡ true → env.fails c ≡ false)
      → Ended env.finish_now job.run_id (with_submission env job sub db).1
  unfolding with_submission
  with_submission-Ended env job none db (row, h) works =
      let stopped = update_run-found job.run_id (crash_run env.finish_now) db row h in
      let works' = works fail_run refl in
      let f = crash_run env.finish_now row in
      (
        f,
        ground (arith, lookup-insert db.runs job.run_id job.run_id f, eq_iff job.run_id job.run_id),
        (crash, refl),
        refl,
      )
  with_submission-Ended env job (some sub) db has works =
      let works' = works find_stage refl in
      let stage = find_stage_in db.stages job.package_version_id job.stage_ref in
      let path : with_submission env job (some sub) db
          ≡ settle env job sub stage (dispatch env job stage) db =
        ground arith in
      rw path (settle-Ended env job sub stage (dispatch env job stage) db has (works end_run refl))

  -- If the calls of the database up to the end of the run go through, then a run that has a row ends:
  -- its status is one of an execution, with the time, whatever the executor and the grader do, and
  -- although the calls after it may throw.
  pub run_submission_run-Ended :
      (env : RunEnv Policy) (job : SubmissionRunJob) (db : WorkerDb Policy)
      → HasRun job.run_id db
      → ((c : Call) → before_end c ≡ true → env.fails c ≡ false)
      → Ended env.finish_now job.run_id (run_submission_run env job db).1
  unfolding run_submission_run
  run_submission_run-Ended env job db (row, h) works =
      let f = start_run env.start_now job.runner_mode in
      let started = update_run-found job.run_id f db row h in
      let db1 : WorkerDb Policy = record db { runs = insert db.runs job.run_id (f row) } in
      let marked = works mark_running refl in
      let fetched = works find_submission refl in
      let sub = lookup db1.submissions job.submission_id in
      let path : run_submission_run env job db ≡ with_submission env job sub db1 = ground arith in
      let has : HasRun job.run_id db1 = (
        f row,
        ground (
          arith,
          lookup-insert db.runs job.run_id job.run_id (f row),
          eq_iff job.run_id job.run_id,
        ),
      ) in
      rw path (with_submission-Ended env job sub db1 has works)
