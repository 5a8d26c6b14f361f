-- ===== src/Worker/SubmissionRun/Retry.antt =====
-- Attempts at a job, one after the other, and what they leave of the table of runs.
use research_crafters.Prelude.{
  Bool, List, Option, Option-cases, String, [], arith, eq_iff, false, inl, inr, none, refl, some,
  true, ◌++◌, ◌∙◌, ◌∷◌, ◌≡◌, ◌≢◌,
}
use research_crafters.Prelude.Dict.{lookup, lookup-insert}
use research_crafters.Prelude.Action.{Action, Within, Within-bind, pure}
use research_crafters.Worker.SubmissionRun.{
  Call, RunEnv, RunRow, RunnerArtifacts, StageRow, SubmissionRow, SubmissionRunJob, WorkerDb,
  crash_run, dispatch, end_run, fail_run, find_stage, find_stage_in, find_submission, finish_run,
  mark_running, missing_result, read, run_submission_run, settle, start_run, update_run,
  with_submission, write_logs,
}
use research_crafters.Worker.SubmissionRun.Ending.{
  Ended, HasRun, after_end, after_end-runs, before_end, run_submission_run-Ended, update_run-Run,
  write_logs-runs,
}

module _ {Policy : Type 0} (job : SubmissionRunJob) where
  -- The rows of other runs stand as they are, and the job's run keeps a row.
  abbrev Keeps : WorkerDb Policy → WorkerDb Policy → Type 0
  Keeps db db' =
      ((id : String) → id ≢ job.run_id → lookup db'.runs id ≡ lookup db.runs id)
      × (HasRun job.run_id db → HasRun job.run_id db')

  Keeps-runs : (db db' : WorkerDb Policy) → db'.runs ≡ db.runs → Keeps db db'
  Keeps-runs db db' same = (λ id other. ground arith, λ (row, h). (row, ground arith))

  Keeps-trans : (db db' db'' : WorkerDb Policy) → Keeps db db' → Keeps db' db'' → Keeps db db''
  Keeps-trans db db' db'' (a, b) (c, d) = (λ id other. c id other ∙ a id other, λ has. d (b has))

  update_run-others :
      (fails : Bool) (f : RunRow → RunRow) (db : WorkerDb Policy) (id : String)
      → id ≢ job.run_id
      → lookup (update_run fails job.run_id f db).1.runs id ≡ lookup db.runs id
  unfolding update_run
  update_run-others true f db id other = ground arith
  update_run-others false f db id other = elim (Option-cases (lookup db.runs job.run_id)) [
    | inl missing ↦ ground arith
    | inr (row, h) ↦
        ground (arith, other, lookup-insert db.runs job.run_id id (f row), eq_iff job.run_id id)
  ]

  update_run-Keeps :
      (fails : Bool) (f : RunRow → RunRow) (db : WorkerDb Policy)
      → Keeps db (update_run fails job.run_id f db).1
  update_run-Keeps fails f db = (update_run-others fails f db, update_run-Run fails job.run_id f db)

  each-Keeps :
      {A : Type 0} (m : Action (WorkerDb Policy) A)
      → ((db : WorkerDb Policy) → Keeps db (m db).1)
      → Within Keeps m
  unfolding Within
  each-Keeps m kept = kept

  -- An action that leaves the table of runs.
  same-Keeps :
      {A : Type 0} (m : Action (WorkerDb Policy) A)
      → ((db : WorkerDb Policy) → (m db).1.runs ≡ db.runs)
      → Within Keeps m
  unfolding Within
  same-Keeps m same db = Keeps-runs db (m db).1 (same db)

  settle-Keeps :
      (env : RunEnv Policy) (sub : SubmissionRow) (stage : Option (StageRow Policy))
      (a : RunnerArtifacts)
      → Within Keeps (settle env job sub stage a)
  unfolding settle
  settle-Keeps env sub stage a =
      Within-bind Keeps Keeps-trans (write_logs env job.run_id a.logs) _
        (same-Keeps _ (write_logs-runs env job.run_id a.logs))
        (λ key.
          Within-bind Keeps Keeps-trans
            (update_run (env.fails end_run) job.run_id (finish_run env.finish_now a key))
            (λ _. after_end env job sub stage a)
            (each-Keeps _ (update_run-Keeps (env.fails end_run) (finish_run env.finish_now a key)))
            (λ u. same-Keeps _ (after_end-runs env job sub stage a)))

  with_submission-Keeps :
      (env : RunEnv Policy) (sub : Option SubmissionRow)
      → Within Keeps (with_submission env job sub)
  unfolding with_submission
  with_submission-Keeps env none =
      Within-bind Keeps Keeps-trans
        (update_run (env.fails fail_run) job.run_id (crash_run env.finish_now))
        (λ _. pure (missing_result job))
        (each-Keeps _ (update_run-Keeps (env.fails fail_run) (crash_run env.finish_now)))
        (λ u. same-Keeps _ (λ db. refl))
  with_submission-Keeps env (some sub) =
      Within-bind Keeps Keeps-trans
        (read (env.fails find_stage)
          (λ db. find_stage_in db.stages job.package_version_id job.stage_ref))
        _ (same-Keeps _ (λ db. refl)) (λ stage. settle-Keeps env sub stage (dispatch env job stage))

  run-Keeps : (env : RunEnv Policy) → Within Keeps (run_submission_run env job)
  unfolding run_submission_run
  run-Keeps env =
      Within-bind Keeps Keeps-trans
        (update_run (env.fails mark_running) job.run_id (start_run env.start_now job.runner_mode)) _
        (each-Keeps _
          (update_run-Keeps (env.fails mark_running) (start_run env.start_now job.runner_mode)))
        (λ u.
          Within-bind Keeps Keeps-trans
            (read (env.fails find_submission) (λ db. lookup db.submissions job.submission_id))
            (with_submission env job) (same-Keeps _ (λ db. refl)) (with_submission-Keeps env))

  -- A job writes no other run's row, whatever throws.
  pub run_submission_run-others :
      (env : RunEnv Policy) (db : WorkerDb Policy) (id : String)
      → id ≢ job.run_id
      → lookup (run_submission_run env job db).1.runs id ≡ lookup db.runs id
  unfolding Within
  run_submission_run-others env db id other = (run-Keeps env db).0 id other

  -- The queue runs a job again after a throw: attempts, each with the environment that it meets.
  abbrev pub attempts_at : List (RunEnv Policy) → WorkerDb Policy → WorkerDb Policy
  attempts_at [] db = db
  attempts_at (env ∷ rest) db = attempts_at rest (run_submission_run env job db).1

  -- After any attempts, however they failed, one more whose calls go through up to the end of the run
  -- ends it, if the run has a row at the start.
  pub attempts_at-Ended :
      (envs : List (RunEnv Policy)) (env : RunEnv Policy) (db : WorkerDb Policy)
      → HasRun job.run_id db
      → ((c : Call) → before_end c ≡ true → env.fails c ≡ false)
      → Ended env.finish_now job.run_id (attempts_at (envs ++ env ∷ []) db)
  unfolding Within
  attempts_at-Ended [] env db has works = run_submission_run-Ended env job db has works
  attempts_at-Ended (e ∷ envs) env db has works =
      attempts_at-Ended envs env (run_submission_run e job db).1 ((run-Keeps e db).1 has) works
