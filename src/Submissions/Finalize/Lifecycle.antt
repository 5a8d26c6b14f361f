-- ===== src/Submissions/Finalize/Lifecycle.antt =====
-- From an upload to the end of its run.
use research_crafters.Prelude.{List, Option, String, [], false, some, true, ◌++◌, ◌∷◌, ◌≡◌}
use research_crafters.Submissions.Finalize.{FinalizeEnv, FinalizeRequest, finalize, queued_run}
use research_crafters.Submissions.Finalize.Accepted.{finalize-queued_run}
use research_crafters.Worker.SubmissionRun.{Call, RunEnv, SubmissionRunJob, WorkerDb}
use research_crafters.Worker.SubmissionRun.Ending.{Ended, before_end}
use research_crafters.Worker.SubmissionRun.Retry.{attempts_at, attempts_at-Ended}

module _ {Policy : Type 0} where
  -- From the upload to the end of the run: if the route creates the run and hands its job to the queue,
  -- then after any attempts of the worker at the job, however they fail, one more whose calls go
  -- through up to the end of the run ends it.
  pub finalize-Ended :
      (env : FinalizeEnv) (req : Option FinalizeRequest) (id : String) (db : WorkerDb Policy)
      (job : SubmissionRunJob) (tries : List (RunEnv Policy)) (last : RunEnv Policy)
      → (finalize env req id db).enqueued ≡ some job
      → env.create_fails ≡ false
      → ((c : Call) → before_end c ≡ true → last.fails c ≡ false)
      → Ended last.finish_now job.run_id
          (attempts_at job (tries ++ last ∷ []) (finalize env req id db).db)
  finalize-Ended env req id db job tries last h creates works =
      attempts_at-Ended job tries last (finalize env req id db).db
        (queued_run job.runner_mode, finalize-queued_run env req id db job h creates) works
