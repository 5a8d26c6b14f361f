-- ===== src/Submissions/Finalize.antt =====
-- apps/web/app/api/submissions/[id]/finalize/route.ts and `checkUploadIntegrity` of
-- apps/web/lib/storage.ts: an uploaded bundle is checked, and a run of it is queued. The tables are
-- those of the worker; a hash is the list of its character codes. The calls that fail and what the
-- object store says of a key are the environment's.
mod Upload
pub mod Integrity
pub mod Accepted
pub mod Lifecycle
pub mod Recorded
mod Tests
unfoldable pub use Upload.*
use research_crafters.Prelude.{
  Bool, List, Option, String, codes_eq, false, get_or, if◌then◌else◌, length, nat_eq, none, not,
  some, string_eq, true, ℕ, ◌&&◌, ◌==◌, ◌||◌,
}
use research_crafters.Prelude.Dict.{insert, lookup}
use research_crafters.Worker.SubmissionRun.{
  RunRow, RunnerMode, StageRow, SubmissionRow, SubmissionRunJob, WorkerDb, find_stage_in,
  mini_experiment, none_mode, queued, replay, test,
}
use research_crafters.Access.{
  AccessRows, PermissionDenialReason, PermissionInput, allowed, can_access, denied, submit_attempt,
}

pub data FinalizeReply : Type 0 where
  bad_request : FinalizeReply
  forbidden : PermissionDenialReason → FinalizeReply
  mismatch : FinalizeMismatch → FinalizeReply
  finalized : String → Bool → FinalizeReply

-- `runner_job_started`: submission, run, stage, and whether the queue was unreachable.
pub data FinalizeEvent : Type 0 where
  job_started : String → String → String → Bool → FinalizeEvent

-- `new_run_id` is the database's id for a run, `fallback_id` the one from the clock; `head_object`
-- answers none where the store is unreachable.
pub record FinalizeEnv : Type 0 where
  pub user : Option String
  pub access_now : ℕ
  pub access_rows : PermissionInput → AccessRows
  pub find_fails : Bool
  pub head_object : String → Option HeadResult
  pub backfill_fails : Bool
  pub stage_fails : Bool
  pub create_fails : Bool
  pub queue_fails : Bool
  pub new_run_id : String
  pub fallback_id : String

abbrev pub access_input : FinalizeEnv → Option SubmissionRow → PermissionInput
access_input env sub = record {
  user_id = env.user;
  package_version_id = elim sub [ none ↦ "unknown" | some s ↦ s.attempt_package_version_id ];
  stage = record {
    ref = elim sub [ none ↦ "submission" | some s ↦ s.attempt_stage_ref ];
    is_free_preview = false;
    is_locked = false;
  };
  action = submit_attempt;
}

-- `head`, where an unreachable store counts as an object without metadata.
abbrev pub head_of : FinalizeEnv → String → HeadResult
head_of env key =
    get_or (env.head_object key) (record { exists = true; head_sha = none; head_size = none })

abbrev pub recorded_sha : SubmissionRow → Option (List ℕ)
recorded_sha s = if length s.bundle_sha == 0 then none else some s.bundle_sha

unfoldable pub upload_mismatch :
    FinalizeEnv → FinalizeRequest → SubmissionRow → Option FinalizeMismatch
upload_mismatch env req s =
    check_upload_integrity req (recorded_sha s) (positive (some s.byte_size))
      (head_of env s.bundle_object_key)

abbrev pub mode_of_text : String → RunnerMode
mode_of_text t =
    if t == "test"
    then test
    else if t == "replay"
    then replay
    else if t == "mini_experiment"
    then mini_experiment
    else none_mode

abbrev pub backfilled : FinalizeRequest → SubmissionRow → SubmissionRow
backfilled req s = record s { bundle_sha = lower req.uploaded_sha; byte_size = req.uploaded_bytes }

abbrev pub queued_run : RunnerMode → RunRow
queued_run mode = record {
  run_status = queued;
  run_mode = mode;
  started_at = none;
  finished_at = none;
  metrics_json = none;
  log_object_key = none;
}

pub record Finalized (Policy : Type 0) : Type 0 where
  pub reply : FinalizeReply
  pub enqueued : Option SubmissionRunJob
  pub tracked : Option FinalizeEvent
  pub db : WorkerDb Policy

abbrev pub run_id_of : FinalizeEnv → String
run_id_of env = if env.create_fails then env.fallback_id else env.new_run_id

abbrev pub job_of : FinalizeEnv → String → SubmissionRow → RunnerMode → SubmissionRunJob
job_of env id s mode = record {
  run_id = run_id_of env;
  submission_id = id;
  package_version_id = s.attempt_package_version_id;
  stage_ref = s.attempt_stage_ref;
  runner_mode = mode;
}

module _ {Policy : Type 0} where
  abbrev pub refused : FinalizeReply → WorkerDb Policy → Finalized Policy
  refused reply db = record { reply = reply; enqueued = none; tracked = none; db = db }

  -- Empty or zero placeholders take the finalised values.
  unfoldable pub backfill :
      FinalizeEnv → FinalizeRequest → String → SubmissionRow → WorkerDb Policy → WorkerDb Policy
  backfill env req id s db =
      if (length s.bundle_sha == 0 || s.byte_size == 0) && not env.backfill_fails
      then record db { submissions = insert db.submissions id (backfilled req s) }
      else db

  abbrev mode_of_stage : Option (StageRow Policy) → RunnerMode
  mode_of_stage none = none_mode
  mode_of_stage (some stage) = mode_of_text stage.stage_runner_mode

  unfoldable pub runner_mode_of : FinalizeEnv → SubmissionRow → WorkerDb Policy → RunnerMode
  runner_mode_of env s db =
      if env.stage_fails
      then none_mode
      else mode_of_stage (find_stage_in db.stages s.attempt_package_version_id s.attempt_stage_ref)

  -- `prisma.run.create`
  unfoldable pub create_run : FinalizeEnv → RunnerMode → WorkerDb Policy → WorkerDb Policy
  create_run env mode db =
      if env.create_fails
      then db
      else record db { runs = insert db.runs env.new_run_id (queued_run mode) }

  -- The part of the route behind the check of the upload.
  unfoldable pub start_run_of :
      FinalizeEnv → FinalizeRequest → String → SubmissionRow → WorkerDb Policy → Finalized Policy
  start_run_of env req id s db =
      let db1 = backfill env req id s db in
      let mode = runner_mode_of env s db1 in
      record {
        reply = finalized (run_id_of env) env.queue_fails;
        enqueued = if env.queue_fails then none else some (job_of env id s mode);
        tracked = some (job_started id (run_id_of env) s.attempt_stage_ref env.queue_fails);
        db = create_run env mode db1;
      }

  unfoldable pub finalize_found :
      FinalizeEnv
      → FinalizeRequest
      → String
      → Option SubmissionRow
      → WorkerDb Policy
      → Finalized Policy
  finalize_found env req id none db = record {
    reply = finalized env.fallback_id false;
    enqueued = none;
    tracked = some (job_started id env.fallback_id "unknown" false);
    db = db;
  }
  finalize_found env req id (some s) db = elim (upload_mismatch env req s) [
    | some m ↦ refused (mismatch m) db
    | none ↦ start_run_of env req id s db
  ]

  abbrev pub found_submission : FinalizeEnv → String → WorkerDb Policy → Option SubmissionRow
  found_submission env id db = if env.find_fails then none else lookup db.submissions id

  -- `POST /api/submissions/[id]/finalize`
  unfoldable pub finalize :
      FinalizeEnv → Option FinalizeRequest → String → WorkerDb Policy → Finalized Policy
  finalize env none id db = refused bad_request db
  finalize env (some req) id db =
      let sub = found_submission env id db in
      let input = access_input env sub in
      elim (can_access env.access_now input (env.access_rows input)) [
        | denied reason ↦ refused (forbidden reason) db
        | allowed ↦ finalize_found env req id sub db
      ]
