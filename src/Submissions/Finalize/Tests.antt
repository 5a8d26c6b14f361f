-- ===== src/Submissions/Finalize/Tests.antt =====
-- An upload of 64 characters that is finalized, and then run.
use research_crafters.Prelude.{[], ap, false, inr, none, refl, some, true, ℕ, ◌∷◌, ◌≡◌}
use research_crafters.Prelude.Dict.{lookup}
use research_crafters.Worker.SubmissionRun.{
  RunEnv, SubmissionRow, SubmissionRunJob, WorkerDb, find_stage_in, none_mode,
}
use research_crafters.Worker.SubmissionRun.Ending.{Ended}
use research_crafters.Worker.SubmissionRun.Retry.{attempts_at}
use research_crafters.Submissions.Finalize.{
  FinalizeEnv, FinalizeRequest, HeadResult, backfill, check_upload_integrity, finalize,
  finalize_found, forbidden, job_of, lower, refused, runner_mode_of, sha_differs, size_differs,
  start_run_of, upload_mismatch,
}
use research_crafters.Submissions.Finalize.Accepted.{finalize-refused, is_finalized}
use research_crafters.Submissions.Finalize.Lifecycle.{finalize-Ended}
use research_crafters.Submissions.Finalize.Recorded.{finalize-Recorded}
use research_crafters.Access.{
  AccessRows, can_access, free_preview, is_active_pro_member, is_known, is_mentor_action,
  not_authenticated, owns_stage, signed_in,
}

-- "AB", and "ab" as the store knows it.
abbrev upload : FinalizeRequest
upload = record { uploaded_sha = 65 ∷ 66 ∷ []; uploaded_bytes = 9 }

abbrev stored_object : HeadResult
stored_object = record { exists = true; head_sha = some (97 ∷ 98 ∷ []); head_size = some 9 }

abbrev pro_rows : AccessRows
pro_rows = record {
  release_free_stage_ids = none;
  stage_row = none;
  membership = some (record { plan = "pro"; status = "active" });
  entitlements = [];
}

abbrev open_env : FinalizeEnv
open_env = record {
  user = some "u1";
  access_now = 5;
  access_rows = λ input. pro_rows;
  find_fails = false;
  head_object = λ key. some stored_object;
  backfill_fails = false;
  stage_fails = false;
  create_fails = false;
  queue_fails = false;
  new_run_id = "r1";
  fallback_id = "run-5";
}

abbrev opened : SubmissionRow
opened = record {
  bundle_object_key = "k1";
  bundle_sha = [];
  byte_size = 0;
  stage_attempt_id = "a1";
  attempt_stage_ref = "S001";
  attempt_package_version_id = "v1";
}

abbrev upload_db : WorkerDb ℕ
upload_db = record {
  runs = [];
  submissions = ("s1", opened) ∷ [];
  stages = [];
  attempts = [];
  log_files = [];
  grade_events = [];
}

abbrev upload_job : SubmissionRunJob
upload_job = job_of open_env "s1" opened none_mode

upload_enqueued : (finalize open_env (some upload) "s1" upload_db).enqueued ≡ some upload_job
unfolding finalize lookup can_access is_known signed_in free_preview is_mentor_action owns_stage
    is_active_pro_member finalize_found upload_mismatch check_upload_integrity sha_differs lower
    size_differs start_run_of backfill runner_mode_of find_stage_in
upload_enqueued = refl

-- The queue's worker, whose database works.
abbrev worker_env : RunEnv ℕ
worker_env = record {
  fails = λ c. false;
  executor = λ input. inr "no sandbox";
  grader = none;
  ndjson_log_dir = none;
  write_fails = false;
  line_json = λ l. l.text;
  start_now = 6;
  finish_now = 7;
  log_now = "now";
}

finalize-Ended_example :
    Ended 7 "r1"
      (attempts_at upload_job (worker_env ∷ []) (finalize open_env (some upload) "s1" upload_db).db)
finalize-Ended_example =
    finalize-Ended open_env (some upload) "s1" upload_db upload_job [] worker_env upload_enqueued
      refl (λ c before. refl)

finalize-Recorded_example :
    (row : SubmissionRow) × (lookup
        (finalize open_env (some upload) "s1" upload_db).db.submissions
        "s1"
      ≡ some row)
    × (lower row.bundle_sha ≡ lower (65 ∷ 66 ∷ []))
    × (row.byte_size ≡ 9)
finalize-Recorded_example =
    finalize-Recorded open_env upload "s1" upload_db upload_job upload_enqueued refl

abbrev visitor_env : FinalizeEnv
visitor_env = record open_env { user = none }

visitor_refused :
    (finalize visitor_env (some upload) "s1" upload_db).reply ≡ forbidden not_authenticated
unfolding finalize lookup can_access is_known signed_in
visitor_refused = refl

finalize-refused_example :
    finalize visitor_env (some upload) "s1" upload_db
    ≡ refused (finalize visitor_env (some upload) "s1" upload_db).reply upload_db
finalize-refused_example =
    finalize-refused visitor_env (some upload) "s1" upload_db (ap is_finalized visitor_refused)
