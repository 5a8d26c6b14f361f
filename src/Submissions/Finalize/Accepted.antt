-- ===== src/Submissions/Finalize/Accepted.antt =====
-- What an accepted finalize leaves, and what the worker then makes of its job.
use research_crafters.Prelude.{
  Bool, Option, Option-cases, String, ap, arith, eq_iff, false, inl, inr, none, refl, some, sym,
  true, ◌∙◌, ◌≡◌, ◌⊎◌,
}
use research_crafters.Submissions.Finalize.{
  FinalizeEnv, FinalizeReply, FinalizeRequest, Finalized, access_input, backfill, bad_request,
  create_run, finalize, finalize_found, finalized, forbidden, found_submission, mismatch,
  queued_run, refused, runner_mode_of, start_run_of, upload_mismatch,
}
use research_crafters.Worker.SubmissionRun.{SubmissionRow, SubmissionRunJob, WorkerDb}
use research_crafters.Access.{PermissionDenialReason, PermissionResult, allowed, can_access, denied}
use research_crafters.Prelude.Dict.{lookup, lookup-insert}

abbrev pub is_finalized : FinalizeReply → Bool
is_finalized (finalized run_id deferred) = true
is_finalized _ = false

access-cases :
    (p : PermissionResult)
    → (p ≡ allowed) ⊎ ((reason : PermissionDenialReason) × (p ≡ denied reason))
access-cases allowed = inl refl
access-cases (denied reason) = inr (reason, refl)

module _ {Policy : Type 0} where
  -- The submission is there, the caller may submit, and the upload is the expected one.
  abbrev pub Accepts :
      FinalizeEnv → FinalizeRequest → String → SubmissionRow → WorkerDb Policy → Type 0
  Accepts env req id s db =
      let input = access_input env (some s) in
      (found_submission env id db ≡ some s)
      × (can_access env.access_now input (env.access_rows input) ≡ allowed)
      × (upload_mismatch env req s ≡ none)

  -- The three ways through the route.
  data Outcome (env : FinalizeEnv) (req : Option FinalizeRequest) (id : String)
      (db : WorkerDb Policy) : Type 0 where
    turned_away :
        (r : FinalizeReply)
        → is_finalized r ≡ false
        → finalize env req id db ≡ refused r db
        → Outcome env req id db
    unknown :
        (r : FinalizeRequest)
        → found_submission env id db ≡ none
        → finalize env req id db ≡ finalize_found env r id none db
        → Outcome env req id db
    started :
        (r : FinalizeRequest) (s : SubmissionRow)
        → req ≡ some r
        → Accepts env r id s db
        → finalize env req id db ≡ start_run_of env r id s db
        → Outcome env req id db

  found-Outcome :
      (env : FinalizeEnv) (r : FinalizeRequest) (id : String) (db : WorkerDb Policy)
      (sub : Option SubmissionRow)
      → found_submission env id db ≡ sub
      → can_access env.access_now (access_input env sub) (env.access_rows (access_input env sub))
        ≡ allowed
      → finalize env (some r) id db ≡ finalize_found env r id sub db
      → Outcome env (some r) id db
  unfolding finalize_found
  found-Outcome env r id db none found may path = unknown r found path
  found-Outcome env r id db (some s) found may path =
      elim (Option-cases (upload_mismatch env r s)) [
        | inl same ↦ started r s refl (found, may, same) (ground (arith, path))
        | inr (m, differs) ↦ turned_away (mismatch m) refl (ground (arith, path))
      ]

  finalize-Outcome :
      (env : FinalizeEnv) (req : Option FinalizeRequest) (id : String) (db : WorkerDb Policy)
      → Outcome env req id db
  unfolding finalize
  finalize-Outcome env none id db = turned_away bad_request refl refl
  finalize-Outcome env (some r) id db =
      let sub = found_submission env id db in
      let input = access_input env sub in
      let access = can_access env.access_now input (env.access_rows input) in
      elim (access-cases access) [
        | inl may ↦ found-Outcome env r id db sub refl may (ground arith)
        | inr (reason, closed) ↦ turned_away (forbidden reason) refl (ground arith)
      ]

  -- A reply that refuses leaves the tables, hands the queue no job and tracks nothing.
  pub finalize-refused :
      (env : FinalizeEnv) (req : Option FinalizeRequest) (id : String) (db : WorkerDb Policy)
      → is_finalized (finalize env req id db).reply ≡ false
      → finalize env req id db ≡ refused (finalize env req id db).reply db
  unfolding finalize_found start_run_of
  finalize-refused env req id db h = elim (finalize-Outcome env req id db) [
    | turned_away r away path ↦
        path ∙ ap (λ q. refused q db) (sym (ap (λ (f : Finalized Policy). f.reply) path))
    | unknown r missing path ↦ absurd (ground (arith, path, h))
    | started r s is accepts path ↦ absurd (ground (arith, path, h))
  ]

  -- The job that goes to the queue is one of an accepted request.
  pub finalize-enqueued :
      (env : FinalizeEnv) (req : Option FinalizeRequest) (id : String) (db : WorkerDb Policy)
      (job : SubmissionRunJob)
      → (finalize env req id db).enqueued ≡ some job
      → (r : FinalizeRequest) × (s : SubmissionRow) × (req ≡ some r)
        × Accepts env r id s db
        × (finalize env req id db ≡ start_run_of env r id s db)
        × (env.queue_fails ≡ false)
  unfolding finalize_found start_run_of
  finalize-enqueued env req id db job h = elim (finalize-Outcome env req id db) [
    | turned_away r away path ↦ absurd (ground (arith, path, h))
    | unknown r missing path ↦ absurd (ground (arith, path, h))
    | started r s is accepts path ↦ (r, s, is, accepts, path, ground (arith, path, h))
  ]

  start_run_of-run :
      (env : FinalizeEnv) (r : FinalizeRequest) (id : String) (s : SubmissionRow)
      (db : WorkerDb Policy) (job : SubmissionRunJob)
      → (start_run_of env r id s db).enqueued ≡ some job
      → env.create_fails ≡ false
      → lookup (start_run_of env r id s db).db.runs job.run_id ≡ some (queued_run job.runner_mode)
  unfolding start_run_of create_run
  start_run_of-run env r id s db job h creates =
      let db1 = backfill env r id s db in
      let mode = runner_mode_of env s db1 in
      let is_id : job.run_id ≡ env.new_run_id = ground (arith, h) in
      let is_mode : job.runner_mode ≡ mode = ground (arith, h) in
      ground (
        arith,
        lookup-insert db1.runs env.new_run_id env.new_run_id (queued_run mode),
        eq_iff env.new_run_id env.new_run_id,
      )

  -- A job that goes to the queue has a queued run in its mode, if the run could be created.
  pub finalize-queued_run :
      (env : FinalizeEnv) (req : Option FinalizeRequest) (id : String) (db : WorkerDb Policy)
      (job : SubmissionRunJob)
      → (finalize env req id db).enqueued ≡ some job
      → env.create_fails ≡ false
      → lookup (finalize env req id db).db.runs job.run_id ≡ some (queued_run job.runner_mode)
  finalize-queued_run env req id db job h creates =
      let (r, s, is, accepts, path, sent) = finalize-enqueued env req id db job h in
      let h' = rw path at h in rw path (start_run_of-run env r id s db job h' creates)
