-- ===== src/Submissions/Finalize/Recorded.antt =====
-- What the submission's row records of an accepted upload.
use research_crafters.Prelude.{
  Bool-cases, List, String, [], ap, arith, codes_eq, eq_iff, false, inl, inr, length, nat_eq, none,
  refl, some, string_eq, ℕ, ◌==◌, ◌||◌, ◌∙◌, ◌∷◌, ◌≡◌,
}
use research_crafters.Prelude.Dict.{lookup, lookup-insert}
use research_crafters.Submissions.Finalize.{
  FinalizeEnv, FinalizeRequest, backfill, backfilled, create_run, finalize, head_of, lower,
  positive, recorded_sha, start_run_of, upload_mismatch,
}
use research_crafters.Submissions.Finalize.Integrity.{
  ShaAgrees, SizeAgrees, check_upload_integrity_iff,
}
use research_crafters.Submissions.Finalize.Accepted.{finalize-enqueued}
use research_crafters.Worker.SubmissionRun.{SubmissionRow, SubmissionRunJob, WorkerDb}

lower-lower : (cs : List ℕ) → lower (lower cs) ≡ lower cs
unfolding lower
lower-lower [] = refl
lower-lower (c ∷ cs) = ground (arith, lower-lower cs)

recorded_sha-lower :
    (s : SubmissionRow) (reported : List ℕ)
    → (length s.bundle_sha == 0) ≡ false
    → ShaAgrees (recorded_sha s) reported
    → lower s.bundle_sha ≡ lower reported
recorded_sha-lower s reported full agree =
    let is : recorded_sha s ≡ some s.bundle_sha = ground arith in
    elim agree [
      | inl missing ↦ absurd (ground (arith, missing, is))
      | inr (inl empty) ↦ absurd (ground (arith, empty, is))
      | inr (inr (t, at, same)) ↦
          let path : s.bundle_sha ≡ t = ground (arith, at, is) in ap lower path ∙ same
    ]

recorded_size :
    (n reported : ℕ)
    → (n == 0) ≡ false
    → SizeAgrees (positive (positive (some n))) reported
    → n ≡ reported
recorded_size n reported full agree = elim agree [
  | inl missing ↦ absurd (ground (arith, missing, full))
  | inr is ↦ ground (arith, is, full)
]

module _ {Policy : Type 0} where
  backfill-Recorded :
      (env : FinalizeEnv) (r : FinalizeRequest) (id : String) (s : SubmissionRow)
      (db : WorkerDb Policy)
      → lookup db.submissions id ≡ some s
      → upload_mismatch env r s ≡ none
      → env.backfill_fails ≡ false
      → (row : SubmissionRow) × (lookup (backfill env r id s db).submissions id ≡ some row)
        × (lower row.bundle_sha ≡ lower r.uploaded_sha)
        × (row.byte_size ≡ r.uploaded_bytes)
  unfolding backfill upload_mismatch
  backfill-Recorded env r id s db found same fills =
      let (_, _, sha, _, size) =
        (check_upload_integrity_iff r (recorded_sha s) (positive (some s.byte_size))
            (head_of env s.bundle_object_key)).0
          same in
      elim (Bool-cases (length s.bundle_sha == 0 || s.byte_size == 0)) [
        | inl empty ↦ (
          backfilled r s,
          ground (arith, lookup-insert db.submissions id id (backfilled r s), eq_iff id id),
          lower-lower r.uploaded_sha,
          refl,
        )
        | inr full ↦ (
          s,
          ground arith,
          recorded_sha-lower s r.uploaded_sha (ground (arith, full)) sha,
          recorded_size s.byte_size r.uploaded_bytes (ground (arith, full)) size,
        )
      ]

  -- If the route hands a job to the queue, and empty placeholders could be filled, the submission's row has the hash and
  -- the size that the caller reported.
  pub finalize-Recorded :
      (env : FinalizeEnv) (r : FinalizeRequest) (id : String) (db : WorkerDb Policy)
      (job : SubmissionRunJob)
      → (finalize env (some r) id db).enqueued ≡ some job
      → env.backfill_fails ≡ false
      → (row : SubmissionRow) × (lookup (finalize env (some r) id db).db.submissions id ≡ some row)
        × (lower row.bundle_sha ≡ lower r.uploaded_sha)
        × (row.byte_size ≡ r.uploaded_bytes)
  unfolding start_run_of create_run
  finalize-Recorded env r id db job h fills =
      let (r', s, is, (found, may, same), path, sent) =
        finalize-enqueued env (some r) id db job h in
      let req : r' ≡ r = ground (arith, is) in
      let there : lookup db.submissions id ≡ some s = ground (arith, found) in
      let (row, at, sha, size) = backfill-Recorded env r' id s db there same fills in
      let kept : (finalize env (some r) id db).db.submissions
          ≡ (backfill env r' id s db).submissions =
        ground (arith, path) in
      (
        row,
        ap (λ d. lookup d id) kept ∙ at,
        sha ∙ ap (λ q. lower q.uploaded_sha) req,
        size ∙ ap (λ q. q.uploaded_bytes) req,
      )
