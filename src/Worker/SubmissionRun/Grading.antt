-- ===== src/Worker/SubmissionRun/Grading.antt =====
-- What a submission run leaves in the attempt's row.
use research_crafters.Worker.SubmissionRun.Ending.{after_end}
use research_crafters.Prelude.{
  Bool, Bool-cases, Option, Option-cases, String, ap, arith, eq_iff, inl, inr, nat_eq, none, refl,
  some, subst, string_eq, sym, true, ◌==◌, ◌∙◌, ◌≡◌, ◌≢◌,
}
use research_crafters.Worker.SubmissionRun.{
  ExecutionStatus, GradeRow, GraderInput, RunEnv, RunRow, RunnerArtifacts, StageRow, SubmissionRow,
  SubmissionRunJob, SubmissionRunResult, WorkerDb, dispatch, end_run, find_stage, find_stage_in,
  find_submission, finish_run, grade_step, grader_input, grading, is_ok, keep_grade, mark_running,
  mirror_attempt, mirror_status, ok, read, run_submission_run, settle, start_run, update_attempt,
  update_run, with_submission, write_logs,
}
use research_crafters.Prelude.Dict.{lookup}
use research_crafters.Prelude.Action.{Returns, Returns-bind, bind-returned, ◌>>=◌}

is_ok-ok : (e : ExecutionStatus) → is_ok e ≡ true → e ≡ ok
is_ok-ok e h = ground (arith, h)

module _ {Policy : Type 0} where
  -- The stage that the job finds.
  abbrev pub stage_of : SubmissionRunJob → WorkerDb Policy → Option (StageRow Policy)
  stage_of job db = find_stage_in db.stages job.package_version_id job.stage_ref

  -- The grader was asked with a rubric of the stage, and has answered with the grade.
  abbrev pub GradedWith :
      RunEnv Policy
      → SubmissionRunJob
      → SubmissionRow
      → RunnerArtifacts
      → Option (StageRow Policy)
      → GradeRow
      → Type 0
  GradedWith env job sub a found g =
      (stage : StageRow Policy) × (f : GraderInput → Option (Option GradeRow)) × (rubric : String)
      × (found ≡ some stage)
      × (env.grader ≡ some f)
      × (stage.rubric_ref ≡ some rubric)
      × (rubric ≢ "")
      × (f (grader_input job sub a rubric stage.pass_threshold) ≡ some (some g))

  grading-asked :
      (env : RunEnv Policy) (job : SubmissionRunJob) (sub : SubmissionRow) (a : RunnerArtifacts)
      (found : Option (StageRow Policy)) (g : GradeRow)
      → grading env job sub a found ≡ some (some (some g))
      → GradedWith env job sub a found g
  unfolding grading
  grading-asked env job sub a none g h = absurd (ground (arith, h))
  grading-asked env job sub a (some stage) g h = elim (Option-cases env.grader) [
    | inl missing ↦ absurd (ground (arith, h))
    | inr (f, has) ↦ elim (Option-cases stage.rubric_ref) [
      | inl no_rubric ↦ absurd (ground (arith, h))
      | inr (rubric, e) ↦ elim (Bool-cases (rubric == "")) [
        | inl empty ↦ absurd (ground (arith, h))
        | inr full ↦
            (stage, f, rubric, refl, has, e, ground (arith, eq_iff rubric ""), ground (arith, h))
      ]
    ]
  ]

  keep_grade-id :
      (env : RunEnv Policy) (job : SubmissionRunJob) (sub : SubmissionRow) (o : Option GradeRow)
      (db : WorkerDb Policy) (r : SubmissionRunResult) (id : String)
      → (keep_grade env job sub o db).0 ≡ some r
      → r.grade_id ≡ some id
      → (g : GradeRow) × (o ≡ some g) × (g.id ≡ id)
  unfolding keep_grade
  keep_grade-id env job sub none db r id h e = absurd (ground (arith, h, e))
  keep_grade-id env job sub (some g) db r id h e = (g, refl, ground (arith, h, e))

  -- A result with a grade has one that the grader gave, after an execution that went well.
  abbrev GradeOf :
      RunEnv Policy
      → SubmissionRunJob
      → SubmissionRow
      → RunnerArtifacts
      → Option (StageRow Policy)
      → SubmissionRunResult
      → Type 0
  GradeOf env job sub a found r =
      (id : String)
      → r.grade_id ≡ some id
      → (a.outcome ≡ ok) × ((g : GradeRow) × GradedWith env job sub a found g × (g.id ≡ id))

  grade_step-GradeOf :
      (env : RunEnv Policy) (job : SubmissionRunJob) (sub : SubmissionRow) (a : RunnerArtifacts)
      (found : Option (StageRow Policy))
      → Returns (GradeOf env job sub a found) (grade_step env job sub a found)
  unfolding grade_step Returns
  grade_step-GradeOf env job sub a found db r h id e = elim (Bool-cases (is_ok a.outcome)) [
    | inr bad ↦ absurd (ground (arith, h, e))
    | inl good ↦ elim (Option-cases (grading env job sub a found)) [
      | inl skipped ↦ absurd (ground (arith, h, e))
      | inr (none, threw) ↦ absurd (ground (arith, h, e))
      | inr (some o, asked) ↦
          let (g, is, same) = keep_grade-id env job sub o db r id (ground (arith, h)) e in
          (
            is_ok-ok a.outcome good,
            (g, grading-asked env job sub a found g (asked ∙ ap (λ x. some (some x)) is), same),
          )
    ]
  ]

  settle-graded :
      (env : RunEnv Policy) (job : SubmissionRunJob) (sub : SubmissionRow)
      (found : Option (StageRow Policy)) (a : RunnerArtifacts)
      → Returns (GradeOf env job sub a found) (settle env job sub found a)
  unfolding settle
  settle-graded env job sub found a =
      Returns-bind (GradeOf env job sub a found) (write_logs env job.run_id a.logs) _ (λ key.
        Returns-bind (GradeOf env job sub a found)
          (update_run (env.fails end_run) job.run_id (finish_run env.finish_now a key))
          (λ _. after_end env job sub found a)
          (λ _.
            Returns-bind (GradeOf env job sub a found)
              (update_attempt (env.fails mirror_status) sub.stage_attempt_id
                (mirror_attempt a.outcome))
              (λ _. grade_step env job sub a found) (λ _. grade_step-GradeOf env job sub a found)))

  update_run-others_tables :
      (fails : Bool) (id : String) (f : RunRow → RunRow) (db : WorkerDb Policy)
      → ((update_run fails id f db).1.submissions ≡ db.submissions)
        × ((update_run fails id f db).1.stages ≡ db.stages)
  unfolding update_run
  update_run-others_tables fails id f db = (ground arith, ground arith)

  -- What `RunEnv` and the tables say of a graded submission.
  abbrev pub Graded : RunEnv Policy → SubmissionRunJob → WorkerDb Policy → String → Type 0
  Graded env job db id =
      let a = dispatch env job (stage_of job db) in
      (sub : SubmissionRow) × (lookup db.submissions job.submission_id ≡ some sub)
      × (a.outcome ≡ ok)
      × ((g : GradeRow) × GradedWith env job sub a (stage_of job db) g × (g.id ≡ id))

  read-returned :
      {A : Type 0} (fails : Bool) (f : WorkerDb Policy → A) (db : WorkerDb Policy) (a : A)
      → (read fails f db).0 ≡ some a
      → f db ≡ a
  read-returned fails f db a h = ground (arith, h)

  with_submission-Graded :
      (env : RunEnv Policy) (job : SubmissionRunJob) (db : WorkerDb Policy)
      (r : SubmissionRunResult) (id : String)
      → (with_submission env job (lookup db.submissions job.submission_id) db).0 ≡ some r
      → r.grade_id ≡ some id
      → Graded env job db id
  unfolding with_submission Returns
  with_submission-Graded env job db r id h e =
      elim (Option-cases (lookup db.submissions job.submission_id)) [
        | inl missing ↦
            let path = ap (λ o. (with_submission env job o db).0) missing in
            absurd (ground (arith, h, e))
        | inr (sub, found) ↦
            let path = ap (λ o. (with_submission env job o db).0) found in
            let (stage, is_stage, h1) =
              bind-returned (read (env.fails find_stage) (stage_of job))
                (λ st. settle env job sub st (dispatch env job st)) db r (sym path ∙ h) in
            let same = read-returned (env.fails find_stage) (stage_of job) db stage is_stage in
            let (good, g) = settle-graded env job sub stage (dispatch env job stage) db r h1 id e in
            (
              sub,
              found,
              rw same good,
              subst
                  (λ st.
                    (g : GradeRow) × GradedWith env job sub (dispatch env job st) st g
                    × (g.id ≡ id))
                  (sym same) g,
            )
      ]

  -- If a job returns a grade's id, then its submission was found, the execution went well, and the
  -- grader was asked with a rubric of the stage and answered with that grade.
  pub run_submission_run-Graded :
      (env : RunEnv Policy) (job : SubmissionRunJob) (db : WorkerDb Policy)
      (r : SubmissionRunResult) (id : String)
      → (run_submission_run env job db).0 ≡ some r
      → r.grade_id ≡ some id
      → Graded env job db id
  unfolding run_submission_run
  run_submission_run-Graded env job db r id h e =
      let start =
        update_run (env.fails mark_running) job.run_id (start_run env.start_now job.runner_mode) in
      let (submissions_stand, stages_stand) =
        update_run-others_tables (env.fails mark_running) job.run_id
          (start_run env.start_now job.runner_mode) db in
      let fetch =
        read (env.fails find_submission) (λ db. lookup db.submissions job.submission_id) in
      let (_, _, h1) = bind-returned start (λ _. fetch >>= with_submission env job) db r h in
      let (sub, is_sub, h2) = bind-returned fetch (with_submission env job) (start db).1 r h1 in
      let same =
        read-returned (env.fails find_submission) (λ db. lookup db.submissions job.submission_id)
          (start db).1 sub is_sub in
      let path = ap (λ o. (with_submission env job o (start db).1).0) same in
      let graded = with_submission-Graded env job (start db).1 r id (path ∙ h2) e in
      let (sub', found, good, g) = graded in
      (sub', rw submissions_stand at found, rw stages_stand at good, rw stages_stand at g)
