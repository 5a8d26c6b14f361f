-- ===== src/Evaluator/Rows.antt =====
-- packages/db/src/grade-store.ts: how grades are kept in rows of a database. A JSON column that
-- holds no array is none, and a value in it of the wrong shape too. Evidence references and model
-- metadata are left out. The database itself is not modelled: these are the rows that it is given
-- and the grades that are read back.
mod Tests
use research_crafters.Prelude.{
  Bool, List, Option, String, [], ap, arith, eq_iff, false, get_or, if◌then◌else◌, inl, inr,
  is_some, map, nat_eq, none, refl, some, string_eq, true, ◌++◌, ◌==◌, ◌↔◌, ◌∷◌, ◌≡◌, ◌⊎◌,
}
use research_crafters.Evaluator.Grades.{
  DimensionScore, Grade, GradeStatus, OverrideEntry, apply_override, execution_failed, failed,
  partial, passed, pending, reviewer_feedback,
}

module _ (N : Type 0) where
  pub record GradeRow : Type 0 where
    pub row_id : String
    pub stage_attempt_id : String
    pub row_submission_id : Option String
    pub row_rubric_version : String
    pub row_evaluator_version : String
    pub row_passed : Bool
    pub row_score : Option N
    pub row_dimensions : Option (List (Option (DimensionScore N)))
    pub row_history : Option (List (Option (OverrideEntry N)))
    pub row_created_at : String

abbrev pub is_passed : GradeStatus → Bool
is_passed passed = true
is_passed _ = false

-- `raw.filter(isOverrideEntry)` and its like.
abbrev pub well_formed {ℓ} : {A : Type ℓ} → List (Option A) → List A
well_formed [] = []
well_formed (none ∷ values) = well_formed values
well_formed (some a ∷ values) = a ∷ well_formed values

-- `normalizeHistory`, `normalizeDimensions`
abbrev pub normalize {ℓ} : {A : Type ℓ} → Option (List (Option A)) → List A
normalize none = []
normalize (some values) = well_formed values

module _ {N : Type 0} where
  -- The status of the last entry that has one.
  unfoldable pub last_status : List (OverrideEntry N) → Option GradeStatus
  last_status [] = none
  last_status (e ∷ history) =
      let later = last_status history in if is_some later then later else e.new_status

  -- `statusFromRow`
  unfoldable pub status_from_row : GradeRow N → List (OverrideEntry N) → GradeStatus
  status_from_row row history =
      get_or (last_status history) (if row.row_passed then passed else failed)

  -- `rowToSdkGrade`; `neutral` is the score 0.
  unfoldable pub row_to_sdk_grade : N → GradeRow N → Grade N
  row_to_sdk_grade neutral row = record {
    id = row.row_id;
    submission_id = get_or row.row_submission_id "";
    stage_id = row.stage_attempt_id;
    rubric_version = row.row_rubric_version;
    evaluator_version = row.row_evaluator_version;
    status = status_from_row row (normalize row.row_history);
    rubric_score = get_or row.row_score neutral;
    pass_threshold = neutral;
    dimensions = normalize row.row_dimensions;
    feedback = reviewer_feedback "";
    history = normalize row.row_history;
    created_at = row.row_created_at;
  }

  -- The row that `insert` creates.
  unfoldable pub insert_row : Grade N → GradeRow N
  insert_row g = record {
    row_id = g.id;
    stage_attempt_id = g.stage_id;
    row_submission_id = if g.submission_id == "" then none else some g.submission_id;
    row_rubric_version = g.rubric_version;
    row_evaluator_version = g.evaluator_version;
    row_passed = is_passed g.status;
    row_score = some g.rubric_score;
    row_dimensions = some (map (λ d. some d) g.dimensions);
    row_history = some (map (λ e. some e) g.history);
    row_created_at = g.created_at;
  }

  -- The update that `appendOverride` makes in its transaction.
  unfoldable pub override_row : GradeRow N → OverrideEntry N → GradeRow N
  override_row row e = record row {
    row_history = some (map (λ a. some a) (normalize row.row_history ++ e ∷ []));
    row_passed = elim e.new_status [ none ↦ row.row_passed | some s ↦ is_passed s ];
    row_score = elim e.new_score [ none ↦ row.row_score | some x ↦ some x ];
  }

well_formed-map {ℓ} : {A : Type ℓ} (xs : List A) → well_formed (map (λ a. some a) xs) ≡ xs
well_formed-map [] = refl
well_formed-map (x ∷ xs) = ap (λ ys. x ∷ ys) (well_formed-map xs)

stored_status_iff :
    (s : GradeStatus)
    → ((if is_passed s then passed else failed) ≡ s) ↔ ((s ≡ passed) ⊎ (s ≡ failed))
stored_status_iff passed = (λ h. inl refl, λ h. refl)
stored_status_iff failed = (λ h. inr refl, λ h. refl)
stored_status_iff partial = (λ h. ground arith, λ h. ground arith)
stored_status_iff pending = (λ h. ground arith, λ h. ground arith)
stored_status_iff execution_failed = (λ h. ground arith, λ h. ground arith)

module _ {N : Type 0} where
  last_status-append :
      (history : List (OverrideEntry N)) (e : OverrideEntry N)
      → last_status (history ++ e ∷ [])
        ≡ (if is_some e.new_status then e.new_status else last_status history)
  unfolding last_status
  last_status-append [] e = ground arith
  last_status-append (a ∷ history) e = ground (arith, last_status-append history e)

  -- An override of a row is the override of its grade: the grade that is read after the update is
  -- the one read before it as `applyOverride` changes it, with the entry at the end of its history
  -- and its status and score as the entry says, except that no feedback is kept.
  pub override_row-apply_override :
      (neutral : N) (row : GradeRow N) (e : OverrideEntry N)
      → row_to_sdk_grade neutral (override_row row e)
        ≡ record (apply_override (row_to_sdk_grade neutral row) e) {
          feedback = reviewer_feedback "";
        }
  unfolding row_to_sdk_grade override_row apply_override status_from_row
  override_row-apply_override neutral row e = ground (
    arith,
    well_formed-map (normalize row.row_history ++ e ∷ []),
    last_status-append (normalize row.row_history) e,
  )

  -- What a stored grade keeps: id, submission, stage, versions, score, dimensions, history and time
  -- are read back as they were inserted.
  pub insert_row-read :
      (neutral : N) (g : Grade N)
      → row_to_sdk_grade neutral (insert_row g) ≡ record g {
        status = get_or (last_status g.history) (if is_passed g.status then passed else failed);
        pass_threshold = neutral;
        feedback = reviewer_feedback "";
      }
  unfolding row_to_sdk_grade insert_row status_from_row
  insert_row-read neutral g =
      rw (well_formed-map g.history, well_formed-map g.dimensions)
        (ground (arith, eq_iff g.submission_id ""))

  -- A stored status is read back as it was, where no override has set one, exactly for the grades
  -- that passed or failed: the row has no room for the other three.
  pub insert_row-status_iff :
      (neutral : N) (g : Grade N)
      → last_status g.history ≡ none
      → ((row_to_sdk_grade neutral (insert_row g)).status ≡ g.status)
        ↔ ((g.status ≡ passed) ⊎ (g.status ≡ failed))
  unfolding row_to_sdk_grade insert_row status_from_row
  insert_row-status_iff neutral g h = rw (well_formed-map g.history, h) (stored_status_iff g.status)
