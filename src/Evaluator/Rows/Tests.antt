-- ===== src/Evaluator/Rows/Tests.antt =====
-- Examples of stored grades and their overrides.
use research_crafters.Prelude.{[], none, refl, some, ℕ, ◌↔◌, ◌≡◌, ◌⊎◌}
use research_crafters.Prelude.Dict.{insert, lookup}
use research_crafters.Evaluator.Grades.{
  Grade, OverrideEntry, apply_override, failed, key_of, partial, passed, reviewer_feedback,
}
use research_crafters.Evaluator.Grades.Memory.{GradeMaps, empty_maps, put_grade}
use research_crafters.Evaluator.Grades.Memory.Overrides.{
  IsCoherent, IsCoherent-empty, insert-IsCoherent,
}
use research_crafters.Evaluator.Rows.{
  GradeRow, insert_row, insert_row-status_iff, last_status, override_row,
  override_row-apply_override, row_to_sdk_grade, status_from_row,
}

abbrev partial_grade : Grade ℕ
partial_grade = record {
  id = "g1";
  submission_id = "sub1";
  stage_id = "s1";
  rubric_version = "1";
  evaluator_version = "0.1.0";
  status = partial;
  rubric_score = 40;
  pass_threshold = 50;
  dimensions = [];
  feedback = reviewer_feedback "Close.";
  history = [];
  created_at = "noon";
}

abbrev review : OverrideEntry ℕ
review = record {
  reviewer_id = "r1";
  note = "Regraded.";
  applied_at = "one";
  new_status = some passed;
  new_score = some 60;
  new_feedback = none;
}

abbrev grade_row : GradeRow ℕ
grade_row = insert_row partial_grade

abbrev maps : GradeMaps ℕ
maps = put_grade partial_grade empty_maps

-- A partial grade is read back as failed, and an override of it as what the reviewer set.
partial_grade-stored :
    ((row_to_sdk_grade 0 grade_row).status ≡ failed)
    × ((row_to_sdk_grade 0 (override_row grade_row review)).status ≡ passed)
unfolding row_to_sdk_grade insert_row override_row status_from_row last_status
partial_grade-stored = (refl, refl)

override_row-apply_override_example :
    row_to_sdk_grade 0 (override_row grade_row review)
    ≡ record (apply_override (row_to_sdk_grade 0 grade_row) review) {
      feedback = reviewer_feedback "";
    }
override_row-apply_override_example = override_row-apply_override 0 grade_row review

insert_row-status_iff_example :
    ((row_to_sdk_grade 0 (insert_row partial_grade)).status ≡ partial)
    ↔ ((partial ≡ passed) ⊎ (partial ≡ failed))
unfolding last_status
insert_row-status_iff_example = insert_row-status_iff 0 partial_grade refl

empty_key : lookup (empty_maps {N = ℕ}).by_key (key_of partial_grade) ≡ none
unfolding lookup
empty_key = refl

empty_id : lookup (empty_maps {N = ℕ}).by_id "g1" ≡ none
unfolding lookup
empty_id = refl

maps-IsCoherent : IsCoherent maps
maps-IsCoherent = insert-IsCoherent partial_grade empty_maps empty_key empty_id IsCoherent-empty

maps-lists : lookup maps.by_id "g1" ≡ some partial_grade
unfolding lookup insert
maps-lists = refl
