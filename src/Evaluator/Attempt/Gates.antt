-- ===== src/Evaluator/Attempt/Gates.antt =====
-- About passed grades and refusals.
use research_crafters.Prelude.{Option, [], arith, false, get_or, none, not, true, ◌&&◌, ◌≡◌}
use research_crafters.Evaluator.Grades.{Grade, GradeStore, IntermediateStore, passed}
use research_crafters.Evaluator.Attempt.{
  AttemptInput, RefusalReason, ScoreOps, aggregate_score, citation_of, derive_status, dimensions_of,
  failed_grade, find_cached, fresh_attempt, grade_attempt, graded, is_executable, is_nil, is_ok,
  is_violation, key_of_input, preflight, preflight_done, refused, score_attempt, scored_grade,
  threshold_of,
}

module _ {N S I : Type 0} (ops : ScoreOps N) (store : GradeStore N S)
    (snapshots : Option (IntermediateStore N I)) where
  -- A refused attempt leaves both stores as they were.
  pub grade_attempt-refused :
      (i : AttemptInput N) (s : S) (m : I) (reason : RefusalReason)
      → (grade_attempt ops store snapshots i s m).0 ≡ refused reason
      → grade_attempt ops store snapshots i s m ≡ (refused reason, s, m)
  unfolding grade_attempt fresh_attempt score_attempt
  grade_attempt-refused i s m reason h = ground arith

  derive_status-passed :
      (score threshold : N)
      → derive_status ops score threshold ≡ passed
      → ops.at_least score threshold ≡ true
  unfolding derive_status
  derive_status-passed score threshold h = ground arith

  -- A passed grade is earned. Where no grade stands under the key, no snapshot says that the
  -- preflight was passed, and the store returns as passed only what it was given as passed: if the
  -- answer is a passed grade, then an executable stage ran with status `ok`, a rubric with a hidden
  -- solution came with evidence, no strict citation check failed, and the weighted score reaches
  -- the threshold.
  pub grade_attempt-passed :
      (i : AttemptInput N) (s : S) (m : I) (g : Grade N)
      → ((g : Grade N) (s : S) → (store.insert_grade g s).0.status ≡ passed → g.status ≡ passed)
      → store.find_by_key (key_of_input i) s ≡ none
      → preflight_done (find_cached ops store snapshots (key_of_input i) m) ≡ false
      → (grade_attempt ops store snapshots i s m).0 ≡ graded g
      → g.status ≡ passed
      → let cached = find_cached ops store snapshots (key_of_input i) m in
        (is_executable i.runner_mode && not (is_ok i.run_status) ≡ false)
        × (i.hidden_correct && is_nil (get_or i.evidence_refs []) ≡ false)
        × (is_violation (citation_of i) ≡ false)
        × (ops.at_least (aggregate_score ops (dimensions_of ops i cached).0) (threshold_of i cached)
            ≡ true)
  unfolding grade_attempt fresh_attempt score_attempt preflight scored_grade
  grade_attempt-passed i s m g honest new fresh h p =
      let cached = find_cached ops store snapshots (key_of_input i) m in
      let dims = (dimensions_of ops i cached).0 in
      ground (
        arith,
        honest (failed_grade i ops.zero_score) s,
        honest (scored_grade ops i (threshold_of i cached) dims) s,
        derive_status-passed (aggregate_score ops dims) (threshold_of i cached),
      )
