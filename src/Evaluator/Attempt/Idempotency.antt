-- ===== src/Evaluator/Attempt/Idempotency.antt =====
-- Attempts that share an idempotency key, for any grade store.
use research_crafters.Prelude.{==_self, Option, ap, arith, nat_eq, refl, some, string_eq, ◌∙◌, ◌≡◌}
use research_crafters.Evaluator.Grades.{Grade, GradeStore, IntermediateStore, Snapshot, key_of}
use research_crafters.Evaluator.Attempt.{
  AttemptInput, ScoreOps, dimensions_of, failed_grade, find_cached, fresh_attempt, grade_attempt,
  graded, key_of_input, score_attempt, scored_grade, threshold_of,
}

module _ {N S I : Type 0} (ops : ScoreOps N) (store : GradeStore N S)
    (snapshots : Option (IntermediateStore N I)) where
  find-inserted :
      (g : Grade N) (s : S)
      → store.find_by_key (key_of g) (store.insert_grade g s).1 ≡ some (store.insert_grade g s).0
  find-inserted g s = rw (store.find-insert g s (key_of g), ==_self (key_of g)) refl

  score_attempt-stores :
      (i : AttemptInput N) (cached : Option (Snapshot N)) (s : S) (m : I) (g : Grade N)
      → (score_attempt ops store snapshots i cached s m).0 ≡ graded g
      → store.find_by_key (key_of_input i) (score_attempt ops store snapshots i cached s m).1
        ≡ some g
  unfolding score_attempt scored_grade
  score_attempt-stores i cached s m g h = ground (
    arith,
    find-inserted (scored_grade ops i (threshold_of i cached) (dimensions_of ops i cached).0) s,
  )

  fresh_attempt-stores :
      (i : AttemptInput N) (cached : Option (Snapshot N)) (s : S) (m : I) (g : Grade N)
      → (fresh_attempt ops store snapshots i cached s m).0 ≡ graded g
      → store.find_by_key (key_of_input i) (fresh_attempt ops store snapshots i cached s m).1
        ≡ some g
  unfolding fresh_attempt
  fresh_attempt-stores i cached s m g h =
      ground (
        arith,
        find-inserted (failed_grade i ops.zero_score) s,
        score_attempt-stores i cached s m g,
      )

  grade_attempt-stores :
      (i : AttemptInput N) (s : S) (m : I) (g : Grade N)
      → (grade_attempt ops store snapshots i s m).0 ≡ graded g
      → store.find_by_key (key_of_input i) (grade_attempt ops store snapshots i s m).1 ≡ some g
  unfolding grade_attempt
  grade_attempt-stores i s m g h =
      ground
        (arith, fresh_attempt-stores i (find_cached ops store snapshots (key_of_input i) m) s m g)

  grade_attempt-found :
      (j : AttemptInput N) (s : S) (m : I) (g : Grade N)
      → store.find_by_key (key_of_input j) s ≡ some g
      → grade_attempt ops store snapshots j s m ≡ (graded g, s, m)
  unfolding grade_attempt
  grade_attempt-found j s m g h = ground arith

  -- An attempt that was graded is graded once: a later attempt with the same idempotency key,
  -- whatever else its input says and whatever snapshots there are by then, returns the grade of the
  -- first and leaves both stores as they are.
  pub grade_attempt_again :
      (i j : AttemptInput N) (s : S) (m m' : I) (g : Grade N)
      → key_of_input j ≡ key_of_input i
      → (grade_attempt ops store snapshots i s m).0 ≡ graded g
      → let s' = (grade_attempt ops store snapshots i s m).1 in
        grade_attempt ops store snapshots j s' m' ≡ (graded g, s', m')
  grade_attempt_again i j s m m' g same h =
      let s' = (grade_attempt ops store snapshots i s m).1 in
      grade_attempt-found j s' m' g
        (ap (λ k. store.find_by_key k s') same ∙ grade_attempt-stores i s m g h)
