-- ===== src/Evaluator/Attempt/Resume.antt =====
-- About attempts that resume from a checkpoint.
use research_crafters.Prelude.{List, Option, String, arith, none, some, true, ◌≡◌}
use research_crafters.Evaluator.Grades.{ExecutionStatus, Snapshot}
use research_crafters.Evaluator.Attempt.{
  AttemptInput, ScoreOps, TestResult, checkpoint, default_dimensions, dimensions_of,
}

module _ {N : Type 0} where
  -- The same attempt run again later: a fresh id and time, and the status and the test results of a new
  -- run.
  abbrev pub retry :
      AttemptInput N → String → String → ExecutionStatus → Option (List TestResult) → AttemptInput N
  retry i id now run tests = record i {
    new_id = id;
    now = now;
    run_status = run;
    test_results = tests;
  }

module _ {N : Type 0} (ops : ScoreOps N) where
  checkpoint-resumed :
      (i : AttemptInput N) (r : Snapshot N)
      → i.custom_dimensions ≡ none
      → r.preflight_passed ≡ true
      → r.deterministic_dimensions ≡ some (default_dimensions ops i)
      → checkpoint ops i (some r) ≡ none
  unfolding checkpoint dimensions_of
  checkpoint-resumed i r h p d = ground arith
