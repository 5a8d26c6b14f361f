-- ===== src/Evaluator/Tests.antt =====
-- Examples of grading: claims and attempts. Scores are percentages here.
use research_crafters.Prelude.{
  [], false, get_or, leb, ltb, nat_eq, none, not, refl, some, string_eq, true, ℕ, ◌&&◌, ◌*◌, ◌+◌,
  ◌/◌, ◌==◌, ◌↔◌, ◌∷◌, ◌≡◌,
}
use research_crafters.Prelude.Dict.{Dict, insert, lookup}
use research_crafters.Evaluator.Claims.{
  ClaimPolicy, ClaimSpec, bucket, check_writing_claim, check_writing_claim_batch,
  enforce_citation_policy, strict, uniq,
}
use research_crafters.Evaluator.Claims.Verdicts.{IsBacked, check_writing_claim_iff}
use research_crafters.Evaluator.Grades.{
  Grade, Snapshot, idempotency_key, ok, passed, score_feedback, timeout,
}
use research_crafters.Evaluator.Grades.Memory.{
  GradeMaps, empty_maps, memory_intermediate, memory_store,
}
use research_crafters.Evaluator.Attempt.{
  AttemptInput, Outcome, ScoreOps, aggregate_score, citation_of, default_dimensions, derive_status,
  dimensions_of, evidence_missing, find_cached, fresh_attempt, grade_attempt, graded, is_executable,
  is_nil, is_ok, is_violation, key_of_input, preflight, preflight_done, refused, score_attempt,
  scored_grade, sum_from, test_mode, threshold_of,
}
use research_crafters.Evaluator.Attempt.Gates.{grade_attempt-passed}
use research_crafters.Evaluator.Attempt.Idempotency.{grade_attempt_again}

abbrev percent : ScoreOps ℕ
percent = record {
  zero_score = 0;
  add = λ a b. a + b;
  mul = λ a b. a * b;
  div = λ a b. a / b;
  ratio = λ a b. (100 * a) / b;
  is_zero = λ a. a == 0;
  at_least = λ a b. leb b a;
  is_positive = λ a. ltb 0 a;
}

abbrev claim_policy : ClaimPolicy
claim_policy = record {
  allowed_evidence_refs = "ev1" ∷ [];
  placeholder_tokens = none;
  placeholder_allowed = none;
}

abbrev claim : ClaimSpec
claim = record {
  id = "c1";
  text = "It converges.";
  cited_refs = some ("ev1" ∷ "ev1" ∷ []);
  requires_citation = none;
}

check_writing_claim_iff_example :
    ((check_writing_claim claim claim_policy).passed ≡ true) ↔ IsBacked claim_policy claim
check_writing_claim_iff_example = check_writing_claim_iff claim claim_policy

abbrev attempt_input : AttemptInput ℕ
attempt_input = record {
  stage_id = "s1";
  runner_mode = test_mode;
  stage_pass_threshold = none;
  rubric_dimensions = record { id = "d1"; label = "Correctness"; weight = 2 } ∷ [];
  rubric_pass_threshold = 50;
  hidden_correct = true;
  rubric_version = "1";
  submission_id = "sub1";
  evidence_refs = some ("ev1" ∷ []);
  run_status = ok;
  test_results = some (
      record { name = "t1"; passed_test = true }
      ∷ record { name = "t2"; passed_test = true }
      ∷ record { name = "t3"; passed_test = false }
      ∷ []);
  evaluator_version = none;
  custom_dimensions = none;
  citation_policy =
      some (record { policy = claim_policy; claims = claim ∷ []; mode = some strict });
  new_id = "g1";
  now = "noon";
}

abbrev first_grade : Grade ℕ
first_grade = record {
  id = "g1";
  submission_id = "sub1";
  stage_id = "s1";
  rubric_version = "1";
  evaluator_version = "0.1.0";
  status = passed;
  rubric_score = 66;
  pass_threshold = 50;
  dimensions = record { id = "d1"; label = "Correctness"; score = 66; weight = 2 } ∷ [];
  feedback =
      score_feedback passed
        (record { id = "d1"; label = "Correctness"; score = 66; weight = 2 } ∷ []) (some []);
  history = [];
  created_at = "noon";
}

abbrev no_snapshots : Dict (Snapshot ℕ)
no_snapshots = []

abbrev attempt_of : AttemptInput ℕ → Outcome ℕ × GradeMaps ℕ × Dict (Snapshot ℕ)
attempt_of i =
    grade_attempt percent memory_store (some memory_intermediate) i empty_maps no_snapshots

attempt_input-graded : (attempt_of attempt_input).0 ≡ graded first_grade
unfolding grade_attempt find_cached fresh_attempt score_attempt preflight dimensions_of
    default_dimensions scored_grade aggregate_score derive_status sum_from lookup insert
    idempotency_key enforce_citation_policy check_writing_claim check_writing_claim_batch bucket
    uniq
attempt_input-graded = refl

graded_uncached :
    (grade_attempt percent memory_store none attempt_input empty_maps no_snapshots).0
    ≡ graded first_grade
unfolding grade_attempt find_cached fresh_attempt score_attempt preflight dimensions_of
    default_dimensions scored_grade aggregate_score derive_status sum_from lookup insert
    idempotency_key enforce_citation_policy check_writing_claim check_writing_claim_batch bucket
    uniq
graded_uncached = refl

no_cache :
    preflight_done (find_cached percent memory_store none (key_of_input attempt_input) no_snapshots)
    ≡ false
unfolding find_cached
no_cache = refl

abbrev unsupported : AttemptInput ℕ
unsupported = record attempt_input { evidence_refs = none }

unsupported-refused : (attempt_of unsupported).0 ≡ refused evidence_missing
unfolding grade_attempt find_cached fresh_attempt preflight lookup
unsupported-refused = refl

new_key : lookup (empty_maps {N = ℕ}).by_key (key_of_input attempt_input) ≡ none
unfolding lookup
new_key = refl

abbrev late_input : AttemptInput ℕ
late_input = record attempt_input { run_status = timeout; new_id = "g2" }

grade_attempt_again_example :
    grade_attempt percent memory_store
      (some memory_intermediate)
      late_input
      (attempt_of attempt_input).1
      no_snapshots
    ≡ (graded first_grade, (attempt_of attempt_input).1, no_snapshots)
grade_attempt_again_example =
    grade_attempt_again percent memory_store (some memory_intermediate) attempt_input late_input
      empty_maps no_snapshots no_snapshots first_grade refl attempt_input-graded

grade_attempt-passed_example :
    (is_executable test_mode && not (is_ok ok) ≡ false)
    × (attempt_input.hidden_correct && is_nil (get_or attempt_input.evidence_refs []) ≡ false)
    × (is_violation (citation_of attempt_input) ≡ false)
    × (percent.at_least
          (aggregate_score percent (dimensions_of percent attempt_input none).0)
          (threshold_of attempt_input none)
        ≡ true)
unfolding find_cached
grade_attempt-passed_example =
    grade_attempt-passed percent memory_store none attempt_input empty_maps no_snapshots first_grade
      (λ g s h. h) new_key no_cache graded_uncached refl
