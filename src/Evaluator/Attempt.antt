-- ===== src/Evaluator/Attempt.antt =====
-- packages/evaluator-sdk/src/grade.ts: `gradeAttempt`, over any grade store and an optional store of
-- intermediate results. The arithmetic of scores is an argument: JavaScript's is on doubles. A custom
-- scorer, a fresh id and the clock are values of the input. A refusal is an outcome of its own.
pub mod Idempotency
pub mod Gates
pub mod Resume
use research_crafters.Prelude.{
  Bool, List, Option, String, [], false, filter, get_or, if◌then◌else◌, is_some, length, ltb, map,
  none, not, some, true, ℕ, ◌&&◌, ◌||◌, ◌∷◌,
}
use research_crafters.Evaluator.Claims.{
  ClaimPolicy, ClaimResult, ClaimSpec, EnforcementMode, EnforcementResult, enforce_citation_policy,
  flag, verdict_failed, verdict_passed,
}
use research_crafters.Evaluator.Grades.{
  DimensionScore, ExecutionStatus, Grade, GradeStatus, GradeStore, IntermediateStore, Snapshot,
  execution_failed, failed, idempotency_key, ok, partial, passed, refusal_feedback, score_feedback,
}

pub data RunnerMode : Type 0 where
  test_mode replay_mode mini_experiment_mode none_mode : RunnerMode

-- The operations on scores; `ratio` divides two counts.
pub record ScoreOps (N : Type 0) : Type 0 where
  pub zero_score : N
  pub add : N → N → N
  pub mul : N → N → N
  pub div : N → N → N
  pub ratio : ℕ → ℕ → N
  pub is_zero : N → Bool
  pub at_least : N → N → Bool
  pub is_positive : N → Bool

pub record TestResult : Type 0 where
  pub name : String
  pub passed_test : Bool

pub record CitationInput : Type 0 where
  pub policy : ClaimPolicy
  pub claims : List ClaimSpec
  pub mode : Option EnforcementMode

module _ (N : Type 0) where
  pub record RubricDimension : Type 0 where
    pub id : String
    pub label : String
    pub weight : N

  pub record AttemptInput : Type 0 where
    pub stage_id : String
    pub runner_mode : RunnerMode
    pub stage_pass_threshold : Option N
    pub rubric_dimensions : List RubricDimension
    pub rubric_pass_threshold : N
    pub hidden_correct : Bool
    pub rubric_version : String
    pub submission_id : String
    pub evidence_refs : Option (List String)
    pub run_status : ExecutionStatus
    pub test_results : Option (List TestResult)
    pub evaluator_version : Option String
    pub custom_dimensions : Option (List (DimensionScore N))
    pub citation_policy : Option CitationInput
    pub new_id : String
    pub now : String

pub data RefusalReason : Type 0 where
  evidence_missing citation_policy_violation : RefusalReason

module _ (N : Type 0) where
  pub data Outcome : Type 0 where
    graded : Grade N → Outcome
    refused : RefusalReason → Outcome

abbrev pub is_ok : ExecutionStatus → Bool
is_ok ok = true
is_ok _ = false

-- `isExecutableStage`
abbrev pub is_executable : RunnerMode → Bool
is_executable none_mode = false
is_executable _ = true

abbrev pub is_nil {ℓ} : {A : Type ℓ} → List A → Bool
is_nil [] = true
is_nil (x ∷ xs) = false

module _ {N : Type 0} (ops : ScoreOps N) where
  -- `dims.reduce((acc, d) => acc + f(d), 0)`
  unfoldable pub sum_from : (DimensionScore N → N) → N → List (DimensionScore N) → N
  sum_from f acc [] = acc
  sum_from f acc (d ∷ dims) = sum_from f (ops.add acc (f d)) dims

  -- `aggregateScore`
  unfoldable pub aggregate_score : List (DimensionScore N) → N
  aggregate_score dims =
      let total = sum_from (λ d. d.weight) ops.zero_score dims in
      if ops.is_zero total
      then ops.zero_score
      else ops.div (sum_from (λ d. ops.mul d.score d.weight) ops.zero_score dims) total

  -- `deriveStatus`
  unfoldable pub derive_status : N → N → GradeStatus
  derive_status score threshold =
      if ops.at_least score threshold
      then passed
      else if ops.is_positive score
      then partial
      else failed

  abbrev pub pass_ratio : List TestResult → N
  pass_ratio tests =
      if is_nil tests
      then ops.zero_score
      else ops.ratio (length (filter (λ t. t.passed_test) tests)) (length tests)

  -- `defaultDimensionScorer`
  unfoldable pub default_dimensions : AttemptInput N → List (DimensionScore N)
  default_dimensions i =
      let score = pass_ratio (get_or i.test_results []) in
      map
        (λ (d : RubricDimension N). record {
          id = d.id;
          label = d.label;
          score = score;
          weight = d.weight;
        })
        i.rubric_dimensions

abbrev pub is_violation : Option EnforcementResult → Bool
is_violation none = false
is_violation (some r) = elim r.verdict [ verdict_failed ↦ true | verdict_passed ↦ false ]

-- The citation part of the feedback: none where no claim was checked.
abbrev pub citation_summary : Option EnforcementResult → Option (List ClaimResult)
citation_summary none = none
citation_summary (some r) = if ltb 0 r.batch.total then some r.summary else none

pub data Preflight : Type 0 where
  clear execution_not_ok no_evidence : Preflight

module _ {N : Type 0} where
  abbrev pub evaluator_version_of : AttemptInput N → String
  evaluator_version_of i = get_or i.evaluator_version "0.1.0"

  abbrev pub key_of_input : AttemptInput N → String
  key_of_input i = idempotency_key i.submission_id i.rubric_version (evaluator_version_of i)

  abbrev pub preflight_done : Option (Snapshot N) → Bool
  preflight_done none = false
  preflight_done (some r) = r.preflight_passed

  -- The checks that a snapshot of a passed preflight skips.
  unfoldable pub preflight : AttemptInput N → Option (Snapshot N) → Preflight
  preflight i cached =
      if preflight_done cached
      then clear
      else if is_executable i.runner_mode && not (is_ok i.run_status)
      then execution_not_ok
      else if i.hidden_correct && is_nil (get_or i.evidence_refs [])
      then no_evidence
      else clear

  -- The citation check, whose mode defaults to `flag` here.
  abbrev pub citation_of : AttemptInput N → Option EnforcementResult
  citation_of i = elim i.citation_policy [
    | none ↦ none
    | some c ↦ some (enforce_citation_policy c.claims c.policy (some (get_or c.mode flag)))
  ]

  abbrev pub cached_threshold : Option (Snapshot N) → Option N
  cached_threshold none = none
  cached_threshold (some r) = some r.pass_threshold

  abbrev pub cached_dimensions : Option (Snapshot N) → Option (List (DimensionScore N))
  cached_dimensions none = none
  cached_dimensions (some r) = r.deterministic_dimensions

  abbrev pub stage_threshold : AttemptInput N → N
  stage_threshold i = get_or i.stage_pass_threshold i.rubric_pass_threshold

  -- `cached?.passThreshold ?? stage ?? rubric`
  abbrev pub threshold_of : AttemptInput N → Option (Snapshot N) → N
  threshold_of i cached = get_or (cached_threshold cached) (stage_threshold i)

  -- The grade of a run that did not end well.
  abbrev pub failed_grade : AttemptInput N → N → Grade N
  failed_grade i worst = record {
    id = i.new_id;
    submission_id = i.submission_id;
    stage_id = i.stage_id;
    rubric_version = i.rubric_version;
    evaluator_version = evaluator_version_of i;
    status = execution_failed;
    rubric_score = worst;
    pass_threshold = stage_threshold i;
    dimensions = [];
    feedback = refusal_feedback i.run_status;
    history = [];
    created_at = i.now;
  }

module _ {N : Type 0} (ops : ScoreOps N) where
  -- The dimensions, and whether they are deterministic.
  unfoldable pub dimensions_of :
      AttemptInput N → Option (Snapshot N) → List (DimensionScore N) × Bool
  dimensions_of i cached = elim i.custom_dimensions [
    | some dims ↦ (dims, false)
    | none ↦ elim (cached_dimensions cached) [
      | some dims ↦ (dims, true)
      | none ↦ (default_dimensions ops i, true)
    ]
  ]

  -- The grade behind the scoring.
  unfoldable pub scored_grade : AttemptInput N → N → List (DimensionScore N) → Grade N
  scored_grade i threshold dims =
      let score = aggregate_score ops dims in
      let status = derive_status ops score threshold in
      record {
        id = i.new_id;
        submission_id = i.submission_id;
        stage_id = i.stage_id;
        rubric_version = i.rubric_version;
        evaluator_version = evaluator_version_of i;
        status = status;
        rubric_score = score;
        pass_threshold = threshold;
        dimensions = dims;
        feedback = score_feedback status dims (citation_summary (citation_of i));
        history = [];
        created_at = i.now;
      }

  -- The snapshot that the checkpoint writes, if it writes one.
  unfoldable pub checkpoint : AttemptInput N → Option (Snapshot N) → Option (Snapshot N)
  checkpoint i cached =
      let (dims, deterministic) = dimensions_of i cached in
      let wants_dims = deterministic && not (is_some (cached_dimensions cached)) in
      if not (preflight_done cached) || wants_dims
      then some (record {
        key = key_of_input i;
        execution_status = i.run_status;
        preflight_passed = true;
        pass_threshold = threshold_of i cached;
        deterministic_dimensions = if deterministic then some dims else cached_dimensions cached;
        saved_at = i.now;
      })
      else none

  module _ {S I : Type 0} (store : GradeStore N S)
      (snapshots : Option (IntermediateStore N I)) where
    -- The snapshot of a key, where there is a store of them.
    unfoldable pub find_cached : String → I → Option (Snapshot N)
    find_cached key m = elim snapshots [ none ↦ none | some x ↦ x.find_snapshot key m ]

    unfoldable pub save_checkpoint : Option (Snapshot N) → I → I
    save_checkpoint none m = m
    save_checkpoint (some r) m = elim snapshots [ none ↦ m | some x ↦ x.save_snapshot r m ]

    -- `gradeAttempt` behind its preflight.
    unfoldable pub score_attempt : AttemptInput N → Option (Snapshot N) → S → I → Outcome N × S × I
    score_attempt i cached s m =
        if is_violation (citation_of i)
        then (refused citation_policy_violation, s, m)
        else let m' = save_checkpoint (checkpoint i cached) m in
          let (g, s') =
            store.insert_grade (scored_grade i (threshold_of i cached) (dimensions_of i cached).0)
              s in
          (graded g, s', m')

    -- `gradeAttempt` behind its idempotency check.
    unfoldable pub fresh_attempt : AttemptInput N → Option (Snapshot N) → S → I → Outcome N × S × I
    fresh_attempt i cached s m = elim (preflight i cached) [
      | execution_not_ok ↦
          let (g, s') = store.insert_grade (failed_grade i ops.zero_score) s in (graded g, s', m)
      | no_evidence ↦ (refused evidence_missing, s, m)
      | clear ↦ score_attempt i cached s m
    ]

    -- `gradeAttempt`
    unfoldable pub grade_attempt : AttemptInput N → S → I → Outcome N × S × I
    grade_attempt i s m = elim (store.find_by_key (key_of_input i) s) [
      | some existing ↦ (graded existing, s, m)
      | none ↦ fresh_attempt i (find_cached (key_of_input i) m) s m
    ]
