-- ===== src/Evaluator/Grades.antt =====
-- packages/evaluator-sdk/src/types.ts, idempotency.ts and intermediate.ts: grades, the two stores
-- behind their interfaces, and the in-memory stores. Scores are numbers of any type `N`. A feedback
-- text is kept as the data that it is printed from.
pub mod Memory
use research_crafters.Prelude.{
  Bool, List, Option, String, [], get_or, if◌then◌else◌, nat_eq, none, some, string_eq, ◌++ₛ◌, ◌++◌,
  ◌==◌, ◌∷◌, ◌≡◌,
}
use research_crafters.Evaluator.Claims.{ClaimResult}

pub data GradeStatus : Type 0 where
  passed partial failed pending execution_failed : GradeStatus

pub data ExecutionStatus : Type 0 where
  ok timeout oom crash exit_nonzero : ExecutionStatus

module _ (N : Type 0) where
  pub record DimensionScore : Type 0 where
    pub id : String
    pub label : String
    pub score : N
    pub weight : N

  -- What a reviewer may set; none where the patch leaves a field alone.
  pub record OverrideEntry : Type 0 where
    pub reviewer_id : String
    pub note : String
    pub applied_at : String
    pub new_status : Option GradeStatus
    pub new_score : Option N
    pub new_feedback : Option String

  pub data Feedback : Type 0 where
    refusal_feedback : ExecutionStatus → Feedback
    score_feedback : GradeStatus → List DimensionScore → Option (List ClaimResult) → Feedback
    reviewer_feedback : String → Feedback

  pub record Grade : Type 0 where
    pub id : String
    pub submission_id : String
    pub stage_id : String
    pub rubric_version : String
    pub evaluator_version : String
    pub status : GradeStatus
    pub rubric_score : N
    pub pass_threshold : N
    pub dimensions : List DimensionScore
    pub feedback : Feedback
    pub history : List OverrideEntry
    pub created_at : String

  pub record Snapshot : Type 0 where
    pub key : String
    pub execution_status : ExecutionStatus
    pub preflight_passed : Bool
    pub pass_threshold : N
    pub deterministic_dimensions : Option (List DimensionScore)
    pub saved_at : String

-- `idempotencyKey`
unfoldable pub idempotency_key : String → String → String → String
idempotency_key submission_id rubric_version evaluator_version =
    submission_id ++ₛ "::" ++ₛ rubric_version ++ₛ "::" ++ₛ evaluator_version

module _ {N : Type 0} where
  abbrev pub key_of : Grade N → String
  key_of g = idempotency_key g.submission_id g.rubric_version g.evaluator_version

  -- The patch of an override, and the entry in the history.
  unfoldable pub apply_override : Grade N → OverrideEntry N → Grade N
  apply_override g e = record g {
    history = g.history ++ e ∷ [];
    status = get_or e.new_status g.status;
    rubric_score = get_or e.new_score g.rubric_score;
    feedback = elim e.new_feedback [ none ↦ g.feedback | some text ↦ reviewer_feedback text ];
  }

-- The interfaces `GradeStore` and `IntermediateStore`, over the states of their implementations; an
-- override of an unknown grade throws, which is `none`. The laws are what `gradeAttempt` relies on.
pub record GradeStore (N S : Type 0) : Type 0 where
  pub find_by_key : String → S → Option (Grade N)
  pub insert_grade : Grade N → S → Grade N × S
  pub append_override : String → OverrideEntry N → S → Option (Grade N × S)
  pub find-insert :
      (g : Grade N) (s : S) (k : String)
      → find_by_key k (insert_grade g s).1
        ≡ (if key_of g == k then some (insert_grade g s).0 else find_by_key k s)

pub record IntermediateStore (N I : Type 0) : Type 0 where
  pub find_snapshot : String → I → Option (Snapshot N)
  pub save_snapshot : Snapshot N → I → I
  pub find-save :
      (r : Snapshot N) (i : I) (k : String)
      → find_snapshot k (save_snapshot r i) ≡ (if r.key == k then some r else find_snapshot k i)
