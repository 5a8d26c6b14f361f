-- ===== src/Content/Pedagogy.antt =====
-- packages/content-sdk/src/validator/pedagogy.ts: can the stages of a package be taught and graded? Of
-- a stage the columns are kept that the layer reads, an absent list being empty. The tests on texts
-- that are regular expressions or trims are arguments, and so is the outcome of the leak tests. The
-- warning on the length of the first two stages is left out.
pub mod Sound
pub mod Clean
use research_crafters.Prelude.{
  Bool, List, Option, String, [], any, codes_eq, contains, false, get_or, if◌then◌else◌, leb,
  length, nat_eq, none, not, some, string_eq, ℕ, ◌&&◌, ◌++◌, ◌==◌, ◌||◌, ◌∷◌,
}
use research_crafters.Prelude.Dict.{Dict, lookup}
use research_crafters.Content.Issues.{
  Issue, ValidationReport, each, error_unless, info_issue, report_of, warning_unless,
}

-- One step of an answer schema.
pub record AnswerStep : Type 0 where
  pub hint_md : Option String
  pub feedback_md : Option String

pub record Lesson : Type 0 where
  pub id : String
  pub stage_type : String
  pub prompt_md : String
  pub progressive : Option String
  pub validation_kind : String
  pub rubric : Option String
  pub canonical_solution : String
  pub branch_solutions : String
  pub evidence : String
  pub leak_tests : List String
  pub redaction_targets : List String
  pub artifact_refs : List String
  pub evidence_refs : List String
  pub source_refs : List String
  pub stage_subtype : Option String
  pub input_mode : String
  pub steps : List AnswerStep
  pub accepted_forms : List String
  pub numeric_tolerances : List String
  pub shape_variables : List String
  pub step_hints : List String
  pub step_feedback : List String
  pub required_evidence : List String
  pub verified_citations : List String
  pub has_citation_policy : Bool
  pub canonical_md : Option String
  pub misconceptions : List String
  pub has_revision : Bool
  pub module_parts : List String

-- The stages, with the entries of the hint files and the dimensions of the rubrics by their reference.
pub record Course : Type 0 where
  pub lessons : List Lesson
  pub hint_entries : Dict (List String)
  pub rubric_dimensions : Dict (List String)

-- Tests on texts: the length after `trim`, and words that speak of citing.
pub record TextTests : Type 0 where
  pub trimmed_length : String → ℕ
  pub speaks_of_citing : String → Bool

-- What `runStageLeakTests` returns: the attacks that leaked.
pub data LeakOutcome : Type 0 where
  skipped : LeakOutcome
  ran : List String → LeakOutcome

abbrev pub given : Option String → Bool
given none = false
given (some t) = not (t == "")

abbrev pub filled : {A : Type 0} → List A → Bool
filled xs = not (length xs == 0)

unfoldable pub hint_issues : Course → Lesson → List Issue
hint_issues c s = elim s.progressive [
  | none ↦ warning_unless false "stage.hints.absent" s.id
  | some ref ↦
      if ref == ""
      then warning_unless false "stage.hints.absent" s.id
      else elim (lookup c.hint_entries ref) [
        | none ↦ []
        | some entries ↦ error_unless (filled entries) "stage.hints.empty" s.id
      ]
]

abbrev pub uses_llm_grading : Lesson → Bool
uses_llm_grading s = s.validation_kind == "rubric" || s.validation_kind == "hybrid"

abbrev pub mentor_reads_sensitive : Lesson → Bool
mentor_reads_sensitive s =
    not (s.canonical_solution == "never")
    || (not (s.branch_solutions == "never") || not (s.evidence == "never"))

abbrev pub canonical_gated : Lesson → Bool
canonical_gated s = not (s.canonical_solution == "always") && not (s.canonical_solution == "never")

-- `mathInputModes`
abbrev pub math_input_modes : List String
math_input_modes =
    "symbolic_steps" ∷ "numeric_answer" ∷ "shape_table" ∷ "proof_outline" ∷ "counterexample"
    ∷ "mixed_math" ∷ []

abbrev pub has_deterministic_contract : Lesson → Bool
has_deterministic_contract s =
    filled s.accepted_forms
    || (filled s.numeric_tolerances || (filled s.shape_variables || filled s.steps))

abbrev pub has_guidance : Lesson → Bool
has_guidance s =
    (filled s.step_hints || any (λ (a : AnswerStep). given a.hint_md) s.steps)
    && (filled s.step_feedback || any (λ (a : AnswerStep). given a.feedback_md) s.steps)

unfoldable pub math_issues : Lesson → List Issue
math_issues s =
    error_unless (filled s.artifact_refs) "stage.math.artifact_refs.missing" s.id
    ++ (error_unless (filled s.evidence_refs || filled s.source_refs)
          "stage.math.evidence_constraints.missing" s.id
        ++ (warning_unless (given s.stage_subtype) "stage.math.stage_subtype.missing" s.id
            ++ (error_unless (contains math_input_modes s.input_mode || filled s.steps)
                  "stage.math.structured_input.missing" s.id
                ++ (error_unless (given s.rubric || has_deterministic_contract s)
                      "stage.math.grading_contract.missing" s.id
                    ++ warning_unless (not (filled s.steps) || has_guidance s)
                        "stage.math.per_step_guidance.missing" s.id))))

-- Section 3 of the writing contract.
unfoldable pub writing_rubric_issues : Course → Lesson → List Issue
writing_rubric_issues c s =
    if not (uses_llm_grading s) || not (given s.rubric)
    then error_unless false "stage.writing.rubric.missing" s.id
    else elim (lookup c.rubric_dimensions (get_or s.rubric "")) [
      | none ↦ error_unless false "stage.writing.rubric.unresolved" s.id
      | some dimensions ↦ error_unless (filled dimensions) "stage.writing.rubric.no_dimensions" s.id
    ]

abbrev pub has_writing_evidence : Lesson → Bool
has_writing_evidence s =
    filled s.evidence_refs
    || (filled s.source_refs || (filled s.required_evidence || filled s.verified_citations))

abbrev pub has_revision_signal : TextTests → Lesson → Bool
has_revision_signal texts s =
    elim s.canonical_md [ none ↦ false | some t ↦ not (texts.trimmed_length t == 0) ]
    || (filled s.misconceptions
        || (given s.progressive || (s.has_revision || contains s.module_parts "claim_surgery")))

unfoldable pub writing_issues : TextTests → Course → Lesson → List Issue
writing_issues texts c s =
    error_unless (has_writing_evidence s) "stage.writing.evidence_constraints.missing" s.id
    ++ (warning_unless (texts.speaks_of_citing s.prompt_md || s.has_citation_policy)
          "stage.writing.citation_policy.unspecified" s.id
        ++ (writing_rubric_issues c s
            ++ warning_unless (has_revision_signal texts s)
                "stage.writing.revision_behavior.missing" s.id))

-- The checks of one stage.
unfoldable pub lesson_issues : TextTests → Course → Lesson → List Issue
lesson_issues texts c s =
    error_unless (not (s.prompt_md == "") && leb 10 (texts.trimmed_length s.prompt_md))
      "stage.task.too_short" s.id
    ++ (hint_issues c s
        ++ (error_unless (not (s.validation_kind == "")) "stage.validation.kind.missing" s.id
            ++ (error_unless
                  (not (uses_llm_grading s || mentor_reads_sensitive s) || filled s.leak_tests)
                  "stage.mentor_leak_tests.missing" s.id
                ++ (warning_unless (not (canonical_gated s) || filled s.redaction_targets)
                      "stage.redaction_targets.missing" s.id
                    ++ ((if s.stage_type == "math" then math_issues s else [])
                        ++ (if s.stage_type == "writing" then writing_issues texts c s else []))))))

-- The issues of a stage's leak tests.
unfoldable pub outcome_issues : String → LeakOutcome → List Issue
outcome_issues id skipped = info_issue "pedagogy.leak_test_skipped" id
outcome_issues id (ran []) = info_issue "pedagogy.leak_test_passed" id
outcome_issues id (ran (attack ∷ attacks)) =
    each (λ _. error_unless false "pedagogy.leak_test_failed" id) (attack ∷ attacks)

abbrev pub leak_issues : (Lesson → LeakOutcome) → Lesson → List Issue
leak_issues leaks s = outcome_issues s.id (leaks s)

-- `validatePedagogy`
unfoldable pub validate_pedagogy :
    TextTests → Bool → (Lesson → LeakOutcome) → Course → ValidationReport
validate_pedagogy texts skip_leak_tests leaks c = report_of (
    each (lesson_issues texts c) c.lessons
    ++ (if skip_leak_tests then [] else each (leak_issues leaks) c.lessons))
