-- ===== src/Content/Tests.antt =====
-- packages/content-sdk/src/validator/ara-cross-link.ts: a small package, and one whose exploration
-- tree has an edge to a node that is not there; the other layers on a writing stage.
use research_crafters.Prelude.{
  String, [], codes_eq, false, if◌then◌else◌, nat_eq, none, refl, some, string_eq, true, ◌++ₛ◌,
  ◌==◌, ◌∷◌, ◌≡◌,
}
use research_crafters.Content.CrossLink.{
  BranchRecord, GraphNode, LoadedPackage, StageRecord, branch_found, refers, stage_found, trace,
  validate_ara_cross_link,
}
use research_crafters.Content.CrossLink.Yaml.{
  Yaml, cons, end_fields, field, field_of, flatten, full_text, items, nil, obj, seq, text,
}
use research_crafters.Content.CrossLink.Trace.{
  claimed_branch, claims, edges_of, ids_of_nodes, is_branch_node,
}
use research_crafters.Content.CrossLink.TraceClosed.{trace_closed}
use research_crafters.Content.CrossLink.Closed.{validate_ara_cross_link-ok}
use research_crafters.Content.Pedagogy.{Course, Lesson, ran, validate_pedagogy}
use research_crafters.Content.Pedagogy.Clean.{validate_pedagogy-ok}
use research_crafters.Content.Validation.{Layers, Loaded, validate_package, validate_package-ok}
use research_crafters.Prelude.Dict.{lookup}
use research_crafters.Content.Issues.{empty_report}

abbrev join : String → String → String
join a b = a ++ₛ "/" ++ₛ b

abbrev stage_one : StageRecord
stage_one = record {
  ref = "curriculum/stages/001.yaml";
  id = "S001";
  artifact_refs = "artifact/logic/problem.md#goal" ∷ [];
  rubric = some "curriculum/rubrics/001.yaml";
  progressive = none;
}

abbrev branch_one : BranchRecord
branch_one = record {
  ref = "curriculum/branches/skip.yaml";
  id = "skip";
  support_level = "explicit";
  source_refs = "artifact/PAPER.md" ∷ [];
  evidence_refs = "artifact/logic/problem.md" ∷ [];
  next_nodes = "N002" ∷ [];
}

abbrev node_one : GraphNode
node_one = record {
  id = "N001";
  stage = "stages/001.yaml";
  choice_branches = "branches/skip.yaml" ∷ [];
  unlocks = "N001" ∷ [];
  unlocks_by_choice = ("a", "N001" ∷ []) ∷ [];
}

-- Two nodes, and an edge from the first to the given one.
abbrev tree : String → Yaml
tree to = obj (
    field "nodes"
      (seq (
        cons (obj (field "id" (text "T1") (field "kind" (text "question") end_fields))) (
          cons
            (obj (
              field "id" (text "T2") (
                field "kind" (text "branch") (
                  field "branch_id" (text "skip")
                    (field "parents" (seq (cons (text "T1") nil)) end_fields)))))
            nil)))
      (field "edges"
        (seq (cons (obj (field "from" (text "T1") (field "to" (text to) end_fields))) nil))
        end_fields))

abbrev sample : String → LoadedPackage
sample to = record {
  stages = stage_one ∷ [];
  branches = branch_one ∷ [];
  nodes = node_one ∷ [];
  rubric_refs = "curriculum/rubrics/001.yaml" ∷ [];
  hint_refs = [];
  artifact = record {
    paper_md = some "artifact/PAPER.md";
    logic_files = "artifact/logic/problem.md" ∷ [];
    src_files = [];
    trace_tree_path = some "artifact/trace/exploration_tree.yaml";
    evidence_paths = [];
  };
  trace = trace (tree to);
}

validate_ara_cross_link-ok_example : (validate_ara_cross_link join (sample "T2")).ok ≡ true
unfolding stage_found branch_found refers flatten field_of full_text ids_of_nodes items
    is_branch_node claims claimed_branch edges_of trace_closed
validate_ara_cross_link-ok_example = validate_ara_cross_link-ok join (sample "T2")

sample-dangling : (validate_ara_cross_link join (sample "T3")).ok ≡ false
unfolding stage_found branch_found refers flatten field_of full_text ids_of_nodes items
    is_branch_node claims claimed_branch edges_of trace_closed
sample-dangling = validate_ara_cross_link-ok join (sample "T3")

-- A writing stage with a rubric; trimming is left out.
abbrev lesson_one : Lesson
lesson_one = record {
  id = "S001";
  stage_type = "writing";
  prompt_md = "Defend the claim and cite evidence.";
  progressive = some "hints/001.yaml";
  validation_kind = "rubric";
  rubric = some "rubrics/001.yaml";
  canonical_solution = "never";
  branch_solutions = "never";
  evidence = "never";
  leak_tests = "reveal" ∷ [];
  redaction_targets = [];
  artifact_refs = [];
  evidence_refs = "artifact/logic/problem.md" ∷ [];
  source_refs = [];
  stage_subtype = none;
  input_mode = "free_text";
  steps = [];
  accepted_forms = [];
  numeric_tolerances = [];
  shape_variables = [];
  step_hints = [];
  step_feedback = [];
  required_evidence = [];
  verified_citations = [];
  has_citation_policy = true;
  canonical_md = none;
  misconceptions = [];
  has_revision = false;
  module_parts = [];
}

abbrev course_one : Course
course_one = record {
  lessons = lesson_one ∷ [];
  hint_entries = ("hints/001.yaml", "look again" ∷ []) ∷ [];
  rubric_dimensions = ("rubrics/001.yaml", "clarity" ∷ []) ∷ [];
}

abbrev layers : Layers
layers = record {
  join = join;
  texts = record { trimmed_length = λ t. if t == "" then 0 else 30; speaks_of_citing = λ t. true };
  skip_leak_tests = false;
  leaks = λ s. ran [];
  sandbox = λ p. empty_report;
}

abbrev loaded : String → Loaded
loaded to = record { linked = sample to; course = course_one }

validate_pedagogy-course_one :
    (validate_pedagogy layers.texts false layers.leaks course_one).ok ≡ true
unfolding lookup
validate_pedagogy-course_one = validate_pedagogy-ok layers.texts false layers.leaks course_one

validate_package-ok_example : (validate_package layers empty_report (some (loaded "T2"))).ok ≡ true
unfolding stage_found branch_found refers flatten field_of full_text ids_of_nodes items
    is_branch_node claims claimed_branch edges_of trace_closed lookup
validate_package-ok_example =
    validate_package-ok layers empty_report (some (loaded "T2")) refl (λ p. refl)
