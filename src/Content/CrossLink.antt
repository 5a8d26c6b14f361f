-- ===== src/Content/CrossLink.antt =====
-- packages/content-sdk/src/validator/ara-cross-link.ts: do the parts of a package refer to what is
-- there? Of each record the columns are kept that the layer reads; the text of the exploration tree is
-- what a YAML parser makes of it. `path.posix.join` is an argument.
pub mod Yaml
mod Package
pub mod Trace
pub mod TraceClosed
pub mod TraceClean
pub mod Closed
unfoldable pub use Package.*
use research_crafters.Prelude.{
  Bool, List, Option, String, [], codes_eq, contains, false, if◌then◌else◌, length, nat_eq, none,
  not, some, string_eq, true, ◌++ₛ◌, ◌++◌, ◌==◌, ◌||◌,
}
use research_crafters.Content.Issues.{
  Issue, ValidationReport, each, error_unless, report_of, warning_unless,
}
use research_crafters.Content.CrossLink.Trace.{trace_issues}

-- 1. Artifact references of stages.
unfoldable pub artifact_ref_issues : LoadedPackage → String → List Issue
artifact_ref_issues pkg ref =
    let path = strip_fragment ref in
    if not (is_artifact path)
    then warning_unless false "stage.artifact_ref.non_artifact" ref
    else error_unless (contains (known_paths pkg) path) "stage.artifact_ref.missing" ref

abbrev pub stage_issues : LoadedPackage → StageRecord → List Issue
stage_issues pkg stage = each (artifact_ref_issues pkg) stage.artifact_refs

-- 2. Stages, branches and unlocks of graph nodes.
unfoldable pub stage_found : (String → String → String) → LoadedPackage → String → Bool
stage_found join pkg path =
    contains (stage_refs pkg) path
    || (contains (stage_refs pkg) ("curriculum/" ++ₛ path)
        || contains (stage_refs pkg)
            (if starts_with path "curriculum/" then path else join "curriculum" path))

unfoldable pub branch_found : (String → String → String) → LoadedPackage → String → Bool
branch_found join pkg ref =
    contains (branch_refs pkg)
      (if starts_with ref "curriculum/" then ref else join "curriculum" ref)
    || contains (branch_refs pkg) ref

abbrev pub unlock_issues : LoadedPackage → String → String → String → List Issue
unlock_issues pkg code id target = error_unless (contains (node_ids pkg) target) code id

abbrev pub choice_unlock_issues : LoadedPackage → String → String × List String → List Issue
choice_unlock_issues pkg id (choice, targets) =
    each (unlock_issues pkg "graph.unlock_by_choice.missing" id) targets

unfoldable pub node_issues : (String → String → String) → LoadedPackage → GraphNode → List Issue
node_issues join pkg node =
    error_unless (stage_found join pkg node.stage) "graph.stage.missing" node.id
    ++ (each (λ branch. error_unless (branch_found join pkg branch) "graph.branch.missing" node.id)
          node.choice_branches
        ++ (each (unlock_issues pkg "graph.unlock.missing" node.id) node.unlocks
            ++ each (choice_unlock_issues pkg node.id) node.unlocks_by_choice))

-- 3. Sources, evidence and next nodes of branches.
abbrev pub evidence_resolves : LoadedPackage → String → Bool
evidence_resolves pkg ref =
    not (is_artifact (strip_fragment ref)) || contains (known_paths pkg) (strip_fragment ref)

unfoldable pub evidence_issues : LoadedPackage → BranchRecord → List Issue
evidence_issues pkg branch =
    if branch.support_level == "expert_reconstructed"
    then []
    else if length branch.evidence_refs == 0
    then error_unless false "branch.evidence.missing" branch.id
    else each
        (λ ref. error_unless (evidence_resolves pkg ref) "branch.evidence.unresolved" branch.id)
        branch.evidence_refs

unfoldable pub branch_issues : LoadedPackage → BranchRecord → List Issue
branch_issues pkg branch =
    error_unless (not (branch.support_level == "explicit") || not (length branch.source_refs == 0))
      "branch.source_refs.missing" branch.id
    ++ (evidence_issues pkg branch
        ++ each
            (λ target.
              warning_unless (contains (node_ids pkg) target) "branch.next_node.missing" branch.id)
            branch.next_nodes)

-- 5. Rubrics and hints of stages; an empty reference counts as none.
unfoldable pub refers : List String → Option String → Bool
refers refs none = true
refers refs (some ref) = ref == "" || contains refs ref

unfoldable pub policy_issues : LoadedPackage → StageRecord → List Issue
policy_issues pkg stage =
    error_unless (refers pkg.rubric_refs stage.rubric) "stage.rubric.missing" stage.id
    ++ warning_unless (refers pkg.hint_refs stage.progressive) "stage.hints.missing" stage.id

-- `validateAraCrossLink`
unfoldable pub validate_ara_cross_link :
    (String → String → String) → LoadedPackage → ValidationReport
validate_ara_cross_link join pkg = report_of (
    each (stage_issues pkg) pkg.stages
    ++ (each (node_issues join pkg) pkg.nodes
        ++ (each (branch_issues pkg) pkg.branches
            ++ (trace_issues (known_paths pkg) (branch_ids pkg) (trace_file pkg)
                ++ each (policy_issues pkg) pkg.stages))))
