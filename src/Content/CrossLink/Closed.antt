-- ===== src/Content/CrossLink/Closed.antt =====
-- When the cross-link layer finds no error.
use research_crafters.Prelude.{
  Bool, List, String, [], all, arith, codes_eq, contains, false, if◌then◌else◌, length, nat_eq, not,
  string_eq, true, ◌&&◌, ◌==◌, ◌||◌, ◌∙◌, ◌≡◌,
}
use research_crafters.Content.Issues.{
  Issue, clean, clean-append_as, clean-append_harmless, clean-each_as, clean-error, clean-none,
  clean-warning, each, error_unless, report_of-ok_as, warning_unless,
}
use research_crafters.Content.CrossLink.{
  BranchRecord, GraphNode, LoadedPackage, StageRecord, artifact_ref_issues, branch_found,
  branch_ids, branch_issues, choice_unlock_issues, evidence_issues, evidence_resolves, known_paths,
  node_ids, node_issues, policy_issues, refers, stage_found, stage_issues, trace_file,
  unlock_issues, validate_ara_cross_link,
}
use research_crafters.Content.CrossLink.TraceClosed.{trace_closed}
use research_crafters.Content.CrossLink.TraceClean.{all_hold, trace_issues-clean}

-- Artifacts are there.
abbrev pub stage_closed : LoadedPackage → StageRecord → Bool
stage_closed pkg stage = all (evidence_resolves pkg) stage.artifact_refs

-- The stage, the branches and the unlocked nodes are there.
abbrev pub graph_node_closed : (String → String → String) → LoadedPackage → GraphNode → Bool
graph_node_closed join pkg node =
    stage_found join pkg node.stage
    && (all (branch_found join pkg) node.choice_branches
        && (all (contains (node_ids pkg)) node.unlocks
            && all (λ (r : String × List String). all (contains (node_ids pkg)) r.1)
                node.unlocks_by_choice))

-- An explicit branch has sources; one that is not reconstructed has evidence, and it is there.
abbrev pub branch_closed : LoadedPackage → BranchRecord → Bool
branch_closed pkg branch =
    (not (branch.support_level == "explicit") || not (length branch.source_refs == 0))
    && (branch.support_level == "expert_reconstructed"
        || (not (length branch.evidence_refs == 0)
            && all (evidence_resolves pkg) branch.evidence_refs))

-- All that the layer counts as an error is absent.
abbrev pub package_closed : (String → String → String) → LoadedPackage → Bool
package_closed join pkg =
    all (stage_closed pkg) pkg.stages
    && (all (graph_node_closed join pkg) pkg.nodes
        && (all (branch_closed pkg) pkg.branches
            && (trace_closed (branch_ids pkg) (trace_file pkg)
                && all (λ (s : StageRecord). refers pkg.rubric_refs s.rubric) pkg.stages)))

artifact_ref_issues-clean :
    (pkg : LoadedPackage) (ref : String)
    → clean (artifact_ref_issues pkg ref) ≡ evidence_resolves pkg ref
unfolding clean artifact_ref_issues
artifact_ref_issues-clean pkg ref = ground arith

unlocks_issues-clean :
    (pkg : LoadedPackage) (code id : String) (targets : List String)
    → clean (each (unlock_issues pkg code id) targets) ≡ all (contains (node_ids pkg)) targets
unlocks_issues-clean pkg code id targets =
    clean-each_as (unlock_issues pkg code id) (contains (node_ids pkg)) targets
      (λ t. clean-error (contains (node_ids pkg) t) code id)

node_issues-clean :
    (join : String → String → String) (pkg : LoadedPackage) (node : GraphNode)
    → clean (node_issues join pkg node) ≡ graph_node_closed join pkg node
unfolding node_issues
node_issues-clean join pkg node =
    let branch_issue : String → List Issue =
      λ branch. error_unless (branch_found join pkg branch) "graph.branch.missing" node.id in
    clean-append_as _ _
      (clean-error (stage_found join pkg node.stage) "graph.stage.missing" node.id)
      (clean-append_as _ _
        (clean-each_as branch_issue (branch_found join pkg) node.choice_branches
          (λ b. clean-error (branch_found join pkg b) "graph.branch.missing" node.id))
        (clean-append_as _ _ (unlocks_issues-clean pkg "graph.unlock.missing" node.id node.unlocks)
          (clean-each_as (choice_unlock_issues pkg node.id)
            (λ (r : String × List String). all (contains (node_ids pkg)) r.1) node.unlocks_by_choice
            (λ (c, ts). unlocks_issues-clean pkg "graph.unlock_by_choice.missing" node.id ts))))

evidence_issues-clean :
    (pkg : LoadedPackage) (branch : BranchRecord)
    → clean (evidence_issues pkg branch) ≡ (
        branch.support_level == "expert_reconstructed"
        || (not (length branch.evidence_refs == 0)
            && all (evidence_resolves pkg) branch.evidence_refs))
unfolding evidence_issues
evidence_issues-clean pkg branch =
    go (branch.support_level == "expert_reconstructed") (length branch.evidence_refs == 0)
  where
    go :
        (reconstructed nothing : Bool)
        → clean (
            if reconstructed
            then []
            else if nothing
            then error_unless false "branch.evidence.missing" branch.id
            else each
                (λ ref.
                  error_unless (evidence_resolves pkg ref) "branch.evidence.unresolved" branch.id)
                branch.evidence_refs)
          ≡ (reconstructed || (not nothing && all (evidence_resolves pkg) branch.evidence_refs))
    go true nothing = clean-none
    go false true = clean-error false "branch.evidence.missing" branch.id
    go false false =
        clean-each_as
          (λ ref. error_unless (evidence_resolves pkg ref) "branch.evidence.unresolved" branch.id)
          (evidence_resolves pkg) branch.evidence_refs
          (λ ref. clean-error (evidence_resolves pkg ref) "branch.evidence.unresolved" branch.id)

branch_issues-clean :
    (pkg : LoadedPackage) (branch : BranchRecord)
    → clean (branch_issues pkg branch) ≡ branch_closed pkg branch
unfolding branch_issues
branch_issues-clean pkg branch =
    let sourced =
      not (branch.support_level == "explicit") || not (length branch.source_refs == 0) in
    let next_issue : String → List Issue =
      λ t. warning_unless (contains (node_ids pkg) t) "branch.next_node.missing" branch.id in
    clean-append_as _ _ (clean-error sourced "branch.source_refs.missing" branch.id) (
      clean-append_harmless _ _ (evidence_issues-clean pkg branch) (
        clean-each_as next_issue (λ _. true) branch.next_nodes
          (λ t. clean-warning (contains (node_ids pkg) t) "branch.next_node.missing" branch.id)
        ∙ all_hold branch.next_nodes))

policy_issues-clean :
    (pkg : LoadedPackage) (stage : StageRecord)
    → clean (policy_issues pkg stage) ≡ refers pkg.rubric_refs stage.rubric
unfolding policy_issues
policy_issues-clean pkg stage =
    clean-append_harmless _ _
      (clean-error (refers pkg.rubric_refs stage.rubric) "stage.rubric.missing" stage.id)
      (clean-warning (refers pkg.hint_refs stage.progressive) "stage.hints.missing" stage.id)

-- The cross-link layer passes a package exactly if all of this holds. The artifacts that stages refer to,
-- the stages, choices' branches and unlocked nodes of the graph, and the rubrics of stages are there.
-- Branches that are explicit have source references, and those that are not reconstructed by experts
-- have evidence, whose artifacts are there. The exploration tree, if its file is there, can be parsed;
-- its nodes have unique ids that are not empty; their refs and parents are arrays, null or left out;
-- parents, and children that are texts, are other nodes of the tree; branch nodes stand for branches of
-- the package, no two for one; and its edges are null, left out, or an array of objects whose two ends
-- are nodes. Only paths under `artifact/` are looked up as artifacts. What else is warned of does not
-- count: artifacts that tree nodes refer to, branch ids of other nodes, edges from a node to itself,
-- hints, next nodes, and branches without a node.
pub validate_ara_cross_link-ok :
    (join : String → String → String) (pkg : LoadedPackage)
    → (validate_ara_cross_link join pkg).ok ≡ package_closed join pkg
unfolding validate_ara_cross_link
validate_ara_cross_link-ok join pkg = report_of-ok_as _ (
    clean-append_as _ _
      (clean-each_as (stage_issues pkg) (stage_closed pkg) pkg.stages (λ s.
        clean-each_as (artifact_ref_issues pkg) (evidence_resolves pkg) s.artifact_refs
          (artifact_ref_issues-clean pkg)))
      (clean-append_as _ _
        (clean-each_as (node_issues join pkg) (graph_node_closed join pkg) pkg.nodes
          (node_issues-clean join pkg))
        (clean-append_as _ _
          (clean-each_as (branch_issues pkg) (branch_closed pkg) pkg.branches
            (branch_issues-clean pkg))
          (clean-append_as _ _
            (trace_issues-clean (known_paths pkg) (branch_ids pkg) (trace_file pkg))
            (clean-each_as (policy_issues pkg)
              (λ (s : StageRecord). refers pkg.rubric_refs s.rubric) pkg.stages
              (policy_issues-clean pkg))))))
