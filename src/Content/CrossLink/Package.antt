-- ===== src/Content/CrossLink/Package.antt =====
-- packages/content-sdk/src/types.ts: what the cross-link layer reads of a loaded package.
use research_crafters.Prelude.{
  Bool, List, Option, String, [], codes_eq, get_or, if◌then◌else◌, map, nat_eq, none, some,
  string_eq, ◌++◌, ◌==◌, ◌∷◌,
}
use research_crafters.Prelude.Dict.{Dict}
use research_crafters.Content.CrossLink.Yaml.{Yaml}
use text.Mathlib.Text.{find?, get?, starts_with}
pub use text.Mathlib.Text.{starts_with}

pub record StageRecord : Type 0 where
  pub ref : String
  pub id : String
  pub artifact_refs : List String
  pub rubric : Option String
  pub progressive : Option String

pub record BranchRecord : Type 0 where
  pub ref : String
  pub id : String
  pub support_level : String
  pub source_refs : List String
  pub evidence_refs : List String
  pub next_nodes : List String

-- A node of the graph with the branches of its choices; an absent list is empty.
pub record GraphNode : Type 0 where
  pub id : String
  pub stage : String
  pub choice_branches : List String
  pub unlocks : List String
  pub unlocks_by_choice : Dict (List String)

-- The file of the exploration tree: none, one that is not parsed, or its value.
pub data TraceFile : Type 0 where
  no_trace bad_trace : TraceFile
  trace : Yaml → TraceFile

pub record ArtifactIndex : Type 0 where
  pub paper_md : Option String
  pub logic_files : List String
  pub src_files : List String
  pub trace_tree_path : Option String
  pub evidence_paths : List String

-- A loaded package, with the file that its path of the exploration tree leads to.
pub record LoadedPackage : Type 0 where
  pub stages : List StageRecord
  pub branches : List BranchRecord
  pub nodes : List GraphNode
  pub rubric_refs : List String
  pub hint_refs : List String
  pub artifact : ArtifactIndex
  pub trace : TraceFile

-- `stripFragment`
abbrev pub strip_fragment : String → String
strip_fragment ref = elim (find? ref "#") [ none ↦ ref | some i ↦ get_or (get? ref 0 i) ref ]

abbrev pub is_artifact : String → Bool
is_artifact path = starts_with path "artifact/"

-- A path that is neither null nor empty.
abbrev pub given_path : Option String → List String
given_path none = []
given_path (some p) = if p == "" then [] else p ∷ []

-- `knownArtifactPaths`
abbrev pub known_paths : LoadedPackage → List String
known_paths pkg =
    pkg.artifact.logic_files
    ++ pkg.artifact.src_files
    ++ pkg.artifact.evidence_paths
    ++ given_path pkg.artifact.paper_md
    ++ given_path pkg.artifact.trace_tree_path

-- The tree's file, if its path is given.
abbrev pub trace_file : LoadedPackage → TraceFile
trace_file pkg = elim (given_path pkg.artifact.trace_tree_path) [
  | [] ↦ no_trace
  | _ ∷ _ ↦ pkg.trace
]

abbrev pub stage_refs : LoadedPackage → List String
stage_refs pkg = map (λ (s : StageRecord). s.ref) pkg.stages

abbrev pub branch_refs : LoadedPackage → List String
branch_refs pkg = map (λ (b : BranchRecord). b.ref) pkg.branches

abbrev pub branch_ids : LoadedPackage → List String
branch_ids pkg = map (λ (b : BranchRecord). b.id) pkg.branches

abbrev pub node_ids : LoadedPackage → List String
node_ids pkg = map (λ (n : GraphNode). n.id) pkg.nodes
