-- ===== src/Content/CrossLink/Trace.antt =====
-- packages/content-sdk/src/validator/ara-cross-link.ts: the checks of the exploration tree.
use research_crafters.Prelude.{
  Bool, List, Option, String, [], codes_eq, contains, false, if◌then◌else◌, is_some, nat_eq, none,
  not, some, string_eq, ◌++◌, ◌==◌, ◌||◌, ◌∷◌,
}
use research_crafters.Content.Issues.{Issue, each, error_unless, warning_unless}
use research_crafters.Content.CrossLink.Yaml.{
  Fields, Yaml, field_of, flatten, full_text, items, null_value, obj, seq, text,
}
use research_crafters.Content.CrossLink.Package.{
  TraceFile, bad_trace, is_artifact, no_trace, strip_fragment, trace,
}

-- The ids of the nodes that have one.
unfoldable pub ids_of_nodes : List Fields → List String
ids_of_nodes [] = []
ids_of_nodes (n ∷ nodes) = elim (full_text (field_of "id" n)) [
  | none ↦ ids_of_nodes nodes
  | some id ↦ id ∷ ids_of_nodes nodes
]

-- First pass: ids that are missing or seen before.
unfoldable pub id_issues : List String → List Fields → List Issue
id_issues seen [] = []
id_issues seen (n ∷ nodes) = elim (full_text (field_of "id" n)) [
  | none ↦ error_unless false "trace.node.id_invalid" "" ++ id_issues seen nodes
  | some id ↦
      error_unless (not (contains seen id)) "trace.node.duplicate_id" id
      ++ id_issues (id ∷ seen) nodes
]

unfoldable pub ref_issues : List String → String → Yaml → List Issue
ref_issues known id (text t) =
    warning_unless (not (is_artifact (strip_fragment t)) || contains known (strip_fragment t))
      "trace.ref.unresolved" id
ref_issues known id _ = []

-- `refs`, which may be absent or null but not another value that is no array.
unfoldable pub refs_issues : List String → String → Option Yaml → List Issue
refs_issues known id none = []
refs_issues known id (some null_value) = []
refs_issues known id (some (seq vs)) = each (ref_issues known id) (items vs)
refs_issues known id (some v) = error_unless false "trace.node.refs_invalid" id

unfoldable pub parent_issues : List String → String → Yaml → List Issue
parent_issues ids id v = elim (full_text (some v)) [
  | none ↦ error_unless false "trace.parent.invalid" id
  | some p ↦
      error_unless (contains ids p) "trace.parent.missing" id
      ++ error_unless (not (p == id)) "trace.parent.self_reference" id
]

unfoldable pub parents_issues : List String → String → Option Yaml → List Issue
parents_issues ids id none = []
parents_issues ids id (some null_value) = []
parents_issues ids id (some (seq vs)) = each (parent_issues ids id) (items vs)
parents_issues ids id (some v) = error_unless false "trace.node.parents_invalid" id

unfoldable pub child_issues : List String → String → Yaml → List Issue
child_issues ids id (text c) =
    error_unless (contains ids c) "trace.child.missing" id
    ++ error_unless (not (c == id)) "trace.child.self_reference" id
child_issues ids id _ = []

unfoldable pub children_issues : List String → String → Option Yaml → List Issue
children_issues ids id (some (seq vs)) = each (child_issues ids id) (items vs)
children_issues ids id _ = []

unfoldable pub is_branch_node : Fields → Bool
is_branch_node n = elim (full_text (field_of "kind" n)) [ none ↦ false | some k ↦ k == "branch" ]

unfoldable pub branch_id_issues : List String → String → Fields → List Issue
branch_id_issues branches id n = elim (full_text (field_of "branch_id" n)) [
  | none ↦ error_unless (not (is_branch_node n)) "trace.branch_id.missing" id
  | some b ↦
      if is_branch_node n
      then error_unless (contains branches b) "trace.branch_id.unresolved" id
      else warning_unless (contains branches b) "trace.branch_id.unresolved" id
]

-- `validateTraceNode`, of a node with the given id.
unfoldable pub named_node_issues :
    List String → List String → List String → Fields → String → List Issue
named_node_issues known branches ids n id =
    refs_issues known id (field_of "refs" n)
    ++ (parents_issues ids id (field_of "parents" n)
        ++ (children_issues ids id (field_of "children" n) ++ branch_id_issues branches id n))

-- Second pass, over the nodes with an id.
unfoldable pub trace_node_issues : List String → List String → List String → Fields → List Issue
trace_node_issues known branches ids n = elim (full_text (field_of "id" n)) [
  | none ↦ []
  | some id ↦ named_node_issues known branches ids n id
]

unfoldable pub endpoint_issues : List String → Option Yaml → List Issue
endpoint_issues ids v = elim (full_text v) [
  | none ↦ error_unless false "trace.edge.endpoint_invalid" ""
  | some id ↦ error_unless (contains ids id) "trace.edge.endpoint_missing" id
]

unfoldable pub is_loop : Option Yaml → Option Yaml → Bool
is_loop (some (text a)) (some (text b)) = a == b
is_loop _ _ = false

unfoldable pub name_of : Option Yaml → String
name_of (some (text t)) = t
name_of _ = ""

unfoldable pub edge_issues : List String → Yaml → List Issue
edge_issues ids (obj fs) =
    endpoint_issues ids (field_of "from" fs)
    ++ (endpoint_issues ids (field_of "to" fs)
        ++ warning_unless (not (is_loop (field_of "from" fs) (field_of "to" fs)))
            "trace.edge.self_loop" (name_of (field_of "from" fs)))
edge_issues ids (seq vs) =
    error_unless false "trace.edge.endpoint_invalid" ""
    ++ error_unless false "trace.edge.endpoint_invalid" ""
edge_issues ids _ = error_unless false "trace.edge.invalid" ""

-- `validateTraceEdges`, where the top of the file is an object with edges.
unfoldable pub edges_issues : List String → Option Yaml → List Issue
edges_issues ids none = []
edges_issues ids (some null_value) = []
edges_issues ids (some (seq vs)) = each (edge_issues ids) (items vs)
edges_issues ids (some v) = error_unless false "trace.edges_invalid" ""

unfoldable pub edges_of : Yaml → Option Yaml
edges_of (obj fs) = field_of "edges" fs
edges_of _ = none

-- Third pass: the branch that a node claims.
unfoldable pub claimed_branch : List String → Fields → Option String
claimed_branch branches n =
    if not (is_branch_node n) || not (is_some (full_text (field_of "id" n)))
    then none
    else elim (full_text (field_of "branch_id" n)) [
      | none ↦ none
      | some b ↦ if contains branches b then some b else none
    ]

unfoldable pub claims : List String → List Fields → List String
claims branches [] = []
claims branches (n ∷ nodes) = elim (claimed_branch branches n) [
  | none ↦ claims branches nodes
  | some b ↦ b ∷ claims branches nodes
]

unfoldable pub claim_issues : List String → List String → List Issue
claim_issues seen [] = []
claim_issues seen (b ∷ bs) =
    error_unless (not (contains seen b)) "trace.branch_id.duplicate" b ++ claim_issues (b ∷ seen) bs

-- The tree's file, without aliases in a cycle; the ids of the curriculum's branches are taken to be unique.
unfoldable pub trace_issues : List String → List String → TraceFile → List Issue
trace_issues known branches no_trace = []
trace_issues known branches bad_trace = error_unless false "trace.parse_error" ""
trace_issues known branches (trace raw) =
    let nodes = flatten raw in
    let ids = ids_of_nodes nodes in
    let claimed = claims branches nodes in
    id_issues [] nodes
    ++ (each (trace_node_issues known branches ids) nodes
        ++ (edges_issues ids (edges_of raw)
            ++ (claim_issues [] claimed
                ++ each (λ b. warning_unless (contains claimed b) "trace.branch.unmapped" b)
                    branches)))
