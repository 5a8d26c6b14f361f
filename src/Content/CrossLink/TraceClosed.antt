-- ===== src/Content/CrossLink/TraceClosed.antt =====
-- What an exploration tree without errors is like.
use research_crafters.Prelude.{
  Bool, List, Option, String, [], all, codes_eq, contains, false, is_some, nat_eq, none, not, some,
  string_eq, true, ◌&&◌, ◌==◌, ◌||◌, ◌∷◌,
}
use research_crafters.Content.CrossLink.Yaml.{
  Fields, Yaml, field_of, flatten, full_text, items, null_value, obj, seq, text,
}
use research_crafters.Content.CrossLink.{TraceFile, bad_trace, no_trace, trace}
use research_crafters.Content.CrossLink.Trace.{claims, edges_of, ids_of_nodes, is_branch_node}

-- No text twice, nor one that was seen.
abbrev pub fresh : List String → List String → Bool
fresh seen [] = true
fresh seen (x ∷ xs) = not (contains seen x) && fresh (x ∷ seen) xs

abbrev pub has_id : Fields → Bool
has_id n = is_some (full_text (field_of "id" n))

-- An array, or nothing.
abbrev pub refs_sound : Option Yaml → Bool
refs_sound none = true
refs_sound (some null_value) = true
refs_sound (some (seq vs)) = true
refs_sound (some v) = false

-- Another node of the tree.
abbrev pub other_node : List String → String → Yaml → Bool
other_node ids id v = elim (full_text (some v)) [
  | none ↦ false
  | some p ↦ contains ids p && not (p == id)
]

abbrev pub parents_sound : List String → String → Option Yaml → Bool
parents_sound ids id none = true
parents_sound ids id (some null_value) = true
parents_sound ids id (some (seq vs)) = all (other_node ids id) (items vs)
parents_sound ids id (some v) = false

-- A child that is a text is another node of the tree.
abbrev pub child_sound : List String → String → Yaml → Bool
child_sound ids id (text c) = contains ids c && not (c == id)
child_sound ids id v = true

abbrev pub children_sound : List String → String → Option Yaml → Bool
children_sound ids id (some (seq vs)) = all (child_sound ids id) (items vs)
children_sound ids id v = true

-- A branch node belongs to a branch of the curriculum.
abbrev pub branch_id_sound : List String → Fields → Bool
branch_id_sound branches n =
    not (is_branch_node n)
    || elim (full_text (field_of "branch_id" n)) [ none ↦ false | some b ↦ contains branches b ]

abbrev pub named_node_sound : List String → List String → Fields → String → Bool
named_node_sound branches ids n id =
    refs_sound (field_of "refs" n)
    && (parents_sound ids id (field_of "parents" n)
        && (children_sound ids id (field_of "children" n) && branch_id_sound branches n))

abbrev pub node_sound : List String → List String → Fields → Bool
node_sound branches ids n = elim (full_text (field_of "id" n)) [
  | none ↦ true
  | some id ↦ named_node_sound branches ids n id
]

abbrev pub endpoint_sound : List String → Option Yaml → Bool
endpoint_sound ids v = elim (full_text v) [ none ↦ false | some id ↦ contains ids id ]

abbrev pub edge_sound : List String → Yaml → Bool
edge_sound ids (obj fs) =
    endpoint_sound ids (field_of "from" fs) && endpoint_sound ids (field_of "to" fs)
edge_sound ids v = false

abbrev pub edges_sound : List String → Option Yaml → Bool
edges_sound ids none = true
edges_sound ids (some null_value) = true
edges_sound ids (some (seq vs)) = all (edge_sound ids) (items vs)
edges_sound ids (some v) = false

-- Ids that are there and unique, parents and children in the tree, edges between its nodes, and no two
-- branch nodes for one branch.
unfoldable pub trace_closed : List String → TraceFile → Bool
trace_closed branches no_trace = true
trace_closed branches bad_trace = false
trace_closed branches (trace raw) =
    let nodes = flatten raw in
    let ids = ids_of_nodes nodes in
    all has_id nodes
    && (fresh [] ids
        && (all (node_sound branches ids) nodes
            && (edges_sound ids (edges_of raw) && fresh [] (claims branches nodes))))
