-- ===== src/Content/CrossLink/TraceClean.antt =====
-- When the checks of an exploration tree push no error.
use research_crafters.Prelude.{
  Bool, List, Option, Option-cases, String, [], all, arith, codes_eq, contains, false, inl, inr,
  nat_eq, none, not, refl, some, string_eq, true, ◌&&◌, ◌∙◌, ◌∷◌, ◌≡◌,
}
use research_crafters.Content.Issues.{
  clean, clean-append, clean-append_as, clean-append_harmless, clean-each_as, clean-error,
  clean-none, clean-warning, error_unless, warning_unless,
}
use research_crafters.Content.CrossLink.Yaml.{
  Fields, Yaml, field_of, flatten, full_text, items, null_value, obj, other, seq, text,
}
use research_crafters.Content.CrossLink.{TraceFile, bad_trace, no_trace, trace}
use research_crafters.Content.CrossLink.Trace.{
  branch_id_issues, child_issues, children_issues, claim_issues, claims, edge_issues, edges_issues,
  edges_of, endpoint_issues, id_issues, ids_of_nodes, is_loop, name_of, named_node_issues,
  parent_issues, parents_issues, ref_issues, refs_issues, trace_issues, trace_node_issues,
}
use research_crafters.Content.CrossLink.TraceClosed.{
  branch_id_sound, child_sound, children_sound, edge_sound, edges_sound, endpoint_sound, fresh,
  has_id, named_node_sound, node_sound, other_node, parents_sound, refs_sound, trace_closed,
}

id_issues-clean :
    (seen : List String) (nodes : List Fields)
    → clean (id_issues seen nodes) ≡ (all has_id nodes && fresh seen (ids_of_nodes nodes))
unfolding clean id_issues ids_of_nodes
id_issues-clean seen [] = refl
id_issues-clean seen (n ∷ nodes) = elim (Option-cases (full_text (field_of "id" n))) [
  | inl missing ↦ ground (arith, missing)
  | inr (id, is) ↦ ground (
    arith,
    is,
    id_issues-clean (id ∷ seen) nodes,
    clean-append (error_unless (not (contains seen id)) "trace.node.duplicate_id" id)
        (id_issues (id ∷ seen) nodes),
    clean-error (not (contains seen id)) "trace.node.duplicate_id" id,
  )
]

claim_issues-clean : (seen bs : List String) → clean (claim_issues seen bs) ≡ fresh seen bs
unfolding clean claim_issues
claim_issues-clean seen [] = refl
claim_issues-clean seen (b ∷ bs) = ground (arith, claim_issues-clean (b ∷ seen) bs)

ref_issues-clean :
    (known : List String) (id : String) (v : Yaml) → clean (ref_issues known id v) ≡ true
unfolding clean ref_issues
ref_issues-clean known id (text t) = ground arith
ref_issues-clean known id null_value = refl
ref_issues-clean known id other = refl
ref_issues-clean known id (seq vs) = refl
ref_issues-clean known id (obj fs) = refl

pub all_hold : {A : Type 0} (xs : List A) → all (λ _. true) xs ≡ true
all_hold [] = refl
all_hold (x ∷ xs) = all_hold xs

refs_issues-clean :
    (known : List String) (id : String) (v : Option Yaml)
    → clean (refs_issues known id v) ≡ refs_sound v
unfolding clean refs_issues
refs_issues-clean known id none = refl
refs_issues-clean known id (some null_value) = refl
refs_issues-clean known id (some other) = refl
refs_issues-clean known id (some (text t)) = refl
refs_issues-clean known id (some (obj fs)) = refl
refs_issues-clean known id (some (seq vs)) =
    clean-each_as (ref_issues known id) (λ _. true) (items vs) (ref_issues-clean known id)
    ∙ all_hold (items vs)

parent_issues-clean :
    (ids : List String) (id : String) (v : Yaml)
    → clean (parent_issues ids id v) ≡ other_node ids id v
unfolding clean parent_issues
parent_issues-clean ids id v = elim (Option-cases (full_text (some v))) [
  | inl missing ↦ ground (arith, missing)
  | inr (p, is) ↦ ground (arith, is)
]

parents_issues-clean :
    (ids : List String) (id : String) (v : Option Yaml)
    → clean (parents_issues ids id v) ≡ parents_sound ids id v
unfolding clean parents_issues
parents_issues-clean ids id none = refl
parents_issues-clean ids id (some null_value) = refl
parents_issues-clean ids id (some other) = refl
parents_issues-clean ids id (some (text t)) = refl
parents_issues-clean ids id (some (obj fs)) = refl
parents_issues-clean ids id (some (seq vs)) =
    clean-each_as (parent_issues ids id) (other_node ids id) (items vs) (parent_issues-clean ids id)

child_issues-clean :
    (ids : List String) (id : String) (v : Yaml)
    → clean (child_issues ids id v) ≡ child_sound ids id v
unfolding clean child_issues
child_issues-clean ids id (text c) = ground arith
child_issues-clean ids id null_value = refl
child_issues-clean ids id other = refl
child_issues-clean ids id (seq vs) = refl
child_issues-clean ids id (obj fs) = refl

children_issues-clean :
    (ids : List String) (id : String) (v : Option Yaml)
    → clean (children_issues ids id v) ≡ children_sound ids id v
unfolding clean children_issues
children_issues-clean ids id (some (seq vs)) =
    clean-each_as (child_issues ids id) (child_sound ids id) (items vs) (child_issues-clean ids id)
children_issues-clean ids id none = refl
children_issues-clean ids id (some null_value) = refl
children_issues-clean ids id (some other) = refl
children_issues-clean ids id (some (text t)) = refl
children_issues-clean ids id (some (obj fs)) = refl

branch_id_issues-clean :
    (branches : List String) (id : String) (n : Fields)
    → clean (branch_id_issues branches id n) ≡ branch_id_sound branches n
unfolding clean branch_id_issues
branch_id_issues-clean branches id n = elim (Option-cases (full_text (field_of "branch_id" n))) [
  | inl missing ↦ ground (arith, missing)
  | inr (b, is) ↦ ground (arith, is)
]

named_node_issues-clean :
    (known branches ids : List String) (n : Fields) (id : String)
    → clean (named_node_issues known branches ids n id) ≡ named_node_sound branches ids n id
unfolding named_node_issues
named_node_issues-clean known branches ids n id =
    clean-append_as _ _ (refs_issues-clean known id (field_of "refs" n)) (
      clean-append_as _ _ (parents_issues-clean ids id (field_of "parents" n)) (
        clean-append_as _ _ (children_issues-clean ids id (field_of "children" n))
          (branch_id_issues-clean branches id n)))

trace_node_issues-clean :
    (known branches ids : List String) (n : Fields)
    → clean (trace_node_issues known branches ids n) ≡ node_sound branches ids n
unfolding trace_node_issues
trace_node_issues-clean known branches ids n = elim (Option-cases (full_text (field_of "id" n))) [
  | inl missing ↦ ground (arith, missing, clean-none)
  | inr (id, is) ↦ ground (arith, is, named_node_issues-clean known branches ids n id)
]

endpoint_issues-clean :
    (ids : List String) (v : Option Yaml) → clean (endpoint_issues ids v) ≡ endpoint_sound ids v
unfolding clean endpoint_issues
endpoint_issues-clean ids v = elim (Option-cases (full_text v)) [
  | inl missing ↦ ground (arith, missing)
  | inr (id, is) ↦ ground (arith, is)
]

edge_issues-clean : (ids : List String) (v : Yaml) → clean (edge_issues ids v) ≡ edge_sound ids v
unfolding edge_issues
edge_issues-clean ids null_value = clean-error false "trace.edge.invalid" ""
edge_issues-clean ids other = clean-error false "trace.edge.invalid" ""
edge_issues-clean ids (text t) = clean-error false "trace.edge.invalid" ""
edge_issues-clean ids (seq vs) =
    clean-append_as _ _ (clean-error false "trace.edge.endpoint_invalid" "")
      (clean-error false "trace.edge.endpoint_invalid" "")
edge_issues-clean ids (obj fs) =
    clean-append_as _ _ (endpoint_issues-clean ids (field_of "from" fs)) (
      clean-append_harmless _ _ (endpoint_issues-clean ids (field_of "to" fs)) (
        clean-warning (not (is_loop (field_of "from" fs) (field_of "to" fs))) "trace.edge.self_loop"
          (name_of (field_of "from" fs))))

edges_issues-clean :
    (ids : List String) (v : Option Yaml) → clean (edges_issues ids v) ≡ edges_sound ids v
unfolding clean edges_issues
edges_issues-clean ids none = refl
edges_issues-clean ids (some null_value) = refl
edges_issues-clean ids (some other) = refl
edges_issues-clean ids (some (text t)) = refl
edges_issues-clean ids (some (obj fs)) = refl
edges_issues-clean ids (some (seq vs)) =
    clean-each_as (edge_issues ids) (edge_sound ids) (items vs) (edge_issues-clean ids)

regroup : {c : Bool} (p q r : Bool) → c ≡ ((p && q) && r) → c ≡ (p && (q && r))
regroup true q r e = e
regroup false q r e = e

pub trace_issues-clean :
    (known branches : List String) (file : TraceFile)
    → clean (trace_issues known branches file) ≡ trace_closed branches file
unfolding trace_issues trace_closed
trace_issues-clean known branches no_trace = clean-none
trace_issues-clean known branches bad_trace = clean-error false "trace.parse_error" ""
trace_issues-clean known branches (trace raw) =
    let nodes = flatten raw in
    let ids = ids_of_nodes nodes in
    let claimed = claims branches nodes in
    regroup (all has_id nodes) (fresh [] ids) _ (
      clean-append_as _ _ (id_issues-clean [] nodes) (
        clean-append_as _ _
          (clean-each_as (trace_node_issues known branches ids) (node_sound branches ids) nodes
            (trace_node_issues-clean known branches ids))
          (clean-append_as _ _ (edges_issues-clean ids (edges_of raw)) (
            clean-append_harmless _ _ (claim_issues-clean [] claimed) (
              clean-each_as (λ b. warning_unless (contains claimed b) "trace.branch.unmapped" b)
                (λ _. true) branches
                (λ b. clean-warning (contains claimed b) "trace.branch.unmapped" b)
              ∙ all_hold branches)))))
