-- ===== src/Content/CrossLink/Yaml.antt =====
-- packages/content-sdk/src/validator/ara-cross-link.ts: the values of a YAML file, and the nodes of an
-- exploration tree.
use research_crafters.Prelude.{
  List, Option, String, [], codes_eq, if◌then◌else◌, is_some, nat_eq, none, some, string_eq, ◌++◌,
  ◌==◌, ◌∷◌,
}

-- `other` is a number or a Boolean; dates are left out.
mutual
  pub data Yaml : Type 0 where
    null_value other : Yaml
    text : String → Yaml
    seq : Yamls → Yaml
    obj : Fields → Yaml

  pub data Yamls : Type 0 where
    nil : Yamls
    cons : Yaml → Yamls → Yamls

  pub data Fields : Type 0 where
    end_fields : Fields
    field : String → Yaml → Fields → Fields

unfoldable pub field_of : String → Fields → Option Yaml
field_of k end_fields = none
field_of k (field j v fs) = if j == k then some v else field_of k fs

unfoldable pub items : Yamls → List Yaml
items nil = []
items (cons v vs) = v ∷ items vs

-- `flattenTraceNodes`: the objects with an id, each before those below it.
unfoldable mutual
  pub flatten : Yaml → List Fields
  flatten null_value = []
  flatten other = []
  flatten (text t) = []
  flatten (seq vs) = flatten_items vs
  flatten (obj fs) =
      (if is_some (field_of "id" fs) then fs ∷ [] else [])
      ++ flatten_field "children" fs
      ++ flatten_field "nodes" fs

  pub flatten_items : Yamls → List Fields
  flatten_items nil = []
  flatten_items (cons v vs) = flatten v ++ flatten_items vs

  -- Below a field that is an array.
  pub flatten_field : String → Fields → List Fields
  flatten_field k end_fields = []
  flatten_field k (field j v fs) =
      let here = flatten_array v in let rest = flatten_field k fs in if j == k then here else rest

  pub flatten_array : Yaml → List Fields
  flatten_array (seq vs) = flatten_items vs
  flatten_array null_value = []
  flatten_array other = []
  flatten_array (text t) = []
  flatten_array (obj fs) = []

-- A text that is not empty.
unfoldable pub full_text : Option Yaml → Option String
full_text (some (text t)) = if t == "" then none else some t
full_text _ = none
