-- ===== src/Evaluator/Implementation.antt =====
-- packages/evaluator-sdk/src/implementation-checks.ts: shape tables and bounds on cost. A shape is
-- none where it is no array, and its dimensions are whole numbers: a fractional one, which
-- `isNonNegativeIntArray` refuses, has no case. Messages are left out.
pub mod Verdicts
mod Tests
use research_crafters.Prelude.{
  Bool, List, Option, String, [], any, false, filter, get_or, if◌then◌else◌, is_some, length, ltb,
  map, nat_eq, none, not, some, string_eq, suc, true, ℕ, ◌&&◌, ◌++◌, ◌==◌, ◌||◌, ◌∷◌,
}
use research_crafters.Prelude.Dict.{Dict, lookup}
use research_crafters.Prelude.Number.{Number, int, is_finite, ltb_number, pos, ℤ, ◌-ℤ◌}
use research_crafters.Evaluator.Numeric.{
  NumericObservation, NumericValue, arr, count, num, shapes_equal, unit_matches,
}

abbrev pub RawShape : Type 0
RawShape = Option (List Number)

pub record ShapeTableSpec : Type 0 where
  pub expected_shapes : Dict RawShape
  pub allow_extra : Bool

pub data EntryStatus : Type 0 where
  entry_ok missing_entry shape_differs unexpected invalid_entry : EntryStatus

pub record EntryResult : Type 0 where
  pub name : String
  pub status : EntryStatus
  pub expected_shape : Option RawShape
  pub observed_shape : Option RawShape

pub record ShapeTableResult : Type 0 where
  pub table_passed : Bool
  pub entries : List EntryResult
  pub expected_count : ℕ
  pub ok_count : ℕ

unfoldable pub int_dims : List Number → Option (List ℕ)
int_dims [] = some []
int_dims (int (pos n) ∷ rest) = elim (int_dims rest) [ none ↦ none | some dims ↦ some (n ∷ dims) ]
int_dims (x ∷ rest) = none

-- `isNonNegativeIntArray`, with what it narrows to.
unfoldable pub dims_of : RawShape → Option (List ℕ)
dims_of none = none
dims_of (some xs) = int_dims xs

abbrev entry : String → EntryStatus → Option RawShape → Option RawShape → EntryResult
entry name status expected observed = record {
  name = name;
  status = status;
  expected_shape = expected;
  observed_shape = observed;
}

-- The entry of an expected name, in the body of the first loop.
unfoldable pub expected_entry : Dict RawShape → String × RawShape → EntryResult
expected_entry obs (name, shape) = elim (dims_of shape) [
  | none ↦ entry name invalid_entry (some shape) none
  | some dims ↦ elim (lookup obs name) [
    | none ↦ entry name missing_entry (some shape) none
    | some seen ↦ elim (dims_of seen) [
      | none ↦ entry name shape_differs (some shape) (some seen)
      | some seen_dims ↦
          if shapes_equal seen_dims dims
          then entry name entry_ok (some shape) (some seen)
          else entry name shape_differs (some shape) (some seen)
    ]
  ]
]

abbrev pub is_entry_ok : EntryStatus → Bool
is_entry_ok entry_ok = true
is_entry_ok _ = false

abbrev pub is_unexpected : EntryResult → Bool
is_unexpected e = elim e.status [ unexpected ↦ true | _ ↦ false ]

-- The first loop: entries, how many names are expected, and how many are ok.
unfoldable pub expected_entries : Dict RawShape → Dict RawShape → List EntryResult × ℕ × ℕ
expected_entries obs [] = ([], 0, 0)
expected_entries obs (r ∷ rest) =
    let e = expected_entry obs r in
    let (es, names, oks) = expected_entries obs rest in
    (e ∷ es, suc names, if is_entry_ok e.status then suc oks else oks)

-- The second loop
unfoldable pub unexpected_entries : Dict RawShape → Dict RawShape → List EntryResult
unexpected_entries expected [] = []
unexpected_entries expected ((name, seen) ∷ rest) =
    let es = unexpected_entries expected rest in
    if is_some (lookup expected name) then es else entry name unexpected none (some seen) ∷ es

-- `checkShapeTable`
unfoldable pub check_shape_table : Option (Dict RawShape) → ShapeTableSpec → ShapeTableResult
check_shape_table observed spec =
    let obs = get_or observed [] in
    let (es, names, oks) = expected_entries obs spec.expected_shapes in
    let entries =
      es ++ (if spec.allow_extra then [] else unexpected_entries spec.expected_shapes obs) in
    record {
      table_passed = ltb 0 names && (oks == names && not (any is_unexpected entries));
      entries = entries;
      expected_count = names;
      ok_count = oks;
    }

pub record ComplexityBoundSpec : Type 0 where
  pub bound_id : String
  pub max_bound : Option Number
  pub min_bound : Option Number
  pub bound_unit : Option String

pub data BoundFailure : Type 0 where
  no_observation not_finite_value wrong_unit above_max below_min not_scalar invalid_bound :
      BoundFailure

pub record BoundResult : Type 0 where
  pub result_id : String
  pub bound_passed : Bool
  pub observed : Option Number
  pub result_unit : Option String
  pub why : Option BoundFailure
  pub slack : Option Number

pub record BoundBatch : Type 0 where
  pub bounds_passed : Bool
  pub bound_results : List BoundResult
  pub bound_count : ℕ

abbrev refused :
    ComplexityBoundSpec → BoundFailure → Option Number → Option String → Option Number → BoundResult
refused spec reason seen unit slack = record {
  result_id = spec.bound_id;
  bound_passed = false;
  observed = seen;
  result_unit = unit;
  why = some reason;
  slack = slack;
}

abbrev pub finite_if_set : Option Number → Bool
finite_if_set none = true
finite_if_set (some x) = is_finite x

abbrev pub crossed : Option Number → Option Number → Bool
crossed (some high) (some low) = ltb_number high low
crossed _ _ = false

-- The tests on the specification.
unfoldable pub bound_valid : ComplexityBoundSpec → Bool
bound_valid spec =
    (is_some spec.max_bound || is_some spec.min_bound)
    && (not (crossed spec.max_bound spec.min_bound)
        && (finite_if_set spec.max_bound && finite_if_set spec.min_bound))

-- `a - b` of finite numbers
abbrev pub minus : Number → ℤ → Number
minus (int a) b = int (a -ℤ b)
minus x b = x

abbrev pub min_number : Number → Number → Number
min_number a b = if ltb_number a b then a else b

-- The slack of a value inside its bounds.
unfoldable pub slack_of : Option Number → Option Number → ℤ → Option Number
slack_of (some high) (some (int low)) v = some (min_number (minus high v) (int (v -ℤ low)))
slack_of (some high) _ v = some (minus high v)
slack_of none (some (int low)) v = some (int (v -ℤ low))
slack_of none _ v = none

abbrev pub exceeds : Option Number → Number → Bool
exceeds none v = false
exceeds (some high) v = ltb_number high v

abbrev pub falls_below : Option Number → Number → Bool
falls_below none v = false
falls_below (some low) v = ltb_number v low

abbrev pub over_slack : Option Number → ℤ → Option Number
over_slack none v = none
over_slack (some high) v = some (minus high v)

abbrev pub under_slack : Option Number → ℤ → Option Number
under_slack (some (int low)) v = some (int (v -ℤ low))
under_slack _ v = none

-- The part of `checkComplexityBound` behind the unit.
unfoldable pub check_bounds : ComplexityBoundSpec → Option String → ℤ → BoundResult
check_bounds spec unit v =
    if exceeds spec.max_bound (int v)
    then refused spec above_max (some (int v)) unit (over_slack spec.max_bound v)
    else if falls_below spec.min_bound (int v)
    then refused spec below_min (some (int v)) unit (under_slack spec.min_bound v)
    else record {
      result_id = spec.bound_id;
      bound_passed = true;
      observed = some (int v);
      result_unit = unit;
      why = none;
      slack = slack_of spec.max_bound spec.min_bound v;
    }

unfoldable pub check_observed : ComplexityBoundSpec → Option String → NumericValue → BoundResult
check_observed spec unit (arr xs) = refused spec not_scalar none unit none
check_observed spec unit (num (int v)) =
    if unit_matches spec.bound_unit unit
    then check_bounds spec unit v
    else refused spec wrong_unit (some (int v)) unit none
check_observed spec unit (num x) = refused spec not_finite_value (some x) unit none

-- `checkComplexityBound`
unfoldable pub check_complexity_bound :
    Option NumericObservation → ComplexityBoundSpec → BoundResult
check_complexity_bound observation spec =
    if not (bound_valid spec) then refused spec invalid_bound none none none else elim observation [
      | none ↦ refused spec no_observation none none none
      | some obs ↦ elim obs.value [
        | none ↦ refused spec no_observation none none none
        | some v ↦ check_observed spec obs.observed_as v
      ]
    ]

-- `checkComplexityBatch`
unfoldable pub check_complexity_batch :
    Dict NumericObservation → List ComplexityBoundSpec → BoundBatch
check_complexity_batch observations specs =
    let results =
      map (λ spec. check_complexity_bound (lookup observations spec.bound_id) spec) specs in
    let count = length (filter (λ (r : BoundResult). r.bound_passed) results) in
    record {
      bounds_passed = not (length results == 0) && count == length results;
      bound_results = results;
      bound_count = count;
    }
