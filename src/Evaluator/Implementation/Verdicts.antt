-- ===== src/Evaluator/Implementation/Verdicts.antt =====
-- When shape tables and bounds on cost pass.
use research_crafters.Prelude.{
  Bool, Bool-cases, List, Option, String, [], all, any, any-append, ap, arith, false, get_or,
  if◌then◌else◌, inl, inr, is_some, length, ltb, nat_eq, none, not, refl, some, string_eq, suc,
  ◌&&◌, ◌==◌, ◌||◌, ◌∷◌, ◌≡◌, ◌≤◌,
}
use research_crafters.Prelude.Dict.{Dict, lookup}
use research_crafters.Prelude.Number.{int, nan, neg_inf, pos_inf}
use research_crafters.Evaluator.Numeric.{
  NumericObservation, NumericValue, arr, num, shapes_equal, unit_matches,
}
use research_crafters.Evaluator.Implementation.{
  ComplexityBoundSpec, EntryResult, RawShape, ShapeTableSpec, bound_valid, check_bounds,
  check_complexity_bound, check_observed, check_shape_table, dims_of, exceeds, expected_entries,
  expected_entry, falls_below, is_entry_ok, is_unexpected, unexpected_entries,
}

-- An expected name was observed with the expected shape, which is one of non-negative whole numbers.
abbrev pub agrees : Dict RawShape → String × RawShape → Bool
agrees obs (name, shape) = elim (dims_of shape) [
  | none ↦ false
  | some dims ↦ elim (lookup obs name) [
    | none ↦ false
    | some seen ↦ elim (dims_of seen) [ none ↦ false | some found ↦ shapes_equal found dims ]
  ]
]

expected_entry-agrees :
    (obs : Dict RawShape) (r : String × RawShape)
    → is_entry_ok (expected_entry obs r).status ≡ agrees obs r
unfolding expected_entry
expected_entry-agrees obs (name, shape) = ground arith

expected_entry-unexpected :
    (obs : Dict RawShape) (r : String × RawShape) → is_unexpected (expected_entry obs r) ≡ false
unfolding expected_entry
expected_entry-unexpected obs (name, shape) = ground arith

expected_entries-counts :
    (obs expected : Dict RawShape)
    → ((expected_entries obs expected).2 ≤ (expected_entries obs expected).1)
      × ((expected_entries obs expected).1 ≡ length expected)
      × (((expected_entries obs expected).2 == (expected_entries obs expected).1)
          ≡ all (agrees obs) expected)
unfolding expected_entries
expected_entries-counts obs [] = (omega arith, refl, refl)
expected_entries-counts obs (r ∷ rest) =
    let (le, names, oks) = expected_entries-counts obs rest in
    let same = expected_entry-agrees obs r in
    (ground (arith, le), ap suc names, ground (arith, le, oks, same))

expected_entries-unexpected :
    (obs expected : Dict RawShape) → any is_unexpected (expected_entries obs expected).0 ≡ false
unfolding expected_entries
expected_entries-unexpected obs [] = refl
expected_entries-unexpected obs (r ∷ rest) =
    ground (arith, expected_entries-unexpected obs rest, expected_entry-unexpected obs r)

abbrev pub is_declared : Dict RawShape → String × RawShape → Bool
is_declared expected (name, _) = is_some (lookup expected name)

unexpected_entries-declared :
    (expected obs : Dict RawShape)
    → any is_unexpected (unexpected_entries expected obs) ≡ not (all (is_declared expected) obs)
unfolding unexpected_entries
unexpected_entries-declared expected [] = refl
unexpected_entries-declared expected ((name, seen) ∷ rest) =
    ground (arith, unexpected_entries-declared expected rest)

-- A shape table passes exactly if it expects something, each expected name was observed with its
-- shape, and no other name was observed where extra ones are not allowed.
pub check_shape_table-passed :
    (observed : Option (Dict RawShape)) (spec : ShapeTableSpec)
    → (check_shape_table observed spec).table_passed ≡ (
        ltb 0 (length spec.expected_shapes)
        && (all (agrees (get_or observed [])) spec.expected_shapes
            && (spec.allow_extra || all (is_declared spec.expected_shapes) (get_or observed []))))
unfolding check_shape_table
check_shape_table-passed observed spec =
    let obs = get_or observed [] in
    let expected = spec.expected_shapes in
    let (le, names, oks) = expected_entries-counts obs expected in
    let first = expected_entries-unexpected obs expected in
    let second = unexpected_entries-declared expected obs in
    let extra : List EntryResult =
      if spec.allow_extra then [] else unexpected_entries expected obs in
    let both = any-append is_unexpected (expected_entries obs expected).0 extra in
    elim (Bool-cases spec.allow_extra) [ inl open_table ↦ ground arith | inr strict ↦ ground arith ]

abbrev pub inside : ComplexityBoundSpec → NumericValue → Bool
inside spec (num (int v)) =
    not (exceeds spec.max_bound (int v)) && not (falls_below spec.min_bound (int v))
inside spec _ = false

check_observed-passed :
    (spec : ComplexityBoundSpec) (unit : Option String) (v : NumericValue)
    → (check_observed spec unit v).bound_passed
      ≡ (unit_matches spec.bound_unit unit && inside spec v)
unfolding check_observed check_bounds
check_observed-passed spec unit (arr xs) = ground arith
check_observed-passed spec unit (num (int v)) = ground arith
check_observed-passed spec unit (num nan) = ground arith
check_observed-passed spec unit (num pos_inf) = ground arith
check_observed-passed spec unit (num neg_inf) = ground arith

-- A bound on cost is met exactly if its specification is sound, and a finite scalar in its unit was
-- observed that lies between the two ends, which belong to it.
pub check_complexity_bound-passed :
    (obs : NumericObservation) (v : NumericValue) (spec : ComplexityBoundSpec)
    → obs.value ≡ some v
    → (check_complexity_bound (some obs) spec).bound_passed
      ≡ (bound_valid spec && (unit_matches spec.bound_unit obs.observed_as && inside spec v))
unfolding check_complexity_bound
check_complexity_bound-passed obs v spec has =
    ground (arith, check_observed-passed spec obs.observed_as v)
