-- ===== src/Evaluator/Numeric/Tests.antt =====
-- A vector within a tolerance, in units of 1/100.
use research_crafters.Prelude.{[], false, refl, some, true, ℕ, ◌∷◌, ◌≡◌}
use research_crafters.Prelude.Number.{int, pos, ◌+ℤ◌, ◌-ℤ◌}
use research_crafters.Evaluator.Numeric.{
  NumericCheckSpec, NumericObservation, NumericValue, arr, check_numeric, check_value, cons, count,
  infer_shape, is_uniform_shape, nil, num, shapes_equal, tolerance_valid, unit_matches, visit_leaf,
  walk_pairs,
}
use research_crafters.Evaluator.Numeric.Verdict.{check_numeric-passed, meets}

abbrev vector : ℕ → ℕ → NumericValue
vector a b = arr (cons (num (int (pos a))) (cons (num (int (pos b))) nil))

abbrev vector_spec : NumericCheckSpec
vector_spec = record {
  id = "latency";
  expected = vector 100 200;
  tolerance = record { absolute = some (int (pos 1)); relative = some (int (pos 1)) };
  unit = some "ms";
  shape = some (2 ∷ []);
}

abbrev seen : NumericValue → NumericObservation
seen v = record { value = some v; observed_as = some "ms" }

-- 1 + 1 % of 200 is 3.
edge_passes :
    ((check_numeric 100 (some (seen (vector 102 203))) vector_spec).passed ≡ true)
    × ((check_numeric 100 (some (seen (vector 102 204))) vector_spec).passed ≡ false)
unfolding check_numeric tolerance_valid unit_matches check_value is_uniform_shape infer_shape count
    shapes_equal walk_pairs visit_leaf ◌-ℤ◌ ◌+ℤ◌
edge_passes = (refl, refl)

check_numeric-passed_example :
    (check_numeric 100 (some (seen (vector 102 203))) vector_spec).passed
    ≡ meets 100 vector_spec (seen (vector 102 203)) (vector 102 203)
check_numeric-passed_example =
    check_numeric-passed 100 vector_spec (seen (vector 102 203)) (vector 102 203) refl
