-- ===== src/Evaluator/Numeric.antt =====
-- packages/evaluator-sdk/src/numeric.ts: numeric answers against tolerances, units and shapes. A
-- number is a multiple of a unit 1/scale, and the arithmetic is exact: where the code multiplies two
-- numbers or divides one by another, both sides of the comparison are multiplied out. Messages are left
-- out.
mod Values
pub mod Shapes
pub mod Verdict
mod Tests
unfoldable pub use Values.*
use research_crafters.Prelude.{
  Bool, List, Option, String, [], false, filter, get_or, if◌then◌else◌, is_some, length, ltb, map,
  nat_eq, none, not, some, string_eq, suc, true, ℕ, ◌&&◌, ◌*◌, ◌==◌, ◌||◌, ◌∷◌,
}
use research_crafters.Prelude.Dict.{Dict, insert, lookup}
use research_crafters.Prelude.Number.{
  Number, abs_ℤ, add_number, int, leb_number, ltb_number, nan, neg_inf, negsuc, pos, pos_inf, ℤ,
  ◌-ℤ◌,
}

-- `x * scale` and `x * m` for an absolute value m, both in the unit 1/scale².
abbrev pub times : ℕ → Number → Number
times m (int (pos n)) = int (pos (m * n))
times m (int (negsuc n)) = int (pos 0 -ℤ pos (m * suc n))
times m nan = nan
times m pos_inf = if m == 0 then nan else pos_inf
times m neg_inf = if m == 0 then nan else neg_inf

-- The bound of the tolerance that is set; `m` is the absolute value of the expected number.
abbrev pub bound : ℕ → NumericTolerance → ℕ → Number
bound scale tol m = elim tol.absolute [
  | some a ↦ elim tol.relative [
    | some r ↦ add_number (times scale a) (times m r)
    | none ↦ times scale a
  ]
  | none ↦ elim tol.relative [ some r ↦ times m r | none ↦ nan ]
]

-- `diff <= absTol + relTol * Math.abs(e)`
abbrev pub within : ℕ → NumericTolerance → ℤ → ℤ → Bool
within scale tol o e = leb_number (int (pos (scale * abs_ℤ (o -ℤ e)))) (bound scale tol (abs_ℤ e))

abbrev pub larger : Option Ratio → Ratio → Option Ratio
larger none q = some q
larger (some p) q = if ltb (p.over * q.under) (q.over * p.under) then some q else some p

abbrev pub residuals_with : ℤ → ℤ → Residuals → Residuals
residuals_with o e r =
    let diff = abs_ℤ (o -ℤ e) in
    record {
      max_abs = if ltb r.max_abs diff then diff else r.max_abs;
      max_rel =
          if abs_ℤ e == 0
          then r.max_rel
          else larger r.max_rel (record { over = diff; under = abs_ℤ e });
    }

-- The visit of two leaves.
unfoldable pub visit_leaf :
    ℕ → NumericTolerance → Number → Number → Residuals → Option FailureReason × Residuals
visit_leaf scale tol (int o) (int e) r =
    (if within scale tol o e then none else some value_mismatch, residuals_with o e r)
visit_leaf scale tol (int o) e r = (some spec_invalid, r)
visit_leaf scale tol o e r = (some not_finite, r)

abbrev pub failed :
    NumericCheckSpec → FailureReason → Option (List ℕ) → Option String → NumericCheckResult
failed spec why shape unit = record {
  check_id = spec.id;
  passed = false;
  residuals = none;
  observed_shape = shape;
  observed_unit = unit;
  reason = some why;
}

abbrev pub is_negative : Option Number → Bool
is_negative none = false
is_negative (some x) = ltb_number x (int (pos 0))

unfoldable pub tolerance_valid : NumericTolerance → Bool
tolerance_valid tol =
    (is_some tol.absolute || is_some tol.relative)
    && (not (is_negative tol.absolute) && not (is_negative tol.relative))

unfoldable pub unit_matches : Option String → Option String → Bool
unit_matches none observed = true
unit_matches (some u) none = false
unit_matches (some u) (some o) = o == u

abbrev pub no_residuals : Residuals
no_residuals = record { max_abs = 0; max_rel = none }

-- The result of the walk.
abbrev pub walked :
    NumericCheckSpec
    → NumericObservation
    → List ℕ
    → Option FailureReason × Residuals
    → NumericCheckResult
walked spec obs shape (fail, r) = record {
  check_id = spec.id;
  passed = not (is_some fail);
  residuals = some r;
  observed_shape = some shape;
  observed_unit = obs.observed_as;
  reason = fail;
}

-- The part of `checkNumeric` behind the unit.
unfoldable pub check_value :
    ℕ → NumericCheckSpec → NumericObservation → NumericValue → NumericCheckResult
check_value scale spec obs v =
    let observed = infer_shape v in
    let target = infer_shape spec.expected in
    if not (is_uniform_shape v observed)
    then failed spec shape_mismatch (some observed) none
    else if not (is_uniform_shape spec.expected target)
        || not (shapes_equal (get_or spec.shape target) target)
    then failed spec spec_invalid none none
    else if not (shapes_equal observed (get_or spec.shape target))
    then failed spec shape_mismatch (some observed) none
    else walked spec obs observed
        (walk_pairs (visit_leaf scale spec.tolerance) v spec.expected no_residuals)

-- `checkNumeric`
unfoldable pub check_numeric : ℕ → Option NumericObservation → NumericCheckSpec → NumericCheckResult
check_numeric scale none spec =
    if tolerance_valid spec.tolerance
    then failed spec missing none none
    else failed spec spec_invalid none none
check_numeric scale (some obs) spec =
    if not (tolerance_valid spec.tolerance)
    then failed spec spec_invalid none none
    else elim obs.value [
      | none ↦ failed spec missing none none
      | some v ↦
          if unit_matches spec.unit obs.observed_as
          then check_value scale spec obs v
          else failed spec unit_mismatch none obs.observed_as
    ]

-- `checkNumericBatch`; `passRatio` is the count over the number of results, or 0 without any.
unfoldable pub check_numeric_batch :
    ℕ → Dict NumericObservation → List NumericCheckSpec → NumericCheckBatch
check_numeric_batch scale observations specs =
    let results = map (λ spec. check_numeric scale (lookup observations spec.id) spec) specs in
    let passed_count = length (filter (λ (r : NumericCheckResult). r.passed) results) in
    record {
      batch_passed = not (length results == 0) && passed_count == length results;
      results = results;
      passed_count = passed_count;
    }

-- `metricsToObservations`
unfoldable pub metrics_to_observations :
    Dict Number → Option (Dict String) → Dict NumericObservation → Dict NumericObservation
metrics_to_observations [] units out = out
metrics_to_observations ((k, v) ∷ metrics) units out = metrics_to_observations metrics units (
    insert out k (record {
      value = some (num v);
      observed_as = elim units [ none ↦ none | some u ↦ lookup u k ];
    }))
