-- ===== src/Evaluator/Implementation/Tests.antt =====
-- A shape table with one tensor.
use research_crafters.Prelude.{[], all, false, length, ltb, refl, some, true, ◌&&◌, ◌||◌, ◌∷◌, ◌≡◌}
use research_crafters.Prelude.Dict.{Dict, lookup}
use research_crafters.Prelude.Number.{int, pos}
use research_crafters.Evaluator.Numeric.{shapes_equal}
use research_crafters.Evaluator.Implementation.{
  RawShape, ShapeTableSpec, check_shape_table, dims_of, expected_entries, expected_entry, int_dims,
  unexpected_entries,
}
use research_crafters.Evaluator.Implementation.Verdicts.{
  agrees, check_shape_table-passed, is_declared,
}

abbrev one_tensor : Dict RawShape
one_tensor = ("W", some (int (pos 2) ∷ int (pos 3) ∷ [])) ∷ []

abbrev strict_table : ShapeTableSpec
strict_table = record { expected_shapes = one_tensor; allow_extra = false }

abbrev with_extra : Dict RawShape
with_extra = ("b", some []) ∷ one_tensor

extra_fails :
    ((check_shape_table (some one_tensor) strict_table).table_passed ≡ true)
    × ((check_shape_table (some with_extra) strict_table).table_passed ≡ false)
unfolding check_shape_table expected_entries expected_entry dims_of int_dims lookup shapes_equal
    unexpected_entries
extra_fails = (refl, refl)

check_shape_table-passed_example :
    (check_shape_table (some with_extra) strict_table).table_passed ≡ (
      ltb 0 (length one_tensor)
      && (all (agrees with_extra) one_tensor && (false || all (is_declared one_tensor) with_extra)))
check_shape_table-passed_example = check_shape_table-passed (some with_extra) strict_table
