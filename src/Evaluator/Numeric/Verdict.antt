-- ===== src/Evaluator/Numeric/Verdict.antt =====
-- When numeric checks pass.
use research_crafters.Prelude.{
  Bool, Bool-cases, List, Option-cases, [], all, all-congr, arith, codes_eq, false, filter, get_or,
  inl, inr, length, length-filter, length-map, map, nat_eq, none, not, refl, some, string_eq, ℕ,
  ◌&&◌, ◌==◌, ◌∷◌, ◌≡◌,
}
use research_crafters.Evaluator.Numeric.{
  NumericCheckResult, NumericCheckSpec, NumericObservation, NumericValue, check_numeric,
  check_numeric_batch, check_value, infer_shape, is_uniform_shape, no_residuals, shapes_equal,
  tolerance_valid, unit_matches,
}
use research_crafters.Evaluator.Numeric.Shapes.{
  close, close-shape, close-uniform, shapes_equal_iff, walk_pairs-close,
}
use research_crafters.Prelude.Dict.{Dict, lookup}

-- What a check promises: a usable tolerance, the unit if there is one, an expected value that is a
-- tensor of the declared shape, and leaves that are close.
abbrev pub meets : ℕ → NumericCheckSpec → NumericObservation → NumericValue → Bool
meets scale spec obs v =
    tolerance_valid spec.tolerance
    && (unit_matches spec.unit obs.observed_as
        && (is_uniform_shape spec.expected (infer_shape spec.expected)
            && (shapes_equal (get_or spec.shape (infer_shape spec.expected))
                  (infer_shape spec.expected)
                && close scale spec.tolerance v spec.expected)))

-- A check with a value passes exactly if it meets its specification; the gates on the observed shape
-- refuse nothing that the leaves would let pass.
pub check_numeric-passed :
    (scale : ℕ) (spec : NumericCheckSpec) (obs : NumericObservation) (v : NumericValue)
    → obs.value ≡ some v
    → (check_numeric scale (some obs) spec).passed ≡ meets scale spec obs v
unfolding check_numeric check_value
check_numeric-passed scale spec obs v has =
    let walk = walk_pairs-close scale spec.tolerance v spec.expected no_residuals in
    elim (Bool-cases (close scale spec.tolerance v spec.expected)) [
      | inr far ↦ ground arith
      | inl near ↦
          let same = close-shape scale spec.tolerance v spec.expected near in
          let uniform = close-uniform scale spec.tolerance v spec.expected (infer_shape v) near in
          ground (
            arith,
            shapes_equal_iff (infer_shape v) (get_or spec.shape (infer_shape spec.expected)),
            shapes_equal_iff (get_or spec.shape (infer_shape spec.expected))
                (infer_shape spec.expected),
          )
    ]

filtered-all :
    {A : Type 0} (p : A → Bool) (xs : List A) → (length (filter p xs) == length xs) ≡ all p xs
filtered-all p [] = refl
filtered-all p (x ∷ xs) = ground (arith, filtered-all p xs, length-filter p xs)

all-map :
    {A B : Type 0} (p : B → Bool) (f : A → B) (xs : List A)
    → all p (map f xs) ≡ all (λ x. p (f x)) xs
all-map p f [] = refl
all-map p f (x ∷ xs) = ground (arith, all-map p f xs)

-- The specification of a check met by what was observed under its id.
abbrev pub met : ℕ → Dict NumericObservation → NumericCheckSpec → Bool
met scale observations spec = elim (lookup observations spec.id) [
  | none ↦ false
  | some obs ↦ elim obs.value [ none ↦ false | some v ↦ meets scale spec obs v ]
]

passed-met :
    (scale : ℕ) (observations : Dict NumericObservation) (spec : NumericCheckSpec)
    → (check_numeric scale (lookup observations spec.id) spec).passed ≡ met scale observations spec
unfolding check_numeric
passed-met scale observations spec = elim (Option-cases (lookup observations spec.id)) [
  | inl absent ↦ ground arith
  | inr (obs, found) ↦ elim (Option-cases obs.value) [
    | inl empty ↦ ground arith
    | inr (v, has) ↦ ground (arith, check_numeric-passed scale spec obs v has)
  ]
]

-- A batch passes exactly if it has a check and each check's specification is met by what was observed
-- under its id.
pub check_numeric_batch-passed :
    (scale : ℕ) (observations : Dict NumericObservation) (specs : List NumericCheckSpec)
    → (check_numeric_batch scale observations specs).batch_passed
      ≡ (not (length specs == 0) && all (met scale observations) specs)
unfolding check_numeric_batch
check_numeric_batch-passed scale observations specs =
    let check : NumericCheckSpec → NumericCheckResult =
      λ spec. check_numeric scale (lookup observations spec.id) spec in
    let passes : NumericCheckResult → Bool = λ r. r.passed in
    let counted = filtered-all passes (map check specs) in
    let mapped = all-map passes check specs in
    let agree =
      all-congr (λ spec. passes (check spec)) (met scale observations) specs
        (passed-met scale observations) in
    let lengths = length-map specs check in ground arith
