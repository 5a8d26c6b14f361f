-- ===== src/Evaluator/Numeric/Values.antt =====
-- packages/evaluator-sdk/src/numeric.ts: the values, the specifications and the results, shapes, and
-- the walk over pairs of leaves.
use research_crafters.Prelude.{
  Bool, List, Option, String, [], false, if◌then◌else◌, nat_eq, none, some, string_eq, suc, true, ℕ,
  ◌&&◌, ◌==◌, ◌∷◌,
}
use research_crafters.Prelude.Number.{Number}

-- `number | NumericValue[]`
mutual
  pub data NumericValue : Type 0 where
    num : Number → NumericValue
    arr : NumericValues → NumericValue

  pub data NumericValues : Type 0 where
    nil : NumericValues
    cons : NumericValue → NumericValues → NumericValues

pub record NumericTolerance : Type 0 where
  pub absolute : Option Number
  pub relative : Option Number

pub record NumericCheckSpec : Type 0 where
  pub id : String
  pub expected : NumericValue
  pub tolerance : NumericTolerance
  pub unit : Option String
  pub shape : Option (List ℕ)

pub data FailureReason : Type 0 where
  unit_mismatch shape_mismatch value_mismatch missing not_finite spec_invalid : FailureReason

pub record NumericObservation : Type 0 where
  pub value : Option NumericValue
  pub observed_as : Option String

-- A quotient of two absolute values, the second one not zero.
pub record Ratio : Type 0 where
  pub over : ℕ
  pub under : ℕ

pub record Residuals : Type 0 where
  pub max_abs : ℕ
  pub max_rel : Option Ratio

pub record NumericCheckResult : Type 0 where
  pub check_id : String
  pub passed : Bool
  pub residuals : Option Residuals
  pub observed_shape : Option (List ℕ)
  pub observed_unit : Option String
  pub reason : Option FailureReason

pub record NumericCheckBatch : Type 0 where
  pub batch_passed : Bool
  pub results : List NumericCheckResult
  pub passed_count : ℕ

-- The length of an array.
unfoldable pub count : NumericValues → ℕ
count nil = 0
count (cons x xs) = suc (count xs)

-- `inferShape`
unfoldable mutual
  pub infer_shape : NumericValue → List ℕ
  infer_shape (num x) = []
  infer_shape (arr xs) = count xs ∷ infer_first xs

  pub infer_first : NumericValues → List ℕ
  infer_first nil = []
  infer_first (cons x xs) = infer_shape x

abbrev pub is_number : NumericValue → Bool
is_number (num x) = true
is_number (arr xs) = false

-- `isUniformShape`, on what is left of the shape at this depth.
unfoldable mutual
  pub is_uniform_shape : NumericValue → List ℕ → Bool
  is_uniform_shape v [] = is_number v
  is_uniform_shape (num x) (n ∷ s) = false
  is_uniform_shape (arr xs) (n ∷ s) = count xs == n && all_uniform xs s

  pub all_uniform : NumericValues → List ℕ → Bool
  all_uniform nil s = true
  all_uniform (cons x xs) s = is_uniform_shape x s && all_uniform xs s

-- `shapesEqual`
unfoldable pub shapes_equal : List ℕ → List ℕ → Bool
shapes_equal [] [] = true
shapes_equal (m ∷ a) (n ∷ b) = m == n && shapes_equal a b
shapes_equal _ _ = false

-- `walkPairs`, with the residuals that the visits gather.
unfoldable mutual
  pub walk_pairs :
      (Number → Number → Residuals → Option FailureReason × Residuals)
      → NumericValue
      → NumericValue
      → Residuals
      → Option FailureReason × Residuals
  walk_pairs visit (num o) (num e) r = visit o e r
  walk_pairs visit (arr os) (arr es) r =
      let (found, r') = walk_items visit os es r in
      if count os == count es then (found, r') else (some shape_mismatch, r)
  walk_pairs visit (num o) (arr es) r = (some shape_mismatch, r)
  walk_pairs visit (arr os) (num e) r = (some shape_mismatch, r)

  pub walk_items :
      (Number → Number → Residuals → Option FailureReason × Residuals)
      → NumericValues
      → NumericValues
      → Residuals
      → Option FailureReason × Residuals
  walk_items visit nil es r = (none, r)
  walk_items visit (cons o os) nil r = (some shape_mismatch, r)
  walk_items visit (cons o os) (cons e es) r =
      let (found, r') = walk_pairs visit o e r in
      let rest = walk_items visit os es r' in elim found [ some f ↦ (some f, r') | none ↦ rest ]
