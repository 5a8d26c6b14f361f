-- ===== src/Evaluator/Numeric/Shapes.antt =====
-- Values that are close leaf by leaf, and their shapes.
use research_crafters.Prelude.{
  Bool, List, Option-cases, [], ap, arith, false, inl, inr, is_some, nat_eq, not, refl, string_eq,
  suc, true, ℕ, ◌&&◌, ◌==◌, ◌↔◌, ◌∷◌, ◌≡◌,
}
use research_crafters.Prelude.Number.{Number, int, nan, neg_inf, pos_inf}
use research_crafters.Evaluator.Numeric.{
  NumericTolerance, NumericValue, NumericValues, Residuals, all_uniform, arr, cons, count,
  infer_first, infer_shape, is_uniform_shape, nil, num, shapes_equal, visit_leaf, walk_items,
  walk_pairs, within,
}

-- Two leaves: finite, and as near as the tolerance says.
abbrev pub close_leaf : ℕ → NumericTolerance → Number → Number → Bool
close_leaf scale tol (int o) (int e) = within scale tol o e
close_leaf scale tol _ _ = false

-- Values of the same form with close leaves.
unfoldable mutual
  pub close : ℕ → NumericTolerance → NumericValue → NumericValue → Bool
  close scale tol (num o) (num e) = close_leaf scale tol o e
  close scale tol (arr os) (arr es) = close_items scale tol os es
  close scale tol (num o) (arr es) = false
  close scale tol (arr os) (num e) = false

  pub close_items : ℕ → NumericTolerance → NumericValues → NumericValues → Bool
  close_items scale tol nil nil = true
  close_items scale tol (cons o os) (cons e es) = close scale tol o e && close_items scale tol os es
  close_items scale tol nil (cons e es) = false
  close_items scale tol (cons o os) nil = false

visit_leaf-fails :
    (scale : ℕ) (tol : NumericTolerance) (o e : Number) (r : Residuals)
    → not (is_some (visit_leaf scale tol o e r).0) ≡ close_leaf scale tol o e
unfolding visit_leaf
visit_leaf-fails scale tol (int o) (int e) r = ground arith
visit_leaf-fails scale tol (int o) nan r = refl
visit_leaf-fails scale tol (int o) pos_inf r = refl
visit_leaf-fails scale tol (int o) neg_inf r = refl
visit_leaf-fails scale tol nan e r = refl
visit_leaf-fails scale tol pos_inf e r = refl
visit_leaf-fails scale tol neg_inf e r = refl

mutual
  unfolding walk_pairs close count

  pub walk_pairs-close :
      (scale : ℕ) (tol : NumericTolerance) (o e : NumericValue) (r : Residuals)
      → not (is_some (walk_pairs (visit_leaf scale tol) o e r).0) ≡ close scale tol o e
  walk_pairs-close scale tol (num o) (num e) r = visit_leaf-fails scale tol o e r
  walk_pairs-close scale tol (num o) (arr es) r = refl
  walk_pairs-close scale tol (arr os) (num e) r = refl
  walk_pairs-close scale tol (arr os) (arr es) r =
      ground (arith, walk_items-close scale tol os es r, close_items-count scale tol os es)

  walk_items-close :
      (scale : ℕ) (tol : NumericTolerance) (os es : NumericValues) (r : Residuals)
      → (not (is_some (walk_items (visit_leaf scale tol) os es r).0) && count os == count es)
        ≡ close_items scale tol os es
  walk_items-close scale tol nil nil r = refl
  walk_items-close scale tol nil (cons e es) r = ground arith
  walk_items-close scale tol (cons o os) nil r = refl
  walk_items-close scale tol (cons o os) (cons e es) r =
      let step = walk_pairs (visit_leaf scale tol) o e r in
      elim (Option-cases step.0) [
        | inl fine ↦
            ground
              (arith, walk_pairs-close scale tol o e r, walk_items-close scale tol os es step.1)
        | inr (f, fails) ↦ ground (arith, walk_pairs-close scale tol o e r)
      ]

  pub close_items-count :
      (scale : ℕ) (tol : NumericTolerance) (os es : NumericValues)
      → close_items scale tol os es ≡ true
      → count os ≡ count es
  close_items-count scale tol nil nil h = refl
  close_items-count scale tol nil (cons e es) h = absurd (ground (arith, h))
  close_items-count scale tol (cons o os) nil h = absurd (ground (arith, h))
  close_items-count scale tol (cons o os) (cons e es) h =
      ap suc (close_items-count scale tol os es (ground (arith, h)))

mutual
  unfolding close infer_shape

  pub close-shape :
      (scale : ℕ) (tol : NumericTolerance) (o e : NumericValue)
      → close scale tol o e ≡ true
      → infer_shape o ≡ infer_shape e
  close-shape scale tol (num o) (num e) h = refl
  close-shape scale tol (num o) (arr es) h = absurd (ground (arith, h))
  close-shape scale tol (arr os) (num e) h = absurd (ground (arith, h))
  close-shape scale tol (arr os) (arr es) h =
      let counts = close_items-count scale tol os es h in
      let firsts = close_items-first scale tol os es h in ground arith

  close_items-first :
      (scale : ℕ) (tol : NumericTolerance) (os es : NumericValues)
      → close_items scale tol os es ≡ true
      → infer_first os ≡ infer_first es
  close_items-first scale tol nil nil h = refl
  close_items-first scale tol nil (cons e es) h = absurd (ground (arith, h))
  close_items-first scale tol (cons o os) nil h = absurd (ground (arith, h))
  close_items-first scale tol (cons o os) (cons e es) h =
      close-shape scale tol o e (ground (arith, h))

mutual
  unfolding close is_uniform_shape

  pub close-uniform :
      (scale : ℕ) (tol : NumericTolerance) (o e : NumericValue) (s : List ℕ)
      → close scale tol o e ≡ true
      → is_uniform_shape o s ≡ is_uniform_shape e s
  close-uniform scale tol (num o) (num e) [] h = refl
  close-uniform scale tol (num o) (num e) (n ∷ s) h = refl
  close-uniform scale tol (num o) (arr es) s h = absurd (ground (arith, h))
  close-uniform scale tol (arr os) (num e) s h = absurd (ground (arith, h))
  close-uniform scale tol (arr os) (arr es) [] h = refl
  close-uniform scale tol (arr os) (arr es) (n ∷ s) h =
      let counts = close_items-count scale tol os es h in
      let items = close_items-uniform scale tol os es s h in ground arith

  close_items-uniform :
      (scale : ℕ) (tol : NumericTolerance) (os es : NumericValues) (s : List ℕ)
      → close_items scale tol os es ≡ true
      → all_uniform os s ≡ all_uniform es s
  close_items-uniform scale tol nil nil s h = refl
  close_items-uniform scale tol nil (cons e es) s h = absurd (ground (arith, h))
  close_items-uniform scale tol (cons o os) nil s h = absurd (ground (arith, h))
  close_items-uniform scale tol (cons o os) (cons e es) s h =
      let first : close scale tol o e ≡ true = ground (arith, h) in
      let rest : close_items scale tol os es ≡ true = ground (arith, h) in
      let heads = close-uniform scale tol o e s first in
      let tails = close_items-uniform scale tol os es s rest in ground arith

pub shapes_equal_iff : (a b : List ℕ) → (shapes_equal a b ≡ true) ↔ (a ≡ b)
unfolding shapes_equal
shapes_equal_iff [] [] = ground arith
shapes_equal_iff [] (n ∷ b) = ground arith
shapes_equal_iff (m ∷ a) [] = ground arith
shapes_equal_iff (m ∷ a) (n ∷ b) = ground (arith, shapes_equal_iff a b)
