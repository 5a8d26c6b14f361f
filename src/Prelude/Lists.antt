-- ===== src/Prelude/Lists.antt =====
-- Lists measured by native numbers, with Boolean tests, and predicates by recursion.
use Prim.Native.Nat.{ℕ, zero, suc, ◌+◌, ◌≤◌, min}
use mathlib.Core.Path.{◌≡◌, refl, ap}
use mathlib.Core.Bool.{Bool, true, false, ◌&&◌, ◌||◌}
use mathlib.Core.Logic.{inl, inr, ◌↔◌}
use mathlib.Core.List.{List, [], ◌∷◌, ◌++◌, map}
use native.Mathlib.Omega.{arith}
use research_crafters.Prelude.Tests.{Bool-cases, StrictEq, if◌then◌else◌, nat_eq, string_eq, ◌==◌}

module _ {ℓ} {A : Type ℓ} where
  abbrev pub length : List A → ℕ
  length [] = 0
  length (x ∷ xs) = suc (length xs)

  -- `xs.filter(p)`, with a Boolean test.
  abbrev pub filter : (A → Bool) → List A → List A
  filter p [] = []
  filter p (x ∷ xs) = if p x then x ∷ filter p xs else filter p xs

  -- `xs.some(p)`
  abbrev pub any : (A → Bool) → List A → Bool
  any p [] = false
  any p (x ∷ xs) = p x || any p xs

  -- `xs.every(p)`
  abbrev pub all : (A → Bool) → List A → Bool
  all p [] = true
  all p (x ∷ xs) = p x && all p xs

  abbrev pub drop : ℕ → List A → List A
  drop zero xs = xs
  drop (suc n) [] = []
  drop (suc n) (x ∷ xs) = drop n xs

  pub all-congr : (p q : A → Bool) (xs : List A) → ((x : A) → p x ≡ q x) → all p xs ≡ all q xs
  all-congr p q [] h = refl
  all-congr p q (x ∷ xs) h = ground (arith, h x, all-congr p q xs h)

  pub length-append : (xs ys : List A) → length (xs ++ ys) ≡ length xs + length ys
  length-append [] ys = omega arith
  length-append (x ∷ xs) ys = omega (arith, length-append xs ys)

  pub length-filter : (p : A → Bool) (xs : List A) → length (filter p xs) ≤ length xs
  length-filter p [] = omega arith
  length-filter p (x ∷ xs) = ground (arith, length-filter p xs)

  abbrev pub drop_while : (A → Bool) → List A → List A
  drop_while p [] = []
  drop_while p (x ∷ xs) = if p x then drop_while p xs else x ∷ xs

  -- A weaker test drops at least as much.
  pub drop_while-drop_while :
      (p q : A → Bool)
      → ((x : A) → p x ≡ true → q x ≡ true)
      → (xs : List A) → drop_while q (drop_while p xs) ≡ drop_while q xs
  drop_while-drop_while p q h [] = refl
  drop_while-drop_while p q h (x ∷ xs) = ground (arith, h x, drop_while-drop_while p q h xs)

  abbrev add_last : (A → Bool) → List A → A → List A
  add_last p [] x = drop_while p (x ∷ [])
  add_last p (y ∷ ys) x = y ∷ ys ++ x ∷ []

  drop_while-append :
      (p : A → Bool) (xs : List A) (x : A)
      → drop_while p (xs ++ x ∷ []) ≡ add_last p (drop_while p xs) x
  drop_while-append p [] x = refl
  drop_while-append p (y ∷ xs) x = ground (arith, drop_while-append p xs x)

  -- Lists that agree once dropped from agree so with the same element at the end.
  pub drop_while-append_congr :
      (p : A → Bool) (xs ys : List A) (x : A)
      → drop_while p xs ≡ drop_while p ys
      → drop_while p (xs ++ x ∷ []) ≡ drop_while p (ys ++ x ∷ [])
  drop_while-append_congr p xs ys x h = simp drop_while-append (ap (λ l. add_last p l x) h)

  pub any-append : (p : A → Bool) (xs ys : List A) → any p (xs ++ ys) ≡ (any p xs || any p ys)
  any-append p [] ys = refl
  any-append p (x ∷ xs) ys = ground (arith, any-append p xs ys)

  -- Dropping elements that fail `p` does not change whether one passes.
  pub any-filter :
      (p q : A → Bool)
      → ((x : A) → p x ≡ true → q x ≡ true)
      → (xs : List A) → any p (filter q xs) ≡ any p xs
  any-filter p q h [] = refl
  any-filter p q h (x ∷ xs) = ground (arith, h x, any-filter p q h xs)

-- A list in the order of its times, which lie between two bounds.
module _ {ℓ} {A : Type ℓ} (time : A → ℕ) where
  abbrev pub Ordered : ℕ → ℕ → List A → Type 0
  Ordered from until [] = from ≤ until
  Ordered from until (x ∷ xs) = (from ≤ time x) × Ordered (time x) until xs

  pub Ordered-append :
      (from until : ℕ) (xs : List A) (x : A)
      → Ordered from until xs
      → until ≤ time x
      → Ordered from (time x) (xs ++ x ∷ [])
  Ordered-append from until [] x o le = (omega arith, omega arith)
  Ordered-append from until (y ∷ xs) x (le, o) later =
      (le, Ordered-append (time y) until xs x o later)

  pub Ordered-later :
      (from until later : ℕ) (xs : List A)
      → Ordered from until xs
      → until ≤ later
      → Ordered from later xs
  Ordered-later from until later [] o le = omega arith
  Ordered-later from until later (y ∷ xs) (p, o) le =
      (p, Ordered-later (time y) until later xs o le)

module _ {ℓ κ} {A : Type ℓ} where
  abbrev pub All : (A → Type κ) → List A → Type κ
  All P [] = Unit
  All P (x ∷ xs) = P x × All P xs

  pub All-append :
      (P : A → Type κ) (front back : List A) → All P front → All P back → All P (front ++ back)
  All-append P [] back p q = q
  All-append P (a ∷ front) back (first, rest) q = (first, All-append P front back rest q)

  pub All-filter : (P : A → Type κ) (p : A → Bool) (xs : List A) → All P xs → All P (filter p xs)
  All-filter P p [] h = h
  All-filter P p (x ∷ xs) (first, rest) = elim (Bool-cases (p x)) [
    | inl kept ↦ rw kept (first, All-filter P p xs rest)
    | inr left ↦ rw left (All-filter P p xs rest)
  ]

  pub All-map : (P Q : A → Type κ) (xs : List A) → ((x : A) → P x → Q x) → All P xs → All Q xs
  All-map P Q [] f h = h
  All-map P Q (x ∷ xs) f (first, rest) = (f x first, All-map P Q xs f rest)

  pub All-both : (P Q : A → Type κ) (xs : List A) → All P xs → All Q xs → All (λ x. P x × Q x) xs
  All-both P Q [] p q = tt
  All-both P Q (x ∷ xs) (p, ps) (q, qs) = ((p, q), All-both P Q xs ps qs)

  -- What holds of a filtered list holds of the elements that pass.
  pub All-of_filter :
      (P : A → Type κ) (p : A → Bool) (xs : List A)
      → All P (filter p xs)
      → All (λ x. p x ≡ true → P x) xs
  All-of_filter P p [] h = h
  All-of_filter P p (x ∷ xs) h = elim (Bool-cases (p x)) [
    | inl kept ↦ let h' = rw kept at h in (λ _. h'.0, All-of_filter P p xs h'.1)
    | inr left ↦ (λ e. absurd (ground (arith, e, left)), All-of_filter P p xs (rw left at h))
  ]

  pub length-map : {B : Type κ} (xs : List A) (f : A → B) → length (map f xs) ≡ length xs
  length-map [] f = refl
  length-map (x ∷ xs) f = ap suc (length-map xs f)

module _ {ℓ} {A : Type ℓ} ⦃e : StrictEq A⦄ where
  -- `xs.includes(a)`, `new Set(xs).has(a)`
  abbrev pub contains : List A → A → Bool
  contains [] a = false
  contains (x ∷ xs) a = x == a || contains xs a

module _ {ℓ} {A : Type ℓ} where
  abbrev pub take : ℕ → List A → List A
  take zero xs = []
  take (suc n) [] = []
  take (suc n) (x ∷ xs) = x ∷ take n xs

  pub length-take : (n : ℕ) (xs : List A) → length (take n xs) ≡ min n (length xs)
  length-take zero xs = omega arith
  length-take (suc n) [] = omega arith
  length-take (suc n) (x ∷ xs) = omega (arith, length-take n xs)

  pub take_all : (n : ℕ) (xs : List A) → length xs ≤ n → take n xs ≡ xs
  take_all zero [] le = refl
  take_all zero (x ∷ xs) le = absurd (omega (arith, le))
  take_all (suc n) [] le = refl
  take_all (suc n) (x ∷ xs) le = ap (λ r. x ∷ r) (take_all n xs (omega (arith, le)))

module _ {ℓ κ} {A : Type ℓ} where
  pub All-take : (P : A → Type κ) (n : ℕ) (xs : List A) → All P xs → All P (take n xs)
  All-take P zero xs h = tt
  All-take P (suc n) [] h = tt
  All-take P (suc n) (x ∷ xs) (first, rest) = (first, All-take P n xs rest)

  -- What holds of the elements that pass holds of the filtered list.
  pub All-passing :
      (P : A → Type κ) (p : A → Bool) (xs : List A)
      → All (λ x. p x ≡ true → P x) xs
      → All P (filter p xs)
  All-passing P p [] h = tt
  All-passing P p (x ∷ xs) (first, rest) = elim (Bool-cases (p x)) [
    | inl kept ↦ rw kept (first kept, All-passing P p xs rest)
    | inr left ↦ rw left (All-passing P p xs rest)
  ]

module _ {ℓ} {A : Type ℓ} where
  pub All-filtered : (p : A → Bool) (xs : List A) → All (λ x. p x ≡ true) (filter p xs)
  All-filtered p [] = tt
  All-filtered p (x ∷ xs) = elim (Bool-cases (p x)) [
    | inl kept ↦ rw kept (kept, All-filtered p xs)
    | inr left ↦ rw left (All-filtered p xs)
  ]

abbrev pub codes_equal : List ℕ → List ℕ → Bool
codes_equal [] [] = true
codes_equal (m ∷ a) (n ∷ b) = m == n && codes_equal a b
codes_equal _ _ = false

pub codes_equal_iff : (a b : List ℕ) → (codes_equal a b ≡ true) ↔ (a ≡ b)
codes_equal_iff [] [] = ground arith
codes_equal_iff [] (n ∷ b) = ground arith
codes_equal_iff (m ∷ a) [] = ground arith
codes_equal_iff (m ∷ a) (n ∷ b) = ground (arith, codes_equal_iff a b)

-- Texts as the lists of their character codes.
instance abbrev pub codes_eq : StrictEq (List ℕ)
codes_eq = record { equals = codes_equal; equals_iff = codes_equal_iff }
