-- ===== src/Prelude/Action.antt =====
-- An `async` function over a state: the call may throw, and what was written before stays written.
use mathlib.Core.Bool.{Bool, true, false}
use mathlib.Core.Option.{Option, none, some}
use mathlib.Core.Path.{◌≡◌}
use mathlib.Core.Logic.{inl, inr}
use native.Mathlib.Omega.{arith}
use research_crafters.Prelude.Tests.{Option-cases, if◌then◌else◌}

-- The value is none where the call throws.
abbrev pub Action : Type 0 → Type 0 → Type 0
Action S A = S → Option A × S

module _ {S A : Type 0} where
  abbrev pub pure : A → Action S A
  pure a s = (some a, s)

  abbrev pub throw : Action S A
  throw s = (none, s)

  abbrev pub gets : (S → A) → Action S A
  gets f s = (some (f s), s)

  abbrev pub or_throw : Option A → Action S A
  or_throw none = throw
  or_throw (some a) = pure a

  -- `if (c) return x; …`
  abbrev pub return_if : Bool → Action S A → Action S A → Action S A
  return_if true early rest = early
  return_if false early rest = rest

infixl 5 ◌>>=◌ ◌>>◌
abbrev pub ◌>>=◌ : {S A B : Type 0} → Action S A → (A → Action S B) → Action S B
◌>>=◌ m f s = let (r, s') = m s in elim r [ some a ↦ f a s' | none ↦ throw s' ]

abbrev pub ◌>>◌ : {S A B : Type 0} → Action S A → Action S B → Action S B
m >> k = m >>= λ _. k

-- An awaited call that throws, or writes.
abbrev pub attempt : {S : Type 0} → Bool → (S → S) → Action S Unit
attempt fails f s = if fails then (none, s) else (some tt, f s)

-- What an action does to the state stays within a relation.
unfoldable pub Within {κ} : {S A : Type 0} → (S → S → Type κ) → Action S A → Type κ
Within {S = S} R m = (s : S) → R s (m s).1

-- A step within a transitive relation, then a rest within it.
pub Within-bind {κ} :
    {S A B : Type 0} (R : S → S → Type κ)
    → ((s s' s'' : S) → R s s' → R s' s'' → R s s'')
    → (m : Action S A) (k : A → Action S B) → Within R m
    → ((a : A) → Within R (k a))
    → Within R (m >>= k)
unfolding Within
Within-bind R trans m k first rest s = elim (Option-cases (m s).0) [
  | inl threw ↦ let path : (m >>= k) s ≡ (none, (m s).1) = ground arith in rw path (first s)
  | inr (a, went) ↦
      let path : (m >>= k) s ≡ k a (m s).1 = ground arith in
      rw path (trans s (m s).1 (k a (m s).1).1 (first s) (rest a (m s).1))
]

-- A sequence that returns has returned from its first part.
pub bind-returned :
    {S A B : Type 0} (m : Action S A) (k : A → Action S B) (s : S) (b : B)
    → ((m >>= k) s).0 ≡ some b
    → (a : A) × ((m s).0 ≡ some a) × ((k a (m s).1).0 ≡ some b)
bind-returned m k s b h = elim (Option-cases (m s).0) [
  | inl threw ↦ absurd (ground (arith, h))
  | inr (a, went) ↦ (a, went, ground (arith, h))
]

-- Whatever an action returns satisfies a predicate.
unfoldable pub Returns {κ} : {S A : Type 0} → (A → Type κ) → Action S A → Type κ
Returns {S = S} {A = A} P m = (s : S) (a : A) → (m s).0 ≡ some a → P a

pub Returns-bind {κ} :
    {S A B : Type 0} (P : B → Type κ) (m : Action S A) (k : A → Action S B)
    → ((a : A) → Returns P (k a))
    → Returns P (m >>= k)
unfolding Returns
Returns-bind P m k rest s b h = let (a, _, h') = bind-returned m k s b h in rest a (m s).1 b h'
