-- ===== src/Prelude/Dict.antt =====
-- A JavaScript `Map` with text keys: an association list in insertion order. `set` on a known key
-- writes in place, and on a new key adds at the end.
use mathlib.Core.List.{List, [], ◌∷◌}
use mathlib.Core.Path.{◌≡◌, refl, subst, sym}
use mathlib.Core.Option.{Option, none, some}
use native.Mathlib.Omega.{arith}
use Prim.Native.String.{String}
use text.Mathlib.TextEquality.{eq_iff}
use research_crafters.Prelude.Lists.{All, All-map}
use mathlib.Core.Logic.{inl, inr}
use research_crafters.Prelude.Tests.{Bool-cases, if◌then◌else◌, nat_eq, string_eq, ◌==◌}

abbrev pub Dict {ℓ} : Type ℓ → Type ℓ
Dict V = List (String × V)

module _ {ℓ} {V : Type ℓ} where
  unfoldable pub lookup : Dict V → String → Option V
  lookup [] k = none
  lookup ((j, v) ∷ d) k = if j == k then some v else lookup d k

  unfoldable pub insert : Dict V → String → V → Dict V
  insert [] k v = (k, v) ∷ []
  insert ((j, w) ∷ d) k v = if j == k then (j, v) ∷ d else (j, w) ∷ insert d k v

  unfoldable pub erase : Dict V → String → Dict V
  erase [] k = []
  erase ((j, w) ∷ d) k = let rest = erase d k in if j == k then rest else (j, w) ∷ rest

  pub lookup-insert :
      (d : Dict V) (k j : String) (v : V)
      → lookup (insert d k v) j ≡ (if k == j then some v else lookup d j)
  unfolding lookup insert
  lookup-insert [] k j v = refl
  lookup-insert ((i, w) ∷ d) k j v =
      ground (arith, eq_iff k j, eq_iff i k, eq_iff i j, lookup-insert d k j v)

  pub lookup-erase :
      (d : Dict V) (k j : String) → lookup (erase d k) j ≡ (if k == j then none else lookup d j)
  unfolding lookup erase
  lookup-erase [] k j = ground arith
  lookup-erase ((i, w) ∷ d) k j =
      ground (arith, eq_iff k j, eq_iff i k, eq_iff i j, lookup-erase d k j)

pub ruleset dict_laws = (lookup-insert, lookup-erase)

-- Each entry is the one that its key finds: a table with a unique column.
abbrev pub WellKeyed {ℓ} : {V : Type ℓ} → Dict V → Type ℓ
WellKeyed d = All (λ (r : String × _). lookup d r.0 ≡ some r.1) d

pub All-lookup {ℓ κ} :
    {V : Type ℓ} (P : String × V → Type κ) (d : Dict V) (k : String) (v : V)
    → All P d
    → lookup d k ≡ some v
    → P (k, v)
unfolding lookup
All-lookup P [] k v h e = absurd (ground (arith, e))
All-lookup P ((j, w) ∷ d) k v (first, rest) e = elim (Bool-cases (j == k)) [
  | inl same ↦ let path : (j, w) ≡ (k, v) = ground (arith, eq_iff j k, e) in subst P path first
  | inr other ↦ All-lookup P d k v rest (ground (arith, e))
]

-- No key twice.
abbrev pub KeysDistinct {ℓ} : {V : Type ℓ} → Dict V → Type ℓ
KeysDistinct [] = Unit
KeysDistinct ((k, v) ∷ d) = (lookup d k ≡ none) × KeysDistinct d

pub KeysDistinct-insert {ℓ} :
    {V : Type ℓ} (d : Dict V) (k : String) (v : V) → KeysDistinct d → KeysDistinct (insert d k v)
unfolding insert lookup
KeysDistinct-insert [] k v h = (ground arith, h)
KeysDistinct-insert ((j, w) ∷ d) k v (fresh, rest) = elim (Bool-cases (j == k)) [
  | inl same ↦ rw same (fresh, rest)
  | inr other ↦ rw other (
    ground (arith, lookup-insert d k j v, eq_iff j k, eq_iff k j),
    KeysDistinct-insert d k v rest,
  )
]

pub KeysDistinct-WellKeyed {ℓ} : {V : Type ℓ} (d : Dict V) → KeysDistinct d → WellKeyed d
unfolding lookup
KeysDistinct-WellKeyed [] h = tt
KeysDistinct-WellKeyed ((k, v) ∷ d) (fresh, rest) = (
  ground (arith, eq_iff k k),
  All-map (λ r. lookup d r.0 ≡ some r.1) (λ r. lookup ((k, v) ∷ d) r.0 ≡ some r.1) d
      (λ (j, w) at. ground (arith, at, fresh, eq_iff k j)) (KeysDistinct-WellKeyed d rest),
)

pub All-insert {ℓ κ} :
    {V : Type ℓ} (P : String × V → Type κ) (d : Dict V) (k : String) (v : V)
    → All P d
    → P (k, v)
    → All P (insert d k v)
unfolding insert
All-insert P [] k v h p = (p, tt)
All-insert P ((j, w) ∷ d) k v (first, rest) p = elim (Bool-cases (j == k)) [
  | inl same ↦
      let path : j ≡ k = ground (arith, eq_iff j k) in
      rw same (subst (λ i. P (i, v)) (sym path) p, rest)
  | inr other ↦ rw other (first, All-insert P d k v rest p)
]
