-- ===== src/Mentor/RateLimiter/Pruning.antt =====
-- `prune` as dropping the stale prefix, and how it meets time and new hits.
use research_crafters.Prelude.{
  Bool, List, [], arith, drop, drop_while, drop_while-append_congr, drop_while-drop_while, filter,
  leb, length, ltb, refl, sym, ℕ, ◌++◌, ◌+◌, ◌<◌, ◌∙◌, ◌∷◌, ◌≡◌, ◌≤◌,
}
use research_crafters.Mentor.RateLimiter.{prune, stale_count}

-- What is left behind the leading stale hits.
abbrev fresh : ℕ → ℕ → List ℕ → List ℕ
fresh window now = drop_while (λ ts. leb (ts + window) now)

stale_count-drop :
    (window now : ℕ) (hits : List ℕ)
    → drop (stale_count window now hits) hits ≡ fresh window now hits
unfolding stale_count
stale_count-drop window now [] = refl
stale_count-drop window now (ts ∷ hits) = ground (arith, stale_count-drop window now hits)

prune-eq-fresh : (window now : ℕ) (hits : List ℕ) → prune window now hits ≡ fresh window now hits
unfolding prune
prune-eq-fresh window now hits = ground (arith, stale_count-drop window now hits)

-- Pruning now changes nothing for a later pruning.
pub prune-prune :
    (window now later : ℕ) (hits : List ℕ)
    → now ≤ later
    → prune window later (prune window now hits) ≡ prune window later hits
prune-prune window now later hits h = simp prune-eq-fresh (
    drop_while-drop_while (λ ts. leb (ts + window) now) (λ ts. leb (ts + window) later)
      (λ ts e. ground arith) hits)

-- Two windows that agree after a pruning agree after it when both get the same hit.
pub prune-append :
    (window now : ℕ) (hits others : List ℕ) (x : ℕ)
    → prune window now hits ≡ prune window now others
    → prune window now (hits ++ x ∷ []) ≡ prune window now (others ++ x ∷ [])
prune-append window now hits others x h = simp prune-eq-fresh (
    drop_while-append_congr (λ ts. leb (ts + window) now) hits others x
      (sym (prune-eq-fresh window now hits) ∙ h ∙ prune-eq-fresh window now others))

-- Times in order, the first at `from` or later.
abbrev pub SortedFrom : ℕ → List ℕ → Type 0
SortedFrom from [] = Unit
SortedFrom from (x ∷ xs) = (from ≤ x) × SortedFrom x xs

abbrev pub is_recent : ℕ → ℕ → ℕ → Bool
is_recent window now ts = ltb now (ts + window)

filter-recent_all :
    (window now from : ℕ) (hits : List ℕ)
    → now < from + window
    → SortedFrom from hits
    → filter (is_recent window now) hits ≡ hits
filter-recent_all window now from [] h s = refl
filter-recent_all window now from (x ∷ hits) h (le, s) =
    ground (arith, filter-recent_all window now x hits (omega arith) s)

fresh-eq-filter :
    (window now from : ℕ) (hits : List ℕ)
    → SortedFrom from hits
    → fresh window now hits ≡ filter (is_recent window now) hits
fresh-eq-filter window now from [] s = refl
fresh-eq-filter window now from (x ∷ hits) (le, s) =
    ground (arith, fresh-eq-filter window now x hits s, filter-recent_all window now x hits _ s)

-- On times in order, dropping the stale prefix keeps exactly the hits inside the window.
pub prune-eq-filter :
    (window now from : ℕ) (hits : List ℕ)
    → SortedFrom from hits
    → prune window now hits ≡ filter (is_recent window now) hits
prune-eq-filter window now from hits s =
    prune-eq-fresh window now hits ∙ fresh-eq-filter window now from hits s

fresh-head :
    (window now : ℕ) (hits : List ℕ) (x : ℕ) (rest : List ℕ)
    → fresh window now hits ≡ x ∷ rest
    → now < x + window
fresh-head window now [] x rest h = cc
fresh-head window now (y ∷ hits) x rest h = ground (arith, fresh-head window now hits x rest)

-- The oldest hit that a pruning keeps is inside the window.
pub prune-head :
    (window now : ℕ) (hits : List ℕ) (x : ℕ) (rest : List ℕ)
    → prune window now hits ≡ x ∷ rest
    → now < x + window
prune-head window now hits x rest h =
    fresh-head window now hits x rest (sym (prune-eq-fresh window now hits) ∙ h)

length-fresh : (window now : ℕ) (hits : List ℕ) → length (fresh window now hits) ≤ length hits
length-fresh window now [] = omega arith
length-fresh window now (x ∷ hits) = ground (arith, length-fresh window now hits)

-- A pruning that drops the oldest hit leaves fewer.
pub length-prune-lt :
    (window now x : ℕ) (hits : List ℕ)
    → x + window ≤ now
    → length (prune window now (x ∷ hits)) < length (x ∷ hits)
length-prune-lt window now x hits h =
    rw prune-eq-fresh (ground (arith, length-fresh window now hits))

pub prune_keeps :
    (window now x : ℕ) (hits : List ℕ) → now < x + window → prune window now (x ∷ hits) ≡ x ∷ hits
prune_keeps window now x hits h = rw prune-eq-fresh (ground arith)
