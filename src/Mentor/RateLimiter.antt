-- ===== src/Mentor/RateLimiter.antt =====
-- apps/web/lib/mentor/rate-limiter.ts: `InMemoryMentorRateLimiter`. A `Map` of windows is a
-- dictionary of lists of hit times, oldest first; times are milliseconds. The code's
-- `ts <= cutoff`, where `cutoff = now - windowMs` may be negative, is `ts + window_ms ≤ now`.
pub mod Pruning
pub mod History
pub mod Refinement
pub mod Bounds
use research_crafters.Prelude.{
  List, Option, String, [], drop, if◌then◌else◌, leb, length, ltb, max, none, some, suc, ℕ, ◌++ₛ◌,
  ◌++◌, ◌+◌, ◌-◌, ◌/◌, ◌||◌, ◌∷◌,
}
use research_crafters.Prelude.Dict.{Dict, insert, lookup}

pub record LimiterConfig : Type 0 where
  pub per_user_limit : ℕ
  pub per_user_package_limit : ℕ
  pub window_ms : ℕ

pub record Limiter : Type 0 where
  pub per_user : Dict (List ℕ)
  pub per_user_package : Dict (List ℕ)

pub record CheckInput : Type 0 where
  pub user_id : String
  pub package_id : String

pub data RateLimitScope : Type 0 where
  per_user_scope per_user_package_scope : RateLimitScope

pub data RateLimitDecision : Type 0 where
  allowed : RateLimitDecision
  refused : RateLimitScope → ℕ → RateLimitDecision

-- The constructor's checks and the fresh maps.
abbrev pub empty_limiter : Limiter
empty_limiter = record { per_user = []; per_user_package = [] }

unfoldable pub new_limiter : LimiterConfig → Option Limiter
new_limiter c =
    if leb c.per_user_limit 0 || leb c.per_user_package_limit 0
    then none
    else if leb c.window_ms 0
    then none
    else some empty_limiter

-- The loop of `prune`: how many leading hits are at or before the cutoff.
unfoldable pub stale_count : ℕ → ℕ → List ℕ → ℕ
stale_count window now [] = 0
stale_count window now (ts ∷ hits) =
    let more = stale_count window now hits in if leb (ts + window) now then suc more else 0

-- `prune(window, cutoff)`
unfoldable pub prune : ℕ → ℕ → List ℕ → List ℕ
unfolding stale_count
prune window now hits = let n = stale_count window now hits in if ltb 0 n then drop n hits else hits

-- `Math.ceil(ms / 1000)`
abbrev pub ceil_seconds : ℕ → ℕ
ceil_seconds ms = (ms + 999) / 1000

unfoldable pub retry_after : ℕ → ℕ → List ℕ → ℕ
retry_after window now [] = 0
retry_after window now (oldest ∷ hits) = max 1 (ceil_seconds (oldest + window - now))

-- `getWindow`: the hits of a key, and the map with an entry for it.
unfoldable pub get_window : Dict (List ℕ) → String → List ℕ × Dict (List ℕ)
get_window m key = elim (lookup m key) [ some hits ↦ (hits, m) | none ↦ ([], insert m key []) ]

abbrev pub pair_key : CheckInput → String
pair_key i = i.user_id ++ₛ "::" ++ₛ i.package_id

-- Both windows fetched and pruned in place.
abbrev pub pruned : LimiterConfig → ℕ → Dict (List ℕ) → String → List ℕ × Dict (List ℕ)
pruned c now m key =
    let (hits, m') = get_window m key in
    let kept = prune c.window_ms now hits in (kept, insert m' key kept)

-- `InMemoryMentorRateLimiter.check`
unfoldable pub check : LimiterConfig → ℕ → CheckInput → Limiter → RateLimitDecision × Limiter
check c now i s =
    let (user_hits, users) = pruned c now s.per_user i.user_id in
    let (pair_hits, pairs) = pruned c now s.per_user_package (pair_key i) in
    let s' : Limiter = record { per_user = users; per_user_package = pairs } in
    if leb c.per_user_package_limit (length pair_hits)
    then (refused per_user_package_scope (retry_after c.window_ms now pair_hits), s')
    else if leb c.per_user_limit (length user_hits)
    then (refused per_user_scope (retry_after c.window_ms now user_hits), s')
    else (
      allowed,
      record {
        per_user = insert users i.user_id (user_hits ++ now ∷ []);
        per_user_package = insert pairs (pair_key i) (pair_hits ++ now ∷ []);
      },
    )

-- `reset`
unfoldable pub reset : Limiter → Limiter
reset s = empty_limiter
