-- ===== src/Mentor/RateLimiter/History.antt =====
-- The limiter's specification: a log of every admitted request, and a decision by counting in it.
use research_crafters.Prelude.{
  Bool-cases, List, Option, Ordered, String, [], arith, filter, if◌then◌else◌, inl, inr, leb,
  length, nat_eq, none, some, string_eq, ℕ, ◌++◌, ◌==◌, ◌∷◌, ◌≡◌, ◌≤◌,
}
use research_crafters.Mentor.RateLimiter.{
  CheckInput, LimiterConfig, RateLimitScope, pair_key, per_user_package_scope, per_user_scope,
}
use research_crafters.Mentor.RateLimiter.Pruning.{SortedFrom, is_recent}

-- An admitted request.
pub record Hit : Type 0 where
  pub time : ℕ
  pub user : String
  pub pair : String

abbrev pub hit_of : ℕ → CheckInput → Hit
hit_of now i = record { time = now; user = i.user_id; pair = pair_key i }

-- The times of the hits of one user, or of one pair; oldest first.
abbrev pub times : (Hit → String) → String → List Hit → List ℕ
times key k [] = []
times key k (h ∷ log) = if key h == k then h.time ∷ times key k log else times key k log

-- How many hits of `k` lie in the window that ends now.
abbrev pub recent : ℕ → ℕ → (Hit → String) → String → List Hit → ℕ
recent window now key k log = length (filter (is_recent window now) (times key k log))

-- The scope that trips, if any.
unfoldable pub spec_check : LimiterConfig → ℕ → CheckInput → List Hit → Option RateLimitScope
spec_check c now i log =
    if leb c.per_user_package_limit (recent c.window_ms now (λ h. h.pair) (pair_key i) log)
    then some per_user_package_scope
    else if leb c.per_user_limit (recent c.window_ms now (λ h. h.user) i.user_id log)
    then some per_user_scope
    else none

-- Only an admitted request enters the log.
abbrev pub spec_log : ℕ → CheckInput → Option RateLimitScope → List Hit → List Hit
spec_log now i none log = log ++ hit_of now i ∷ []
spec_log now i (some scope) log = log

SortedFrom-weaken :
    (from start : ℕ) (xs : List ℕ) → start ≤ from → SortedFrom from xs → SortedFrom start xs
SortedFrom-weaken from start [] le s = tt
SortedFrom-weaken from start (x ∷ xs) le (p, s) = (omega arith, s)

-- The times of one key are in order when the log is.
pub times-SortedFrom :
    (key : Hit → String) (k : String) (from until : ℕ) (log : List Hit)
    → Ordered (λ h. h.time) from until log
    → SortedFrom from (times key k log)
times-SortedFrom key k from until [] o = tt
times-SortedFrom key k from until (h ∷ log) (p, o) = elim (Bool-cases (key h == k)) [
  | inl same ↦ rw same (p, times-SortedFrom key k h.time until log o)
  | inr other ↦
      rw other (SortedFrom-weaken h.time from _ p (times-SortedFrom key k h.time until log o))
]

pub times-append :
    (key : Hit → String) (k : String) (log : List Hit) (h : Hit)
    → times key k (log ++ h ∷ [])
      ≡ (if key h == k then times key k log ++ h.time ∷ [] else times key k log)
times-append key k [] h = ground arith
times-append key k (x ∷ log) h = ground (arith, times-append key k log h)
