-- ===== src/Mentor/RateLimiter/Bounds.antt =====
-- What the limiter promises over a whole run of requests, and what its retry hint is worth.
use research_crafters.Prelude.{
  List, Option-cases, String, [], arith, eq_iff, if◌then◌else◌, inl, inr, leb, length, nat_eq, refl,
  string_eq, suc, ℕ, ◌&&◌, ◌*◌, ◌++◌, ◌+◌, ◌-◌, ◌<◌, ◌==◌, ◌∷◌, ◌≡◌, ◌≤◌,
}
use research_crafters.Mentor.RateLimiter.{
  CheckInput, Limiter, LimiterConfig, RateLimitScope, check, empty_limiter, pair_key,
  per_user_package_scope, per_user_scope, prune, refused, retry_after,
}
use research_crafters.Mentor.RateLimiter.Pruning.{
  is_recent, length-prune-lt, prune-head, prune_keeps,
}
use research_crafters.Mentor.RateLimiter.History.{Hit, hit_of, recent, spec_check, spec_log}
use research_crafters.Mentor.RateLimiter.Refinement.{
  Tracks, Tracks-empty, check-Tracks, get_window-hits, hits_of, tripped,
}

-- A request with the time at which it is checked.
abbrev pub Request : Type 0
Request = ℕ × CheckInput

-- The clock does not run backwards.
abbrev pub Clocked : ℕ → List Request → Type 0
Clocked t [] = Unit
Clocked t ((now, i) ∷ rest) = (t ≤ now) × Clocked now rest

-- The requests are checked one after the other; the admitted ones are logged.
unfoldable pub serve : LimiterConfig → List Request → List Hit → Limiter → List Hit × Limiter
serve c [] log s = (log, s)
serve c ((now, i) ∷ rest) log s =
    let (d, s') = check c now i s in serve c rest (spec_log now i (tripped d) log) s'

-- How many logged requests of `k` fall in the window of `window` milliseconds that ends at `until`.
abbrev pub count_in : ℕ → ℕ → (Hit → String) → String → List Hit → ℕ
count_in window until key k [] = 0
count_in window until key k (h ∷ log) =
    if key h == k && (leb h.time until && is_recent window until h.time)
    then suc (count_in window until key k log)
    else count_in window until key k log

count_in-append :
    (window until : ℕ) (key : Hit → String) (k : String) (log : List Hit) (h : Hit)
    → count_in window until key k (log ++ h ∷ [])
      ≡ count_in window until key k log + count_in window until key k (h ∷ [])
count_in-append window until key k [] h = omega arith
count_in-append window until key k (x ∷ log) h =
    ground (arith, count_in-append window until key k log h)

count_in-le-recent :
    (window now until : ℕ) (key : Hit → String) (k : String) (log : List Hit)
    → now ≤ until
    → count_in window until key k log ≤ recent window now key k log
count_in-le-recent window now until key k [] le = omega arith
count_in-le-recent window now until key k (h ∷ log) le =
    ground (arith, count_in-le-recent window now until key k log le)

-- No key has more than `limit` hits in any window.
abbrev pub IsBounded : ℕ → ℕ → (Hit → String) → List Hit → Type 0
IsBounded window limit key log = (k : String) (until : ℕ) → count_in window until key k log ≤ limit

IsBounded-append :
    (window limit now : ℕ) (key : Hit → String) (log : List Hit) (h : Hit)
    → h.time ≡ now
    → recent window now key (key h) log < limit
    → IsBounded window limit key log
    → IsBounded window limit key (log ++ h ∷ [])
IsBounded-append window limit now key log h e room b k until = ground (
  arith,
  count_in-append window until key k log h,
  b k until,
  eq_iff (key h) k,
  count_in-le-recent window now until key k log,
)

abbrev Bounds : LimiterConfig → List Hit → Type 0
Bounds c log =
    IsBounded c.window_ms c.per_user_limit (λ h. h.user) log
    × IsBounded c.window_ms c.per_user_package_limit (λ h. h.pair) log

spec_log-Bounds :
    (c : LimiterConfig) (now : ℕ) (i : CheckInput) (log : List Hit)
    → Bounds c log
    → Bounds c (spec_log now i (spec_check c now i log) log)
unfolding spec_check
spec_log-Bounds c now i log (bu, bp) = elim (Option-cases (spec_check c now i log)) [
  | inr (scope, e) ↦ rw e (bu, bp)
  | inl e ↦ rw e (
    IsBounded-append c.window_ms c.per_user_limit now (λ h. h.user) log (hit_of now i) refl
        (ground arith) bu,
    IsBounded-append c.window_ms c.per_user_package_limit now (λ h. h.pair) log (hit_of now i) refl
        (ground arith) bp,
  )
]

serve-Bounds :
    (c : LimiterConfig) (t : ℕ) (requests : List Request) (log : List Hit) (s : Limiter)
    → Tracks c t log s
    → Clocked t requests
    → Bounds c log
    → Bounds c (serve c requests log s).0
unfolding serve
serve-Bounds c t [] log s tracks clock b = b
serve-Bounds c t ((now, i) ∷ rest) log s tracks (later, clock) b =
    let (decided, tracks') = check-Tracks c t now i log s tracks later in
    serve-Bounds c now rest _ (check c now i s).1 (rw (← decided) at tracks') clock
      (rw (← decided) at (spec_log-Bounds c now i log b))

-- Sliding windows: however the requests come, as long as the clock does not run backwards, a fresh
-- limiter admits in no window of `window_ms` more than `per_user_limit` requests of one user, and
-- no more than `per_user_package_limit` under one user-package key.
pub serve_bounds :
    (c : LimiterConfig) (requests : List Request)
    → Clocked 0 requests
    → IsBounded c.window_ms c.per_user_limit (λ h. h.user) (serve c requests [] empty_limiter).0
      × IsBounded c.window_ms c.per_user_package_limit
          (λ h. h.pair)
          (serve c requests [] empty_limiter).0
serve_bounds c requests clock =
    serve-Bounds c 0 requests [] empty_limiter (Tracks-empty c 0) clock
      (λ k until. omega arith, λ k until. omega arith)

-- The window that a refusal is about.
abbrev pub scope_window : LimiterConfig → ℕ → CheckInput → Limiter → RateLimitScope → List ℕ
scope_window c now i s per_user_scope = prune c.window_ms now (hits_of s.per_user i.user_id)
scope_window c now i s per_user_package_scope =
    prune c.window_ms now (hits_of s.per_user_package (pair_key i))

-- What a refusal reports: the hint is computed from the window that tripped, and that window is full.
refused_window :
    (c : LimiterConfig) (now : ℕ) (i : CheckInput) (s : Limiter) (scope : RateLimitScope) (r : ℕ)
    → 1 ≤ c.per_user_limit
    → 1 ≤ c.per_user_package_limit
    → (check c now i s).0 ≡ refused scope r
    → (r ≡ retry_after c.window_ms now (scope_window c now i s scope))
      × (1 ≤ length (scope_window c now i s scope))
unfolding check
refused_window c now i s per_user_scope r pu pp h =
    ground (arith, get_window-hits s.per_user i.user_id)
refused_window c now i s per_user_package_scope r pu pp h =
    ground (arith, get_window-hits s.per_user_package (pair_key i))

head_fresh :
    (c : LimiterConfig) (now : ℕ) (i : CheckInput) (s : Limiter) (scope : RateLimitScope) (x : ℕ)
    (rest : List ℕ)
    → scope_window c now i s scope ≡ x ∷ rest
    → now < x + c.window_ms
head_fresh c now i s per_user_scope x rest h = prune-head c.window_ms now _ x rest h
head_fresh c now i s per_user_package_scope x rest h = prune-head c.window_ms now _ x rest h

retry_after_exact :
    (window now : ℕ) (hits : List ℕ)
    → 1 ≤ length hits
    → ((x : ℕ) (rest : List ℕ) → hits ≡ x ∷ rest → now < x + window)
    → (r : ℕ) → r ≡ retry_after window now hits
    → (1 ≤ r)
      × (length (prune window (now + 1000 * r) hits) < length hits)
      × (prune window (now + 1000 * (r - 1)) hits ≡ hits)
unfolding retry_after
retry_after_exact window now [] p inside r e = absurd (omega arith)
retry_after_exact window now (x ∷ hits) p inside r e =
    let q : now < x + window = inside x hits refl in
    (
      omega arith,
      length-prune-lt window _ x hits (omega arith),
      prune_keeps window _ x hits (omega arith),
    )

-- A refusal's hint is exact to the second: it is at least 1, after that many seconds the window that
-- tripped has lost a hit, and one second earlier it had lost none. The limits are at least 1, as
-- the constructor demands.
pub check-retry_after :
    (c : LimiterConfig) (now : ℕ) (i : CheckInput) (s : Limiter) (scope : RateLimitScope) (r : ℕ)
    → 1 ≤ c.per_user_limit
    → 1 ≤ c.per_user_package_limit
    → (check c now i s).0 ≡ refused scope r
    → let hits = scope_window c now i s scope in
      (1 ≤ r)
      × (length (prune c.window_ms (now + 1000 * r) hits) < length hits)
      × (prune c.window_ms (now + 1000 * (r - 1)) hits ≡ hits)
check-retry_after c now i s scope r pu pp h =
    let (e, full) = refused_window c now i s scope r pu pp h in
    retry_after_exact c.window_ms now (scope_window c now i s scope) full
      (head_fresh c now i s scope) r e
