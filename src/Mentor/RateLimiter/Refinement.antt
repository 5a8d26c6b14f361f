-- ===== src/Mentor/RateLimiter/Refinement.antt =====
-- The windows of the limiter against the log.
use research_crafters.Prelude.{
  Bool-cases, List, Option, Option-cases, Ordered, Ordered-append, Ordered-later, String, [], ap,
  arith, eq_iff, eq_of_==, get_or, if◌then◌else◌, inl, inr, length, nat_eq, none, refl, some,
  string_eq, ℕ, ◌++◌, ◌==◌, ◌∙◌, ◌∷◌, ◌≡◌, ◌≤◌,
}
use research_crafters.Prelude.Dict.{Dict, insert, lookup, lookup-insert}
use research_crafters.Mentor.RateLimiter.{
  CheckInput, Limiter, LimiterConfig, RateLimitDecision, RateLimitScope, allowed, check,
  empty_limiter, get_window, pair_key, prune, pruned, refused,
}
use research_crafters.Mentor.RateLimiter.Pruning.{prune-append, prune-eq-filter, prune-prune}
use research_crafters.Mentor.RateLimiter.History.{
  Hit, hit_of, recent, spec_check, spec_log, times, times-SortedFrom, times-append,
}

abbrev pub hits_of : Dict (List ℕ) → String → List ℕ
hits_of m k = get_or (lookup m k) []

pub get_window-hits : (m : Dict (List ℕ)) (k : String) → (get_window m k).0 ≡ hits_of m k
unfolding get_window
get_window-hits m k = ground arith

hits_of-get_window : (m : Dict (List ℕ)) (k j : String) → hits_of (get_window m k).1 j ≡ hits_of m j
unfolding get_window
hits_of-get_window m k j = elim (Option-cases (lookup m k)) [
  | inl missing ↦ ground (arith, lookup-insert m k j [], eq_iff k j)
  | inr (hits, found) ↦ ground arith
]

pub hits_of-insert :
    (m : Dict (List ℕ)) (k j : String) (hits : List ℕ)
    → hits_of (insert m k hits) j ≡ (if k == j then hits else hits_of m j)
hits_of-insert m k j hits = ground (arith, lookup-insert m k j hits)

-- The window of every key agrees with the log at every later pruning.
abbrev pub Follows : ℕ → ℕ → (Hit → String) → List Hit → Dict (List ℕ) → Type 0
Follows window t key log m =
    (k : String) (now : ℕ)
    → t ≤ now
    → prune window now (hits_of m k) ≡ prune window now (times key k log)

module _ (c : LimiterConfig) (t now : ℕ) (later : t ≤ now) (key : Hit → String) (log : List Hit)
    (m : Dict (List ℕ)) (f : Follows c.window_ms t key log m) where
  pruned-hits : (k : String) → (pruned c now m k).0 ≡ prune c.window_ms now (times key k log)
  pruned-hits k = rw get_window-hits (f k now later)

  pruned-Follows : (k : String) → Follows c.window_ms now key log (pruned c now m k).1
  pruned-Follows k j after le = ground (
    arith,
    hits_of-insert (get_window m k).1 k j (prune c.window_ms now (get_window m k).0),
    hits_of-get_window m k j,
    get_window-hits m k,
    eq_iff k j,
    prune-prune c.window_ms now after (hits_of m k) le,
    f j after (omega arith),
  )

push-Follows :
    (window now : ℕ) (key : Hit → String) (log : List Hit) (m : Dict (List ℕ)) (h : Hit)
    (hits : List ℕ)
    → now ≤ h.time
    → hits ≡ prune window now (times key (key h) log)
    → Follows window now key log m
    → Follows window h.time key (log ++ h ∷ []) (insert m (key h) (hits ++ h.time ∷ []))
push-Follows window now key log m h hits le e f j after later =
    let same : prune window after hits ≡ prune window after (times key (key h) log) =
      ap (prune window after) e
      ∙ prune-prune window now after (times key (key h) log) (omega arith) in
    elim (Bool-cases (key h == j)) [
      | inl p ↦
          let q : key h ≡ j = eq_of_== (key h) j p in
          rw (hits_of-insert, times-append, p)
            (rw (← q) (prune-append window after hits _ h.time same))
      | inr p ↦ rw (hits_of-insert, times-append, p) (f j after (omega arith))
    ]

-- The limiter's state at time `t` stands for the log.
pub record Tracks (c : LimiterConfig) (t : ℕ) (log : List Hit) (s : Limiter) : Type 0 where
  pub ordered : Ordered (λ h. h.time) 0 t log
  pub users : Follows c.window_ms t (λ h. h.user) log s.per_user
  pub pairs : Follows c.window_ms t (λ h. h.pair) log s.per_user_package

pub Tracks-empty : (c : LimiterConfig) (t : ℕ) → Tracks c t [] empty_limiter
unfolding lookup
Tracks-empty c t = record { ordered = omega arith; users = λ k n h. refl; pairs = λ k n h. refl }

abbrev pub tripped : RateLimitDecision → Option RateLimitScope
tripped allowed = none
tripped (refused scope seconds) = some scope

module _ (c : LimiterConfig) (t now : ℕ) (i : CheckInput) (log : List Hit) (s : Limiter)
    (tracks : Tracks c t log s) (later : t ≤ now) where
  user_window :
      (pruned c now s.per_user i.user_id).0
      ≡ prune c.window_ms now (times (λ h. h.user) i.user_id log)
  user_window = pruned-hits c t now later (λ h. h.user) log s.per_user tracks.users i.user_id

  pair_window :
      (pruned c now s.per_user_package (pair_key i)).0
      ≡ prune c.window_ms now (times (λ h. h.pair) (pair_key i) log)
  pair_window =
      pruned-hits c t now later (λ h. h.pair) log s.per_user_package tracks.pairs (pair_key i)

  length-window :
      (key : Hit → String) (k : String)
      → length (prune c.window_ms now (times key k log)) ≡ recent c.window_ms now key k log
  length-window key k = ap length (
      prune-eq-filter c.window_ms now 0 (times key k log)
        (times-SortedFrom key k 0 t log tracks.ordered))

  check-decision : tripped (check c now i s).0 ≡ spec_check c now i log
  unfolding check spec_check
  check-decision = ground (
    arith,
    user_window,
    pair_window,
    length-window (λ h. h.user) i.user_id,
    length-window (λ h. h.pair) (pair_key i),
  )

  state_refused :
      (scope : RateLimitScope)
      → tripped (check c now i s).0 ≡ some scope
      → (check c now i s).1 ≡ record {
        per_user = (pruned c now s.per_user i.user_id).1;
        per_user_package = (pruned c now s.per_user_package (pair_key i)).1;
      }
  unfolding check
  state_refused scope h = ground arith

  state_allowed :
      tripped (check c now i s).0 ≡ none
      → (check c now i s).1 ≡ record {
        per_user =
            insert
              (pruned c now s.per_user i.user_id).1
              i.user_id
              ((pruned c now s.per_user i.user_id).0 ++ now ∷ []);
        per_user_package =
            insert
              (pruned c now s.per_user_package (pair_key i)).1
              (pair_key i)
              ((pruned c now s.per_user_package (pair_key i)).0 ++ now ∷ []);
      }
  unfolding check
  state_allowed h = ground arith

  users_pruned : Follows c.window_ms now (λ h. h.user) log (pruned c now s.per_user i.user_id).1
  users_pruned = pruned-Follows c t now later (λ h. h.user) log s.per_user tracks.users i.user_id

  pairs_pruned :
      Follows c.window_ms now (λ h. h.pair) log (pruned c now s.per_user_package (pair_key i)).1
  pairs_pruned =
      pruned-Follows c t now later (λ h. h.pair) log s.per_user_package tracks.pairs (pair_key i)

  check-Tracks-refused :
      (scope : RateLimitScope)
      → tripped (check c now i s).0 ≡ some scope
      → Tracks c now log (check c now i s).1
  check-Tracks-refused scope h = rw (state_refused scope h) (record {
    ordered = Ordered-later (λ h. h.time) 0 t now log tracks.ordered later;
    users = users_pruned;
    pairs = pairs_pruned;
  })

  check-Tracks-allowed :
      tripped (check c now i s).0 ≡ none
      → Tracks c now (log ++ hit_of now i ∷ []) (check c now i s).1
  check-Tracks-allowed h = rw (state_allowed h) (record {
    ordered = Ordered-append (λ h. h.time) 0 t log (hit_of now i) tracks.ordered later;
    users =
        push-Follows c.window_ms now (λ h. h.user) log _ (hit_of now i) _ le_self user_window
          users_pruned;
    pairs =
        push-Follows c.window_ms now (λ h. h.pair) log _ (hit_of now i) _ le_self pair_window
          pairs_pruned;
  })
    where
      le_self : now ≤ now
      le_self = omega arith

-- From a state that stands for the log, a check no earlier than the last one decides as counting
-- in the log decides, and its new state stands for the log with the admitted request, if any.
pub check-Tracks :
    (c : LimiterConfig) (t now : ℕ) (i : CheckInput) (log : List Hit) (s : Limiter)
    → Tracks c t log s
    → t ≤ now
    → (tripped (check c now i s).0 ≡ spec_check c now i log)
      × Tracks c now (spec_log now i (spec_check c now i log) log) (check c now i s).1
check-Tracks c t now i log s tracks later = (
  decided,
  elim (Option-cases verdict) [
    | inl e ↦ rw (← decided, e) (check-Tracks-allowed c t now i log s tracks later e)
    | inr (scope, e) ↦ rw (← decided, e) (check-Tracks-refused c t now i log s tracks later scope e)
  ],
)
  where
    verdict : Option RateLimitScope
    verdict = tripped (check c now i s).0

    decided : tripped (check c now i s).0 ≡ spec_check c now i log
    decided = check-decision c t now i log s tracks later
