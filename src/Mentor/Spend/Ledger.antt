-- ===== src/Mentor/Spend/Ledger.antt =====
-- The store's specification: a log of every charge, and sums over it; and what a pruning leaves.
use research_crafters.Prelude.{
  Bool, List, Ordered, String, [], arith, drop, drop_while, if◌then◌else◌, leb, ltb, nat_eq, refl,
  string_eq, ℕ, ◌&&◌, ◌++◌, ◌+◌, ◌<◌, ◌==◌, ◌∷◌, ◌≡◌,
}
use research_crafters.Mentor.Spend.{
  SpendArgs, SpendHit, UserSpendEntry, empty_entry, prune_entry, stage_key, stale_hits,
}

pub record Charge : Type 0 where
  pub ts : ℕ
  pub user : String
  pub package_id : String
  pub stage : String
  pub usd : ℕ

abbrev pub charge_of : ℕ → SpendArgs → ℕ → Charge
charge_of now a n = record {
  ts = now;
  user = a.user_id;
  package_id = a.package_id;
  stage = stage_key a.package_id a.stage_id;
  usd = n;
}

-- The charges of one user, oldest first.
abbrev pub ledger : String → List Charge → List SpendHit
ledger u [] = []
ledger u (c ∷ log) =
    if c.user == u then record { ts = c.ts; usd = c.usd } ∷ ledger u log else ledger u log

-- What a user spent in the window that ends now.
abbrev pub daily_sum : ℕ → ℕ → String → List Charge → ℕ
daily_sum window now u [] = 0
daily_sum window now u (c ∷ log) =
    if c.user == u && ltb now (c.ts + window)
    then c.usd + daily_sum window now u log
    else daily_sum window now u log

-- What was ever charged under a key.
abbrev pub total_by : (Charge → String) → String → List Charge → ℕ
total_by key k [] = 0
total_by key k (c ∷ log) = if key c == k then c.usd + total_by key k log else total_by key k log

abbrev pub sum_usd : List SpendHit → ℕ
sum_usd [] = 0
sum_usd (h ∷ hits) = h.usd + sum_usd hits

abbrev pub is_stale : ℕ → ℕ → SpendHit → Bool
is_stale window now h = leb (h.ts + window) now

abbrev pub fresh : ℕ → ℕ → List SpendHit → List SpendHit
fresh window now = drop_while (is_stale window now)

pub sum_usd-append :
    (xs : List SpendHit) (h : SpendHit) → sum_usd (xs ++ h ∷ []) ≡ sum_usd xs + h.usd
sum_usd-append [] h = omega arith
sum_usd-append (x ∷ xs) h = omega (arith, sum_usd-append xs h)

stale_hits-drop :
    (window now : ℕ) (hits : List SpendHit)
    → drop (stale_hits window now hits).0 hits ≡ fresh window now hits
unfolding stale_hits
stale_hits-drop window now [] = refl
stale_hits-drop window now (h ∷ hits) = ground (arith, stale_hits-drop window now hits)

stale_hits-sum :
    (window now : ℕ) (hits : List SpendHit)
    → (stale_hits window now hits).1 + sum_usd (fresh window now hits) ≡ sum_usd hits
unfolding stale_hits
stale_hits-sum window now [] = omega arith
stale_hits-sum window now (h ∷ hits) = ground (arith, stale_hits-sum window now hits)

stale_hits-none :
    (window now : ℕ) (hits : List SpendHit)
    → (stale_hits window now hits).0 ≡ 0
    → fresh window now hits ≡ hits
unfolding stale_hits
stale_hits-none window now [] e = refl
stale_hits-none window now (h ∷ hits) e = ground arith

-- A pruning keeps the fresh hits, and the running total of a balanced entry becomes their sum.
pub prune_entry_lem :
    (window now : ℕ) (e : UserSpendEntry)
    → e.total ≡ sum_usd e.hits
    → ((prune_entry window now e).hits ≡ fresh window now e.hits)
      × ((prune_entry window now e).total ≡ sum_usd (fresh window now e.hits))
unfolding prune_entry
prune_entry_lem window now e balanced = ground (
  arith,
  stale_hits-drop window now e.hits,
  stale_hits-sum window now e.hits,
  stale_hits-none window now e.hits,
)

pub prune_entry_empty : (window now : ℕ) → prune_entry window now empty_entry ≡ empty_entry
unfolding prune_entry stale_hits
prune_entry_empty window now = refl

daily_sum_all :
    (window now from until : ℕ) (u : String) (log : List Charge)
    → now < from + window
    → Ordered (λ c. c.ts) from until log
    → daily_sum window now u log ≡ sum_usd (ledger u log)
daily_sum_all window now from until u [] h o = refl
daily_sum_all window now from until u (c ∷ log) h (le, o) =
    ground (arith, daily_sum_all window now c.ts until u log (omega arith) o)

-- In a log in order, the fresh hits of a user add up to what the window holds.
pub sum_usd-fresh :
    (window now from until : ℕ) (u : String) (log : List Charge)
    → Ordered (λ c. c.ts) from until log
    → sum_usd (fresh window now (ledger u log)) ≡ daily_sum window now u log
sum_usd-fresh window now from until u [] o = refl
sum_usd-fresh window now from until u (c ∷ log) (le, o) = ground (
  arith,
  sum_usd-fresh window now c.ts until u log o,
  daily_sum_all window now c.ts until u log _ o,
)

pub ledger-append :
    (u : String) (log : List Charge) (c : Charge)
    → ledger u (log ++ c ∷ []) ≡ (
        if c.user == u
        then ledger u log ++ record { ts = c.ts; usd = c.usd } ∷ []
        else ledger u log)
ledger-append u [] c = ground arith
ledger-append u (x ∷ log) c = ground (arith, ledger-append u log c)

pub total_by-append :
    (key : Charge → String) (k : String) (log : List Charge) (c : Charge)
    → total_by key k (log ++ c ∷ [])
      ≡ (if key c == k then total_by key k log + c.usd else total_by key k log)
total_by-append key k [] c = ground arith
total_by-append key k (x ∷ log) c = ground (arith, total_by-append key k log c)

pub daily_sum-append :
    (window now : ℕ) (u : String) (log : List Charge) (c : Charge)
    → daily_sum window now u (log ++ c ∷ []) ≡ (
        if c.user == u && ltb now (c.ts + window)
        then daily_sum window now u log + c.usd
        else daily_sum window now u log)
daily_sum-append window now u [] c = ground arith
daily_sum-append window now u (x ∷ log) c = ground (arith, daily_sum-append window now u log c)
