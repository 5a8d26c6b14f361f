-- ===== src/Mentor/Spend.antt =====
-- apps/web/lib/mentor/spend-store.ts: `InMemoryMentorSpendStore`. Amounts are whole numbers of a
-- fixed unit of a dollar (see `Prelude.Number`); times are milliseconds. The code's
-- `hit.ts <= cutoff` is `ts + window ≤ now`, and its clamp of a negative total is the truncated
-- subtraction.
pub mod Ledger
pub mod Refinement
use research_crafters.Prelude.{
  List, Option, String, [], drop, get_or, if◌then◌else◌, leb, ltb, none, some, suc, ℕ, ◌++ₛ◌, ◌++◌,
  ◌+◌, ◌-◌, ◌∷◌,
}
use research_crafters.Prelude.Dict.{Dict, insert, lookup}
use research_crafters.Prelude.Number.{Number, int, pos}

pub record SpendHit : Type 0 where
  pub ts : ℕ
  pub usd : ℕ

pub record UserSpendEntry : Type 0 where
  pub hits : List SpendHit
  pub total : ℕ

pub record SpendState : Type 0 where
  pub user_daily : Dict UserSpendEntry
  pub package_total : Dict ℕ
  pub stage_total : Dict ℕ

pub record SpendArgs : Type 0 where
  pub user_id : String
  pub package_id : String
  pub stage_id : String
  pub usd : Number

-- The constructor's fresh maps; also `reset`.
abbrev pub empty_store : SpendState
empty_store = record { user_daily = []; package_total = []; stage_total = [] }

abbrev pub empty_entry : UserSpendEntry
empty_entry = record { hits = []; total = 0 }

abbrev pub stage_key : String → String → String
stage_key package_id stage_id = package_id ++ₛ "::" ++ₛ stage_id

-- The amount that is recorded: none unless `usd` is finite and above 0.
abbrev pub chargeable : Number → Option ℕ
chargeable (int (pos n)) = if ltb 0 n then some n else none
chargeable _ = none

abbrev pub add_total : Dict ℕ → String → ℕ → Dict ℕ
add_total m k usd = insert m k (get_or (lookup m k) 0 + usd)

abbrev pub push_hit : UserSpendEntry → ℕ → ℕ → UserSpendEntry
push_hit e now n = record {
  hits = e.hits ++ record { ts = now; usd = n } ∷ [];
  total = e.total + n;
}

abbrev pub charge : ℕ → SpendArgs → ℕ → SpendState → SpendState
charge now a n s = record {
  user_daily =
      insert s.user_daily a.user_id
        (push_hit (get_or (lookup s.user_daily a.user_id) empty_entry) now n);
  package_total = add_total s.package_total a.package_id n;
  stage_total = add_total s.stage_total (stage_key a.package_id a.stage_id) n;
}

-- The guard of `recordSpend`: no amount, no writes.
abbrev pub record_amount : ℕ → SpendArgs → Option ℕ → SpendState → SpendState
record_amount now a none s = s
record_amount now a (some n) s = charge now a n s

-- `recordSpend`
unfoldable pub record_spend : ℕ → SpendArgs → SpendState → SpendState
record_spend now a s = record_amount now a (chargeable a.usd) s

-- The loop of `pruneAndTotalUser`: the number of stale hits, and their sum.
unfoldable pub stale_hits : ℕ → ℕ → List SpendHit → ℕ × ℕ
stale_hits window now [] = (0, 0)
stale_hits window now (h ∷ hits) =
    let more = stale_hits window now hits in
    if leb (h.ts + window) now then (suc more.0, h.usd + more.1) else (0, 0)

unfoldable pub prune_entry : ℕ → ℕ → UserSpendEntry → UserSpendEntry
prune_entry window now e =
    let (n, dropped) = stale_hits window now e.hits in
    if ltb 0 n then record { hits = drop n e.hits; total = e.total - dropped } else e

-- `pruneAndTotalUser`, which is `getUserDailySpendUsd`; the entry is pruned in place.
unfoldable pub user_daily_spend : ℕ → ℕ → String → SpendState → ℕ × SpendState
user_daily_spend window now user s = elim (lookup s.user_daily user) [
  | none ↦ (0, s)
  | some e ↦
      let e' = prune_entry window now e in
      (e'.total, record s { user_daily = insert s.user_daily user e' })
]

-- `getPackageSpendUsd`
abbrev pub package_spend : String → SpendState → ℕ
package_spend p s = get_or (lookup s.package_total p) 0

-- `getStageSpendUsd`
abbrev pub stage_spend : String → String → SpendState → ℕ
stage_spend p stage s = get_or (lookup s.stage_total (stage_key p stage)) 0
