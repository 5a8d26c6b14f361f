-- ===== src/Mentor/Budget/Safety.antt =====
-- What an allowed request may cost.
use research_crafters.Prelude.{
  ==_self, List, String, ap, arith, codes_eq, eq_iff, nat_eq, refl, string_eq, sym, ℕ, ◌+◌, ◌↔◌,
  ◌∙◌, ◌≡◌, ◌≤◌,
}
use research_crafters.Prelude.Number.{int, pos}
use research_crafters.Mentor.Spend.{
  SpendArgs, SpendState, package_spend, record_spend, stage_key, stage_spend, user_daily_spend,
}
use research_crafters.Mentor.Spend.Ledger.{
  Charge, charge_of, daily_sum, daily_sum-append, total_by, total_by-append,
}
use research_crafters.Mentor.Spend.Refinement.{
  Accounts, logged, record_spend-Accounts, user_daily_spend-Accounts,
}
use research_crafters.Mentor.Budget.{CheckBudgetInput, allow, check_budget, estimated, in_memory}

-- The spend that the planned request is recorded with.
abbrev pub planned : CheckBudgetInput → SpendArgs
planned i = record {
  user_id = i.user_id;
  package_id = i.package_id;
  stage_id = i.stage_id;
  usd = int (pos (estimated i));
}

-- All three caps hold in a state of the store.
abbrev pub WithinCaps : ℕ → ℕ → CheckBudgetInput → SpendState → Type 0
WithinCaps window now i s =
    ((user_daily_spend window now i.user_id s).0 ≤ i.caps.per_user_daily_usd)
    × (package_spend i.package_id s ≤ i.caps.per_package_usd)
    × (stage_spend i.package_id i.stage_id s ≤ i.caps.per_stage_usd)

module _ (now n : ℕ) (a : SpendArgs) (log : List Charge) (paid : a.usd ≡ int (pos n)) where
  total_by-logged :
      (key : Charge → String) (k : String)
      → ((m : ℕ) → key (charge_of now a m) ≡ k)
      → total_by key k (logged now a log) ≡ total_by key k log + n
  total_by-logged key k same = rw paid (
      ground (
        arith,
        total_by-append key k log (charge_of now a n),
        same n,
        ==_self (key (charge_of now a n)),
        eq_iff (key (charge_of now a n)) k,
      ))

  daily_sum-logged :
      (window : ℕ)
      → 1 ≤ window
      → daily_sum window now a.user_id (logged now a log) ≡ daily_sum window now a.user_id log + n
  daily_sum-logged window pw = rw paid (
      ground
        (arith, daily_sum-append window now a.user_id log (charge_of now a n), ==_self a.user_id))

module _ (window t now : ℕ) (i : CheckBudgetInput) (log : List Charge) (s : SpendState)
    (acc : Accounts window t log s) (later : t ≤ now) (pw : 1 ≤ window) where
  read : (check_budget (in_memory window now) i s).1 ≡ (user_daily_spend window now i.user_id s).1
  unfolding check_budget
  read = refl

  after : SpendState
  after = record_spend now (planned i) (user_daily_spend window now i.user_id s).1

  reads : Accounts window now log (user_daily_spend window now i.user_id s).1
  reads = (user_daily_spend-Accounts window t now i.user_id log s acc later).1

  charged : Accounts window now (logged now (planned i) log) after
  unfolding after
  charged = record_spend-Accounts window now now (planned i) log _ reads (omega arith)

  package_after :
      package_spend i.package_id after
      ≡ package_spend i.package_id (user_daily_spend window now i.user_id s).1 + estimated i
  package_after =
      charged.packages i.package_id
      ∙ total_by-logged now (estimated i) (planned i) log refl (λ c. c.package_id) i.package_id
          (λ m. refl)
      ∙ ap (λ (x : ℕ). x + estimated i) (sym (reads.packages i.package_id))

  stage_after :
      stage_spend i.package_id i.stage_id after
      ≡ stage_spend i.package_id i.stage_id (user_daily_spend window now i.user_id s).1
        + estimated i
  stage_after =
      charged.stages (stage_key i.package_id i.stage_id)
      ∙ total_by-logged now (estimated i) (planned i) log refl (λ c. c.stage)
          (stage_key i.package_id i.stage_id) (λ m. refl)
      ∙ ap (λ (x : ℕ). x + estimated i) (sym (reads.stages (stage_key i.package_id i.stage_id)))

  user_after :
      (user_daily_spend window now i.user_id after).0
      ≡ (user_daily_spend window now i.user_id s).0 + estimated i
  user_after =
      (user_daily_spend-Accounts window now now i.user_id _ after charged (omega arith)).0
      ∙ daily_sum-logged now (estimated i) (planned i) log refl window pw
      ∙ ap (λ (x : ℕ). x + estimated i)
          (sym (user_daily_spend-Accounts window t now i.user_id log s acc later).0)

  decision_iff :
      ((check_budget (in_memory window now) i s).0.decision ≡ allow) ↔ WithinCaps window now i after
  unfolding check_budget
  decision_iff = (
    λ h. ground (arith, package_after, stage_after, user_after),
    λ w. ground (arith, package_after, stage_after, user_after),
  )

-- On the in-memory store, a request is allowed exactly when recording its estimated cost right after
-- the check leaves the user's daily window, the package and the stage all within their caps.
pub check_budget_iff :
    (window t now : ℕ) (i : CheckBudgetInput) (log : List Charge) (s : SpendState)
    → Accounts window t log s
    → t ≤ now
    → 1 ≤ window
    → let store = in_memory window now in
      let (result, s') = check_budget store i s in
      (result.decision ≡ allow) ↔ WithinCaps window now i (store.record_spend_usd (planned i) s')
unfolding check_budget
check_budget_iff window t now i log s acc later pw =
    unfold after in decision_iff window t now i log s acc later pw
