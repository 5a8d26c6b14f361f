-- ===== src/Mentor/Budget.antt =====
-- packages/ai/src/cost-cap.ts: the budget decision for a planned request, over any `SpendStore`.
-- Prices are in a unit of money per million tokens, and all other amounts in millionths of that
-- unit, so that `(tokens / 1_000_000) * price` is a product of whole numbers.
pub mod Safety
use research_crafters.Prelude.{String, if◌then◌else◌, ltb, none, some, ℕ, ◌*◌, ◌+◌}
use research_crafters.Prelude.Dict.{Dict, lookup}
use research_crafters.Mentor.Spend.{
  SpendArgs, SpendState, package_spend, record_spend, stage_spend, user_daily_spend,
}

pub record ModelPrice : Type 0 where
  pub input_per_million_usd : ℕ
  pub output_per_million_usd : ℕ

pub data ModelTier : Type 0 where
  hint feedback : ModelTier

-- The interface `SpendStore`, over the state that its implementation keeps.
pub record SpendStore (S : Type 0) : Type 0 where
  pub get_user_daily_spend_usd : String → S → ℕ × S
  pub get_package_spend_usd : String → S → ℕ
  pub get_stage_spend_usd : String → String → S → ℕ
  pub record_spend_usd : SpendArgs → S → S

pub record BudgetCaps : Type 0 where
  pub per_user_daily_usd : ℕ
  pub per_package_usd : ℕ
  pub per_stage_usd : ℕ

pub record CheckBudgetInput : Type 0 where
  pub user_id : String
  pub package_id : String
  pub stage_id : String
  pub model_tier : ModelTier
  pub model_id : String
  pub estimated_input_tokens : ℕ
  pub estimated_output_tokens : ℕ
  pub prices : Dict ModelPrice
  pub caps : BudgetCaps

-- The texts of the reasons, by what they are about.
pub data BudgetReason : Type 0 where
  stage_cap package_cap user_cap : BudgetReason

pub data BudgetDecision : Type 0 where
  allow : BudgetDecision
  degrade : ModelTier → BudgetReason → BudgetDecision
  refuse : BudgetReason → BudgetDecision

pub record BudgetCheck : Type 0 where
  pub decision : BudgetDecision
  pub per_user_spend_usd : ℕ
  pub per_package_spend_usd : ℕ
  pub per_stage_spend_usd : ℕ

-- `estimateRequestCostUsd`: an unknown model costs 0.
unfoldable pub estimate_request_cost_usd : String → ℕ → ℕ → Dict ModelPrice → ℕ
estimate_request_cost_usd model input output prices = elim (lookup prices model) [
  | none ↦ 0
  | some price ↦ input * price.input_per_million_usd + output * price.output_per_million_usd
]

abbrev pub estimated : CheckBudgetInput → ℕ
estimated i =
    estimate_request_cost_usd i.model_id i.estimated_input_tokens i.estimated_output_tokens i.prices

abbrev pub decide : CheckBudgetInput → ℕ → ℕ → ℕ → ℕ → BudgetDecision
decide i cost user_spend package_spend stage_spend =
    if ltb i.caps.per_stage_usd (stage_spend + cost)
    then refuse stage_cap
    else if ltb i.caps.per_package_usd (package_spend + cost)
    then refuse package_cap
    else if ltb i.caps.per_user_daily_usd (user_spend + cost)
    then elim i.model_tier [ feedback ↦ degrade hint user_cap | hint ↦ refuse user_cap ]
    else allow

-- `checkBudget`; the three reads of the store are made in the order written.
module _ {S : Type 0} (store : SpendStore S) where
  unfoldable pub check_budget : CheckBudgetInput → S → BudgetCheck × S
  check_budget i s =
      let (user_spend, s') = store.get_user_daily_spend_usd i.user_id s in
      let package_spend = store.get_package_spend_usd i.package_id s' in
      let stage_spend = store.get_stage_spend_usd i.package_id i.stage_id s' in
      (
        record {
          decision = decide i (estimated i) user_spend package_spend stage_spend;
          per_user_spend_usd = user_spend;
          per_package_spend_usd = package_spend;
          per_stage_spend_usd = stage_spend;
        },
        s',
      )

-- `InMemoryMentorSpendStore` behind the interface, at one reading of its clock.
abbrev pub in_memory : ℕ → ℕ → SpendStore SpendState
in_memory window now = record {
  get_user_daily_spend_usd = user_daily_spend window now;
  get_package_spend_usd = package_spend;
  get_stage_spend_usd = stage_spend;
  record_spend_usd = record_spend now;
}
