-- ===== src/Mentor/Tests.antt =====
-- Examples of the limits, the spend store, the budget, the context cache and the context builder.
use research_crafters.Prelude.{List, String, [], arith, refl, ◌↔◌, ◌∷◌, ◌≡◌}
use research_crafters.Prelude.Dict.{insert, lookup}
use research_crafters.Prelude.Number.{int, pos}
use research_crafters.Mentor.RateLimiter.{
  CheckInput, Limiter, LimiterConfig, allowed, check, empty_limiter, get_window,
  per_user_package_scope, prune, refused, retry_after,
}
use research_crafters.Mentor.RateLimiter.History.{spec_check, spec_log}
use research_crafters.Mentor.RateLimiter.Refinement.{Tracks, Tracks-empty, check-Tracks, tripped}
use research_crafters.Mentor.RateLimiter.Bounds.{IsBounded, Request, serve, serve_bounds}
use research_crafters.Mentor.Spend.{
  SpendArgs, empty_store, prune_entry, record_spend, stale_hits, user_daily_spend,
}
use research_crafters.Mentor.Spend.Ledger.{Charge, charge_of, daily_sum}
use research_crafters.Mentor.Spend.Refinement.{
  Accounts, Accounts-empty, record_spend-Accounts, user_daily_spend-Accounts,
}
use research_crafters.Mentor.Budget.{
  CheckBudgetInput, allow, check_budget, degrade, estimate_request_cost_usd, feedback, hint,
  in_memory, user_cap,
}
use research_crafters.Mentor.Budget.Safety.{WithinCaps, check_budget_iff, planned}

abbrev config : LimiterConfig
config = record { per_user_limit = 2; per_user_package_limit = 1; window_ms = 60000 }

abbrev caller_of : String → CheckInput
caller_of version = record { user_id = "u1"; package_id = version }

check-twice :
    let (first, s) = check config 1000 (caller_of "v1") empty_limiter in
    (first ≡ allowed)
    × ((check config 1500 (caller_of "v1") s).0 ≡ refused per_user_package_scope 60)
    × ((check config 61000 (caller_of "v1") s).0 ≡ allowed)
unfolding check get_window lookup insert prune retry_after
check-twice = (refl, refl, refl)

check-Tracks_example :
    (tripped (check config 1000 (caller_of "v1") empty_limiter).0
      ≡ spec_check config 1000 (caller_of "v1") [])
    × Tracks config 1000
        (spec_log 1000 (caller_of "v1") (spec_check config 1000 (caller_of "v1") []) [])
        (check config 1000 (caller_of "v1") empty_limiter).1
check-Tracks_example =
    check-Tracks config 0 1000 (caller_of "v1") [] empty_limiter (Tracks-empty config 0)
      (omega arith)

abbrev requests : List Request
requests = (1000, caller_of "v1") ∷ (1500, caller_of "v1") ∷ (61000, caller_of "v2") ∷ []

serve_bounds_example :
    IsBounded 60000 2 (λ h. h.user) (serve config requests [] empty_limiter).0
    × IsBounded 60000 1 (λ h. h.pair) (serve config requests [] empty_limiter).0
serve_bounds_example = serve_bounds config requests (omega arith, (omega arith, (omega arith, tt)))

abbrev limiter_after : Limiter
limiter_after = (check config 1000 (caller_of "v1") empty_limiter).1

abbrev spend_args : SpendArgs
spend_args = record { user_id = "u1"; package_id = "v1"; stage_id = "s1"; usd = int (pos 40) }

record_spend-Accounts_example :
    Accounts 1000 5 (charge_of 5 spend_args 40 ∷ []) (record_spend 5 spend_args empty_store)
record_spend-Accounts_example =
    record_spend-Accounts 1000 0 5 spend_args [] empty_store (Accounts-empty 1000 0) (omega arith)

user_daily_spend-Accounts_example :
    let log : List Charge = charge_of 5 spend_args 40 ∷ [] in
    let s = record_spend 5 spend_args empty_store in
    ((user_daily_spend 1000 7 "u1" s).0 ≡ daily_sum 1000 7 "u1" log)
    × Accounts 1000 7 log (user_daily_spend 1000 7 "u1" s).1
user_daily_spend-Accounts_example =
    user_daily_spend-Accounts 1000 5 7 "u1" (charge_of 5 spend_args 40 ∷ [])
      (record_spend 5 spend_args empty_store) record_spend-Accounts_example (omega arith)

abbrev budget_input : CheckBudgetInput
budget_input = record {
  user_id = "u1";
  package_id = "v1";
  stage_id = "s1";
  model_tier = feedback;
  model_id = "m";
  estimated_input_tokens = 3;
  estimated_output_tokens = 2;
  prices = ("m", record { input_per_million_usd = 10; output_per_million_usd = 20 }) ∷ [];
  caps = record { per_user_daily_usd = 100; per_package_usd = 200; per_stage_usd = 150 };
}

check_budget-degrades :
    (check_budget
      (in_memory 1000 7)
      budget_input
      (record_spend 5 spend_args empty_store)).0.decision
    ≡ degrade hint user_cap
unfolding check_budget user_daily_spend record_spend lookup insert prune_entry stale_hits
    estimate_request_cost_usd
check_budget-degrades = refl

check_budget_iff_example :
    let store = in_memory 1000 7 in
    let (result, s') = check_budget store budget_input empty_store in
    (result.decision ≡ allow)
    ↔ WithinCaps 1000 7 budget_input (store.record_spend_usd (planned budget_input) s')
check_budget_iff_example =
    check_budget_iff 1000 0 7 budget_input [] empty_store (Accounts-empty 1000 0) (omega arith)
      (omega arith)
