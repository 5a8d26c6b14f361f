-- ===== src/Mentor/Spend/Refinement.antt =====
-- The running totals against the log of charges.
use research_crafters.Prelude.{
  Bool-cases, List, Option, Option-cases, Ordered, Ordered-append, Ordered-later, String, [], arith,
  codes_eq, drop_while-append_congr, drop_while-drop_while, eq_iff, eq_of_==, get_or, if◌then◌else◌,
  inl, inr, nat_eq, none, refl, some, string_eq, subst, ℕ, ◌&&◌, ◌++◌, ◌+◌, ◌==◌, ◌∙◌, ◌∷◌, ◌≡◌,
  ◌≤◌,
}
use research_crafters.Prelude.Dict.{lookup, lookup-insert}
use research_crafters.Mentor.Spend.{
  SpendArgs, SpendState, UserSpendEntry, charge, chargeable, empty_entry, empty_store, prune_entry,
  push_hit, record_amount, record_spend, stage_key, user_daily_spend,
}
use research_crafters.Mentor.Spend.Ledger.{
  Charge, charge_of, daily_sum, fresh, is_stale, ledger, ledger-append, prune_entry_empty,
  prune_entry_lem, sum_usd, sum_usd-append, sum_usd-fresh, total_by, total_by-append,
}
use research_crafters.Prelude.Number.{
  Number, int, is_finite, ltb_number, nan, neg_inf, negsuc, pos, pos_inf,
}

abbrev pub entry_of : SpendState → String → UserSpendEntry
entry_of s u = get_or (lookup s.user_daily u) empty_entry

-- The store's state at time `t` stands for the log.
pub record Accounts (window t : ℕ) (log : List Charge) (s : SpendState) : Type 0 where
  pub ordered : Ordered (λ c. c.ts) 0 t log
  pub balanced : (u : String) → (entry_of s u).total ≡ sum_usd (entry_of s u).hits
  pub users :
      (u : String) (now : ℕ)
      → t ≤ now
      → fresh window now (entry_of s u).hits ≡ fresh window now (ledger u log)
  pub packages :
      (k : String) → get_or (lookup s.package_total k) 0 ≡ total_by (λ c. c.package_id) k log
  pub stages : (k : String) → get_or (lookup s.stage_total k) 0 ≡ total_by (λ c. c.stage) k log

pub Accounts-empty : (window t : ℕ) → Accounts window t [] empty_store
unfolding lookup
Accounts-empty window t = record {
  ordered = omega arith;
  balanced = λ u. refl;
  users = λ u now le. refl;
  packages = λ k. refl;
  stages = λ k. refl;
}

-- The size of an amount.
abbrev pub magnitude : Number → ℕ
magnitude (int (pos n)) = n
magnitude (int (negsuc n)) = n + 1
magnitude _ = 0

-- The log after a spend: a finite amount above zero is at its end, any other leaves it.
abbrev pub logged : ℕ → SpendArgs → List Charge → List Charge
logged now a log =
    if is_finite a.usd && ltb_number (int (pos 0)) a.usd
    then log ++ charge_of now a (magnitude a.usd) ∷ []
    else log

abbrev entered : ℕ → SpendArgs → Option ℕ → List Charge → List Charge
entered now a none log = log
entered now a (some n) log = log ++ charge_of now a n ∷ []

entered-chargeable :
    (now : ℕ) (a : SpendArgs) (usd : Number) (log : List Charge)
    → entered now a (chargeable usd) log ≡ (
        if is_finite usd && ltb_number (int (pos 0)) usd
        then log ++ charge_of now a (magnitude usd) ∷ []
        else log)
entered-chargeable now a (int (pos n)) log = ground arith
entered-chargeable now a (int (negsuc n)) log = ground arith
entered-chargeable now a nan log = refl
entered-chargeable now a pos_inf log = refl
entered-chargeable now a neg_inf log = refl

module _ (window t now : ℕ) (log : List Charge) (s : SpendState) (acc : Accounts window t log s)
    (later : t ≤ now) where
  charge-balanced :
      (a : SpendArgs) (n : ℕ) (u : String)
      → (entry_of (charge now a n s) u).total ≡ sum_usd (entry_of (charge now a n s) u).hits
  charge-balanced a n u = ground (
    arith,
    lookup-insert s.user_daily a.user_id u
        (push_hit (get_or (lookup s.user_daily a.user_id) empty_entry) now n),
    acc.balanced u,
    acc.balanced a.user_id,
    sum_usd-append (entry_of s a.user_id).hits (record { ts = now; usd = n }),
  )

  charge-users :
      (a : SpendArgs) (n : ℕ) (u : String) (after : ℕ)
      → now ≤ after
      → fresh window after (entry_of (charge now a n s) u).hits
        ≡ fresh window after (ledger u (log ++ charge_of now a n ∷ []))
  charge-users a n u after le = elim (Bool-cases (a.user_id == u)) [
    | inl p ↦
        let q : a.user_id ≡ u = eq_of_== a.user_id u p in
        rw (lookup-insert, ledger-append, p)
          (rw (← q) (
            drop_while-append_congr (is_stale window after) (entry_of s a.user_id).hits
              (ledger a.user_id log) (record { ts = now; usd = n })
              (acc.users a.user_id after (omega arith))))
    | inr p ↦ rw (lookup-insert, ledger-append, p) (acc.users u after (omega arith))
  ]

  charge-Accounts :
      (a : SpendArgs) (n : ℕ)
      → Accounts window now (log ++ charge_of now a n ∷ []) (charge now a n s)
  charge-Accounts a n = record {
    ordered = Ordered-append (λ c. c.ts) 0 t log (charge_of now a n) acc.ordered later;
    balanced = charge-balanced a n;
    users = charge-users a n;
    packages = λ k. ground (
      arith,
      lookup-insert s.package_total a.package_id k
          (get_or (lookup s.package_total a.package_id) 0 + n),
      total_by-append (λ c. c.package_id) k log (charge_of now a n),
      acc.packages k,
      acc.packages a.package_id,
      eq_iff a.package_id k,
    );
    stages = λ k. ground (
      arith,
      lookup-insert s.stage_total (stage_key a.package_id a.stage_id) k
          (get_or (lookup s.stage_total (stage_key a.package_id a.stage_id)) 0 + n),
      total_by-append (λ c. c.stage) k log (charge_of now a n),
      acc.stages k,
      acc.stages (stage_key a.package_id a.stage_id),
      eq_iff (stage_key a.package_id a.stage_id) k,
    );
  }

  pub Accounts-later : Accounts window now log s
  Accounts-later = record {
    ordered = Ordered-later (λ c. c.ts) 0 t now log acc.ordered later;
    balanced = acc.balanced;
    users = λ u after le. acc.users u after (omega arith);
    packages = acc.packages;
    stages = acc.stages;
  }

  record_amount-Accounts :
      (a : SpendArgs) (amount : Option ℕ)
      → Accounts window now (entered now a amount log) (record_amount now a amount s)
  record_amount-Accounts a none = Accounts-later
  record_amount-Accounts a (some n) = charge-Accounts a n

-- From a state that stands for the log, recording a spend no earlier than the last event gives a
-- state that stands for the log after the spend: a finite amount above zero is a charge at its end,
-- which the user's ledger, the package's total and the stage's total all have; NaN, the infinities,
-- zero and negative amounts enter nothing.
pub record_spend-Accounts :
    (window t now : ℕ) (a : SpendArgs) (log : List Charge) (s : SpendState)
    → Accounts window t log s
    → t ≤ now
    → Accounts window now (logged now a log) (record_spend now a s)
unfolding record_spend
record_spend-Accounts window t now a log s acc later =
    subst (λ l. Accounts window now l (record_amount now a (chargeable a.usd) s))
      (entered-chargeable now a a.usd log)
      (record_amount-Accounts window t now log s acc later a (chargeable a.usd))

module _ (window t now : ℕ) (log : List Charge) (s : SpendState) (acc : Accounts window t log s)
    (later : t ≤ now) (user : String) where
  user_daily_spend-value : (user_daily_spend window now user s).0 ≡ daily_sum window now user log
  unfolding user_daily_spend
  user_daily_spend-value = ground (
    arith,
    prune_entry_lem window now (entry_of s user) (acc.balanced user),
    acc.users user now later,
    sum_usd-fresh window now 0 t user log acc.ordered,
  )

  entry_of-user_daily_spend :
      (u : String)
      → entry_of (user_daily_spend window now user s).1 u
        ≡ (if user == u then prune_entry window now (entry_of s user) else entry_of s u)
  unfolding user_daily_spend
  entry_of-user_daily_spend u = elim (Option-cases (lookup s.user_daily user)) [
    | inl missing ↦ ground (arith, prune_entry_empty window now, eq_iff user u)
    | inr (e, found) ↦ ground (arith, lookup-insert s.user_daily user u (prune_entry window now e))
  ]

  pruned-balanced :
      (u : String)
      → (entry_of (user_daily_spend window now user s).1 u).total
        ≡ sum_usd (entry_of (user_daily_spend window now user s).1 u).hits
  pruned-balanced u = rw entry_of-user_daily_spend (
      ground
        (arith, prune_entry_lem window now (entry_of s user) (acc.balanced user), acc.balanced u))

  pruned-users :
      (u : String) (after : ℕ)
      → now ≤ after
      → fresh window after (entry_of (user_daily_spend window now user s).1 u).hits
        ≡ fresh window after (ledger u log)
  pruned-users u after le = elim (Bool-cases (user == u)) [
    | inr p ↦ rw (entry_of-user_daily_spend, p) (acc.users u after (omega arith))
    | inl p ↦
        let q : user ≡ u = eq_of_== user u p in
        rw (entry_of-user_daily_spend, p)
          (rw (← q) (
            rw (prune_entry_lem window now (entry_of s user) (acc.balanced user)).0 (
              drop_while-drop_while (is_stale window now) (is_stale window after)
                (λ h e. ground arith) (entry_of s user).hits
              ∙ acc.users user after (omega arith))))
  ]

  other_totals :
      ((user_daily_spend window now user s).1.package_total ≡ s.package_total)
      × ((user_daily_spend window now user s).1.stage_total ≡ s.stage_total)
  unfolding user_daily_spend
  other_totals = (ground arith, ground arith)

-- The daily spend that the store reports is what the log holds of the user in the window that ends
-- now, and the pruning that the read makes leaves a state that still stands for the log.
pub user_daily_spend-Accounts :
    (window t now : ℕ) (user : String) (log : List Charge) (s : SpendState)
    → Accounts window t log s
    → t ≤ now
    → ((user_daily_spend window now user s).0 ≡ daily_sum window now user log)
      × Accounts window now log (user_daily_spend window now user s).1
user_daily_spend-Accounts window t now user log s acc later = (
  user_daily_spend-value window t now log s acc later user,
  record {
    ordered = Ordered-later (λ c. c.ts) 0 t now log acc.ordered later;
    balanced = pruned-balanced window t now log s acc later user;
    users = pruned-users window t now log s acc later user;
    packages = λ k. rw (other_totals window t now log s acc later user).0 (acc.packages k);
    stages = λ k. rw (other_totals window t now log s acc later user).1 (acc.stages k);
  },
)
