-- ===== src/Submissions/Retention/Window.antt =====
-- About the retention window and the size of a sweep.
use research_crafters.Prelude.{List, Option, arith, none, some, ℕ, ◌≤◌}
use research_crafters.Prelude.Number.{Number, int, nan, neg_inf, negsuc, pos, pos_inf}
use research_crafters.Submissions.Retention.{
  clamp_limit, days_of, get_retention_days, max_retention_days, parse_int,
}

days_of-bounds : (x : Number) → (1 ≤ days_of x) × (days_of x ≤ max_retention_days)
days_of-bounds nan = (omega arith, omega arith)
days_of-bounds pos_inf = (omega arith, omega arith)
days_of-bounds neg_inf = (omega arith, omega arith)
days_of-bounds (int (negsuc n)) = (omega arith, omega arith)
days_of-bounds (int (pos n)) = (ground arith, ground arith)

-- Whatever the environment says, bundles are kept for at least a day and for at most 365.
pub get_retention_days-bounds :
    (raw : Option (List ℕ))
    → (1 ≤ get_retention_days raw) × (get_retention_days raw ≤ max_retention_days)
unfolding get_retention_days
get_retention_days-bounds none = (omega arith, omega arith)
get_retention_days-bounds (some raw) =
    let (low, high) = days_of-bounds (parse_int raw) in (ground (arith, low), ground (arith, high))

pub clamp_limit-bounds : (o : Option Number) → (1 ≤ clamp_limit o) × (clamp_limit o ≤ 5000)
unfolding clamp_limit
clamp_limit-bounds none = (omega arith, omega arith)
clamp_limit-bounds (some nan) = (omega arith, omega arith)
clamp_limit-bounds (some pos_inf) = (omega arith, omega arith)
clamp_limit-bounds (some neg_inf) = (omega arith, omega arith)
clamp_limit-bounds (some (int (negsuc n))) = (omega arith, omega arith)
clamp_limit-bounds (some (int (pos n))) = (ground arith, ground arith)
