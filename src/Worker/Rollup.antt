-- ===== src/Worker/Rollup.antt =====
-- apps/worker/src/jobs/branch-stats-rollup.ts: how many learners took which branch. Calls of the
-- database that throw are left out. The percentage is a quotient of doubles, which differs from the
-- exact one too little to matter except where that is half way between two multiples of 5: there it
-- may fall below, as for 23 of 40, which is published as 55. An argument says where it does.
pub mod Counting
pub mod Rounding
pub mod Publishing
mod Tests
use research_crafters.Prelude.{
  Bool, List, Option, String, [], codes_eq, filter, get_or, if◌then◌else◌, leb, length, ltb, nat_eq,
  none, some, string_eq, ℕ, ◌%◌, ◌&&◌, ◌*◌, ◌++◌, ◌+◌, ◌-◌, ◌/◌, ◌==◌, ◌∷◌,
}
use research_crafters.Prelude.Dict.{Dict, insert, lookup}

abbrev pub node_min_n : ℕ
node_min_n = 20

abbrev pub branch_min_n : ℕ
branch_min_n = 5

pub record TraversalRow : Type 0 where
  pub decision_node_id : String
  pub branch_id : Option String
  pub package_version_id : String
  pub selected_at : ℕ

pub record RollupJob : Type 0 where
  pub job_version_id : String
  pub cohort : String
  pub window_start : ℕ
  pub window_end : ℕ

pub record AggregatedRow : Type 0 where
  pub node : String
  pub branch : String
  pub branch_n : ℕ
  pub node_n : ℕ

pub record StatRow : Type 0 where
  pub stat_version_id : String
  pub stat_node : String
  pub stat_branch : String
  pub stat_cohort : String
  pub stat_start : ℕ
  pub stat_end : ℕ
  pub n : ℕ
  pub percent : Option ℕ

-- `nodeCounts` and `branchCounts`
pub record Counts : Type 0 where
  pub node_counts : Dict ℕ
  pub branch_counts : Dict (Dict ℕ)

abbrev pub count_at : Dict ℕ → String → ℕ
count_at d k = get_or (lookup d k) 0

abbrev pub bump : Dict ℕ → String → Dict ℕ
bump d k = insert d k (count_at d k + 1)

abbrev pub count_branch : Counts → String → String → Counts
count_branch c node branch = record {
  node_counts = bump c.node_counts node;
  branch_counts =
      insert c.branch_counts node (bump (get_or (lookup c.branch_counts node) []) branch);
}

-- The body of the first loop of `aggregateTraversals`.
unfoldable pub count_row : TraversalRow → Counts → Counts
count_row row c = elim row.branch_id [
  | none ↦ c
  | some branch ↦ if branch == "" then c else count_branch c row.decision_node_id branch
]

unfoldable pub count_rows : List TraversalRow → Counts → Counts
count_rows [] c = c
count_rows (row ∷ rows) c = count_rows rows (count_row row c)

unfoldable pub node_rows : String → ℕ → Dict ℕ → List AggregatedRow
node_rows node node_n [] = []
node_rows node node_n ((branch, branch_n) ∷ rest) =
    record { node = node; branch = branch; branch_n = branch_n; node_n = node_n }
    ∷ node_rows node node_n rest

unfoldable pub list_counts : Dict ℕ → Dict (Dict ℕ) → List AggregatedRow
list_counts nodes [] = []
list_counts nodes ((node, branches) ∷ rest) =
    node_rows node (count_at nodes node) branches ++ list_counts nodes rest

abbrev pub no_counts : Counts
no_counts = record { node_counts = []; branch_counts = [] }

-- `aggregateTraversals`
unfoldable pub aggregate : List TraversalRow → List AggregatedRow
aggregate rows = let c = count_rows rows no_counts in list_counts c.node_counts c.branch_counts

-- Is the exact percentage half way between two multiples of 5?
abbrev pub is_half_way : ℕ → ℕ → Bool
is_half_way branch_n node_n = (40 * branch_n + node_n) % (2 * node_n) == 0

-- `roundToNearestFive` of `(branchN / nodeN) * 100`, where half rounds up; `falls_below` says where a
-- percentage half way is computed below that.
abbrev pub round_to_five : (ℕ → ℕ → Bool) → ℕ → ℕ → ℕ
round_to_five falls_below branch_n node_n =
    let fives = (40 * branch_n + node_n) / (2 * node_n) in
    if is_half_way branch_n node_n && falls_below branch_n node_n
    then (fives - 1) * 5
    else fives * 5

-- `computePercent`
unfoldable pub compute_percent : (ℕ → ℕ → Bool) → ℕ → ℕ → Option ℕ
compute_percent falls_below branch_n node_n =
    if ltb node_n node_min_n
    then none
    else if ltb branch_n branch_min_n
    then none
    else if node_n == 0
    then none
    else some (round_to_five falls_below branch_n node_n)

-- The `where` of the query.
abbrev pub in_window : RollupJob → TraversalRow → Bool
in_window job row =
    leb job.window_start row.selected_at
    && (ltb row.selected_at job.window_end && row.package_version_id == job.job_version_id)

abbrev pub is_stat : RollupJob → AggregatedRow → StatRow → Bool
is_stat job row s =
    s.stat_version_id == job.job_version_id
    && (s.stat_node == row.node
        && (s.stat_branch == row.branch
            && (s.stat_cohort == job.cohort && s.stat_start == job.window_start)))

abbrev pub new_stat : (ℕ → ℕ → Bool) → RollupJob → AggregatedRow → StatRow
new_stat falls_below job row = record {
  stat_version_id = job.job_version_id;
  stat_node = row.node;
  stat_branch = row.branch;
  stat_cohort = job.cohort;
  stat_start = job.window_start;
  stat_end = job.window_end;
  n = row.branch_n;
  percent = compute_percent falls_below row.branch_n row.node_n;
}

abbrev pub updated_stat : (ℕ → ℕ → Bool) → RollupJob → AggregatedRow → StatRow → StatRow
updated_stat falls_below job row s = record s {
  n = row.branch_n;
  percent = compute_percent falls_below row.branch_n row.node_n;
  stat_end = job.window_end;
}

-- `findFirst`, then `update` or `create`.
unfoldable pub upsert : (ℕ → ℕ → Bool) → RollupJob → AggregatedRow → List StatRow → List StatRow
upsert falls_below job row [] = new_stat falls_below job row ∷ []
upsert falls_below job row (s ∷ stats) =
    let rest = upsert falls_below job row stats in
    if is_stat job row s then updated_stat falls_below job row s ∷ stats else s ∷ rest

unfoldable pub write_stats :
    (ℕ → ℕ → Bool) → RollupJob → List AggregatedRow → List StatRow → List StatRow
write_stats falls_below job [] stats = stats
write_stats falls_below job (row ∷ rows) stats =
    write_stats falls_below job rows (upsert falls_below job row stats)

-- `runBranchStatsRollup`: how many rows it wrote, and the table.
unfoldable pub run_rollup :
    (ℕ → ℕ → Bool) → RollupJob → List TraversalRow → List StatRow → ℕ × List StatRow
run_rollup falls_below job traversals stats =
    let rows = aggregate (filter (in_window job) traversals) in
    (length rows, write_stats falls_below job rows stats)
