-- ===== src/Worker/Rollup/Tests.antt =====
-- A node with two branches.
use research_crafters.Prelude.{
  All, Bool, List, String, [], codes_eq, length, map, nat_eq, none, refl, some, string_eq, ℕ, ◌==◌,
  ◌∷◌, ◌≡◌,
}
use research_crafters.Prelude.Dict.{insert, lookup}
use research_crafters.Worker.Rollup.{
  RollupJob, StatRow, TraversalRow, aggregate, compute_percent, count_row, count_rows, list_counts,
  node_rows, run_rollup, upsert, write_stats,
}
use research_crafters.Worker.Rollup.Counting.{Counted, aggregate-Counted}

abbrev took : String → ℕ → TraversalRow
took branch at = record {
  decision_node_id = "n1";
  branch_id = some branch;
  package_version_id = "v1";
  selected_at = at;
}

abbrev traversals : List TraversalRow
traversals = took "b1" 1 ∷ took "b2" 2 ∷ took "b1" 3 ∷ took "" 4 ∷ []

abbrev rollup_job : RollupJob
rollup_job = record {
  job_version_id = "v1";
  cohort = "completers";
  window_start = 0;
  window_end = 10;
}

rows_of_two : length (aggregate traversals) ≡ 2
unfolding aggregate count_rows count_row insert lookup list_counts node_rows
rows_of_two = refl

-- At a half, 23 of 40 falls below, and 5 of 40 does not.
abbrev falls_below : ℕ → ℕ → Bool
falls_below b n = b == 23

percents :
    (compute_percent falls_below 5 40 ≡ some 15)
    × (compute_percent falls_below 23 40 ≡ some 55)
    × (compute_percent falls_below 4 40 ≡ none)
unfolding compute_percent
percents = (refl, refl, refl)

aggregate-Counted_example : All (Counted traversals) (aggregate traversals)
aggregate-Counted_example = aggregate-Counted traversals

-- Eight learners took the first branch, sixteen the second.
abbrev crowd : List TraversalRow
crowd =
    took "b1" 1
    ∷ took "b1" 1
    ∷ took "b1" 1
    ∷ took "b1" 1
    ∷ took "b1" 1
    ∷ took "b1" 1
    ∷ took "b1" 1
    ∷ took "b1" 1
    ∷ took "b2" 2
    ∷ took "b2" 2
    ∷ took "b2" 2
    ∷ took "b2" 2
    ∷ took "b2" 2
    ∷ took "b2" 2
    ∷ took "b2" 2
    ∷ took "b2" 2
    ∷ took "b2" 2
    ∷ took "b2" 2
    ∷ took "b2" 2
    ∷ took "b2" 2
    ∷ took "b2" 2
    ∷ took "b2" 2
    ∷ took "b2" 2
    ∷ took "b2" 2
    ∷ []

crowd_published :
    map (λ (s : StatRow). s.percent) (run_rollup falls_below rollup_job crowd []).1
    ≡ some 35 ∷ some 65 ∷ []
unfolding run_rollup aggregate count_rows count_row insert lookup list_counts node_rows write_stats
    upsert compute_percent
crowd_published = refl
