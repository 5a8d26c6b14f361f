-- ===== src/Worker/Rollup/Publishing.antt =====
-- Which percentages are published.
use research_crafters.Prelude.{All, List, filter, length, some, ℕ, ◌%◌, ◌<◌, ◌≡◌, ◌≤◌}
use research_crafters.Worker.Rollup.{StatRow, TraversalRow}
use research_crafters.Worker.Rollup.Counting.{chose, reached}
use research_crafters.Worker.Rollup.Rounding.{Nearest}

-- The traversals that a row of the table counts: of its version, in its window.
abbrev pub CountsFor : StatRow → TraversalRow → Type 0
CountsFor s row =
    (row.package_version_id ≡ s.stat_version_id)
    × (s.stat_start ≤ row.selected_at)
    × (row.selected_at < s.stat_end)

-- What may stand in the table. A percentage rests on traversals of the row's version and window: at
-- least 20 of them reached the node, at least 5 chose the branch, which is the row's number, and it is
-- the multiple of 5, at most 100, that is nearest to their share.
abbrev pub Publishable : StatRow → Type 0
Publishable s =
    (p : ℕ)
    → s.percent ≡ some p
    → (rows : List TraversalRow) × All (CountsFor s) rows
      × (20 ≤ length (filter (reached s.stat_node) rows))
      × (5 ≤ length (filter (chose s.stat_node s.stat_branch) rows))
      × (s.n ≡ length (filter (chose s.stat_node s.stat_branch) rows))
      × (p % 5 ≡ 0)
      × (p ≤ 100)
      × Nearest p (length (filter (chose s.stat_node s.stat_branch) rows))
          (length (filter (reached s.stat_node) rows))
