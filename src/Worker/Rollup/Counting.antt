-- ===== src/Worker/Rollup/Counting.antt =====
-- About the counts of the aggregation.
use research_crafters.Prelude.{
  All, All-append, All-both, All-map, Bool, Bool-cases, List, Option-cases, String, [], arith,
  codes_eq, eq_iff, false, filter, get_or, if◌then◌else◌, inl, inr, length, nat_eq, none, not, some,
  string_eq, ℕ, ◌&&◌, ◌+◌, ◌==◌, ◌∷◌, ◌≡◌,
}
use research_crafters.Prelude.Dict.{
  All-insert, All-lookup, Dict, KeysDistinct, KeysDistinct-WellKeyed, KeysDistinct-insert, lookup,
  lookup-insert,
}
use research_crafters.Worker.Rollup.{
  AggregatedRow, Counts, TraversalRow, aggregate, bump, count_at, count_branch, count_row,
  count_rows, list_counts, no_counts, node_rows,
}

-- Rows that chose a branch of the node, and those that chose this branch.
abbrev pub chose : String → String → TraversalRow → Bool
chose node branch row = elim row.branch_id [
  | none ↦ false
  | some b ↦ not (b == "") && (row.decision_node_id == node && b == branch)
]

abbrev pub reached : String → TraversalRow → Bool
reached node row = elim row.branch_id [
  | none ↦ false
  | some b ↦ not (b == "") && row.decision_node_id == node
]

abbrev pub branch_count : Counts → String → String → ℕ
branch_count c node branch = count_at (get_or (lookup c.branch_counts node) []) branch

abbrev pub as_one : Bool → ℕ
as_one b = if b then 1 else 0

bump-count : (d : Dict ℕ) (k j : String) → count_at (bump d k) j ≡ count_at d j + as_one (k == j)
bump-count d k j = ground (arith, lookup-insert d k j (count_at d k + 1), eq_iff k j)

count_branch-count :
    (c : Counts) (n b node branch : String)
    → branch_count (count_branch c n b) node branch
      ≡ branch_count c node branch + as_one (n == node && b == branch)
count_branch-count c n b node branch =
    let inner = get_or (lookup c.branch_counts n) [] in
    ground (
      arith,
      lookup-insert c.branch_counts n node (bump inner b),
      bump-count inner b branch,
      eq_iff n node,
    )

count_row-branch :
    (row : TraversalRow) (c : Counts) (node branch : String)
    → branch_count (count_row row c) node branch
      ≡ branch_count c node branch + as_one (chose node branch row)
unfolding count_row
count_row-branch row c node branch = elim (Option-cases row.branch_id) [
  | inl none_chosen ↦ ground arith
  | inr (b, is) ↦ ground (arith, count_branch-count c row.decision_node_id b node branch)
]

count_row-node :
    (row : TraversalRow) (c : Counts) (node : String)
    → count_at (count_row row c).node_counts node
      ≡ count_at c.node_counts node + as_one (reached node row)
unfolding count_row
count_row-node row c node = elim (Option-cases row.branch_id) [
  | inl none_chosen ↦ ground arith
  | inr (b, is) ↦ ground (arith, bump-count c.node_counts row.decision_node_id node)
]

count_rows-branch_from :
    (rows : List TraversalRow) (c : Counts) (node branch : String)
    → branch_count (count_rows rows c) node branch
      ≡ branch_count c node branch + length (filter (chose node branch) rows)
unfolding count_rows
count_rows-branch_from [] c node branch = omega arith
count_rows-branch_from (row ∷ rows) c node branch = ground (
  arith,
  count_rows-branch_from rows (count_row row c) node branch,
  count_row-branch row c node branch,
)

count_rows-node_from :
    (rows : List TraversalRow) (c : Counts) (node : String)
    → count_at (count_rows rows c).node_counts node
      ≡ count_at c.node_counts node + length (filter (reached node) rows)
unfolding count_rows
count_rows-node_from [] c node = omega arith
count_rows-node_from (row ∷ rows) c node =
    ground (arith, count_rows-node_from rows (count_row row c) node, count_row-node row c node)

-- No node twice, and no branch of a node twice.
abbrev Sound : Counts → Type 0
Sound c =
    KeysDistinct c.branch_counts × All (λ (r : String × Dict ℕ). KeysDistinct r.1) c.branch_counts

inner-distinct :
    (c : Counts) (node : String) → Sound c → KeysDistinct (get_or (lookup c.branch_counts node) [])
inner-distinct c node (keys, inner) = elim (Option-cases (lookup c.branch_counts node)) [
  | inl missing ↦ rw missing tt
  | inr (d, found) ↦
      rw found (All-lookup (λ r. KeysDistinct r.1) c.branch_counts node d inner found)
]

count_branch-Sound :
    (c : Counts) (node branch : String) → Sound c → Sound (count_branch c node branch)
count_branch-Sound c node branch (keys, inner) =
    let old = get_or (lookup c.branch_counts node) [] in
    let bumped = bump old branch in
    (
      KeysDistinct-insert c.branch_counts node bumped keys,
      All-insert (λ (r : String × Dict ℕ). KeysDistinct r.1) c.branch_counts node bumped inner
          (KeysDistinct-insert old branch (count_at old branch + 1)
            (inner-distinct c node (keys, inner))),
    )

count_row-Sound : (row : TraversalRow) (c : Counts) → Sound c → Sound (count_row row c)
unfolding count_row
count_row-Sound row c h = elim (Option-cases row.branch_id) [
  | inl missing ↦ rw missing h
  | inr (b, is) ↦ elim (Bool-cases (b == "")) [
    | inl empty ↦ rw is (rw empty h)
    | inr full ↦ rw is (rw full (count_branch-Sound c row.decision_node_id b h))
  ]
]

count_rows-Sound : (rows : List TraversalRow) (c : Counts) → Sound c → Sound (count_rows rows c)
unfolding count_rows
count_rows-Sound [] c h = h
count_rows-Sound (row ∷ rows) c h =
    count_rows-Sound rows (count_row row c) (count_row-Sound row c h)

-- The numbers of a row of the aggregation.
abbrev pub Counted : List TraversalRow → AggregatedRow → Type 0
Counted rows r =
    (r.branch_n ≡ length (filter (chose r.node r.branch) rows))
    × (r.node_n ≡ length (filter (reached r.node) rows))

node_rows-Counted :
    (rows : List TraversalRow) (node : String) (node_n : ℕ) (branches : Dict ℕ)
    → node_n ≡ length (filter (reached node) rows)
    → All (λ (r : String × ℕ). r.1 ≡ length (filter (chose node r.0) rows)) branches
    → All (Counted rows) (node_rows node node_n branches)
unfolding node_rows
node_rows-Counted rows node node_n [] is h = tt
node_rows-Counted rows node node_n ((branch, m) ∷ rest) is (first, others) =
    ((first, is), node_rows-Counted rows node node_n rest is others)

list_counts-Counted :
    (rows : List TraversalRow) (nodes : Dict ℕ) (d : Dict (Dict ℕ))
    → ((node : String) → count_at nodes node ≡ length (filter (reached node) rows))
    → All
        (λ (r : String × Dict ℕ).
          All (λ (q : String × ℕ). q.1 ≡ length (filter (chose r.0 q.0) rows)) r.1)
        d
    → All (Counted rows) (list_counts nodes d)
unfolding list_counts
list_counts-Counted rows nodes [] is h = tt
list_counts-Counted rows nodes ((node, branches) ∷ rest) is (first, others) =
    All-append (Counted rows) (node_rows node (count_at nodes node) branches)
      (list_counts nodes rest)
      (node_rows-Counted rows node (count_at nodes node) branches (is node) first)
      (list_counts-Counted rows nodes rest is others)

-- Each row of the aggregation has the number of traversals that chose its branch of its node, and of
-- those that chose any branch of the node.
pub aggregate-Counted : (rows : List TraversalRow) → All (Counted rows) (aggregate rows)
unfolding aggregate lookup
aggregate-Counted rows =
    let c = count_rows rows no_counts in
    let (keys, inner) = count_rows-Sound rows no_counts (tt, tt) in
    list_counts-Counted rows c.node_counts c.branch_counts
      (λ node. ground (arith, count_rows-node_from rows no_counts node))
      (All-map (λ (r : String × Dict ℕ). (lookup c.branch_counts r.0 ≡ some r.1) × KeysDistinct r.1)
        (λ (r : String × Dict ℕ).
          All (λ (q : String × ℕ). q.1 ≡ length (filter (chose r.0 q.0) rows)) r.1)
        c.branch_counts
        (λ (node, branches) (at, distinct).
          All-map (λ (q : String × ℕ). lookup branches q.0 ≡ some q.1)
            (λ (q : String × ℕ). q.1 ≡ length (filter (chose node q.0) rows)) branches
            (λ (branch, m) found.
              ground (arith, at, found, count_rows-branch_from rows no_counts node branch))
            (KeysDistinct-WellKeyed branches distinct))
        (All-both (λ (r : String × Dict ℕ). lookup c.branch_counts r.0 ≡ some r.1)
          (λ (r : String × Dict ℕ). KeysDistinct r.1) c.branch_counts
          (KeysDistinct-WellKeyed c.branch_counts keys) inner))
