-- ===== src/Submissions/Retention/Sorting.antt =====
-- About the order of a sweep: sorting by age moves rows and neither adds nor drops any.
use research_crafters.Prelude.{
  All, All-take, Bool-cases, List, String, [], all, arith, filter, inl, inr, leb, length, refl, suc,
  ◌∷◌, ◌≡◌,
}
use research_crafters.Submissions.Retention.{
  BundleDb, PurgeEnv, Submission, clamp_limit, find_expired, insert_by_age, is_pending, sort_by_age,
}

module _ (P : String × Submission → Type 0) where
  All-insert_by_age :
      (r : String × Submission) (rows : List (String × Submission))
      → P r
      → All P rows
      → All P (insert_by_age r rows)
  unfolding insert_by_age
  All-insert_by_age r [] h rest = (h, tt)
  All-insert_by_age r (q ∷ rows) h (first, rest) =
      elim (Bool-cases (leb r.1.created_at q.1.created_at)) [
        | inl older ↦ rw older (h, (first, rest))
        | inr younger ↦ rw younger (first, All-insert_by_age r rows h rest)
      ]

  All-sort_by_age : (rows : List (String × Submission)) → All P rows → All P (sort_by_age rows)
  unfolding sort_by_age
  All-sort_by_age [] h = h
  All-sort_by_age (r ∷ rows) (first, rest) =
      All-insert_by_age r (sort_by_age rows) first (All-sort_by_age rows rest)

  All-of_insert :
      (r : String × Submission) (rows : List (String × Submission))
      → All P (insert_by_age r rows)
      → P r × All P rows
  unfolding insert_by_age
  All-of_insert r [] (h, rest) = (h, tt)
  All-of_insert r (q ∷ rows) h = elim (Bool-cases (leb r.1.created_at q.1.created_at)) [
    | inl older ↦ let h' = rw older at h in h'
    | inr younger ↦
        let (first, rest) = rw younger at h in
        let (p, all) = All-of_insert r rows rest in (p, (first, all))
  ]

  pub All-of_sort : (rows : List (String × Submission)) → All P (sort_by_age rows) → All P rows
  unfolding sort_by_age
  All-of_sort [] h = h
  All-of_sort (r ∷ rows) h =
      let (first, rest) = All-of_insert r (sort_by_age rows) h in (first, All-of_sort rows rest)

  -- What holds of the pending rows holds of those of a sweep.
  pub All-find_expired :
      (env : PurgeEnv) (db : BundleDb)
      → All P (filter (is_pending env) db.submissions)
      → All P (find_expired env db)
  unfolding find_expired
  All-find_expired env db h =
      All-take P (clamp_limit env.limit) (sort_by_age (filter (is_pending env) db.submissions))
        (All-sort_by_age (filter (is_pending env) db.submissions) h)

length-insert_by_age :
    (r : String × Submission) (rows : List (String × Submission))
    → length (insert_by_age r rows) ≡ suc (length rows)
unfolding insert_by_age
length-insert_by_age r [] = refl
length-insert_by_age r (q ∷ rows) = ground (arith, length-insert_by_age r rows)

pub length-sort_by_age :
    (rows : List (String × Submission)) → length (sort_by_age rows) ≡ length rows
unfolding sort_by_age
length-sort_by_age [] = refl
length-sort_by_age (r ∷ rows) =
    omega (arith, length-insert_by_age r (sort_by_age rows), length-sort_by_age rows)
