-- ===== src/Submissions/Retention/Purging.antt =====
-- Which bundles a sweep takes away, and which it leaves.
use research_crafters.Prelude.{
  All, All-filter, All-filtered, All-map, All-of_filter, All-passing, Bool-cases, List,
  Option-cases, String, [], arith, contains, false, filter, inl, inr, length, nat_eq, refl, some,
  string_eq, subst, sym, take_all, true, ◌==◌, ◌||◌, ◌∙◌, ◌∷◌, ◌≡◌, ◌≢◌, ◌≤◌,
}
use research_crafters.Prelude.Dict.{All-lookup, WellKeyed, lookup, lookup-insert}
use research_crafters.Submissions.Retention.{
  BundleDb, PurgeEnv, Submission, clamp_limit, cleared, find_expired, is_pending, purge_expired,
  purge_row, purge_rows, sort_by_age,
}
use research_crafters.Submissions.Retention.Sweep.{
  Purged, purge_row-Purged, purge_row-keeps_Purged, purge_row-objects, purge_row-others,
}
use research_crafters.Submissions.Retention.Sorting.{
  All-find_expired, All-of_sort, length-sort_by_age,
}

purge_rows-others :
    (env : PurgeEnv) (rows : List (String × Submission)) (db : BundleDb) (id : String)
    → All (λ (r : String × Submission). r.0 ≢ id) rows
    → lookup (purge_rows env rows db).3.submissions id ≡ lookup db.submissions id
unfolding purge_rows
purge_rows-others env [] db id h = refl
purge_rows-others env (r ∷ rest) db id (first, others) = ground (
  arith,
  purge_row-others env r db id first,
  purge_rows-others env rest (purge_row env r db).1 id others,
)

purge_rows-objects :
    (env : PurgeEnv) (rows : List (String × Submission)) (db : BundleDb) (key : String)
    → All (λ (r : String × Submission). r.1.bundle_object_key ≢ key) rows
    → contains (purge_rows env rows db).3.objects key ≡ contains db.objects key
unfolding purge_rows
purge_rows-objects env [] db key h = refl
purge_rows-objects env (r ∷ rest) db key (first, others) = ground (
  arith,
  purge_row-objects env r db key first,
  purge_rows-objects env rest (purge_row env r db).1 key others,
)

purge_rows-step :
    (env : PurgeEnv) (r : String × Submission) (rest : List (String × Submission)) (db : BundleDb)
    → (purge_rows env (r ∷ rest) db).3 ≡ (purge_rows env rest (purge_row env r db).1).3
unfolding purge_rows
purge_rows-step env r rest db = ground arith

purge_rows-keeps_Purged :
    (env : PurgeEnv) (rows : List (String × Submission)) (db : BundleDb) (id key : String)
    → Purged id key db
    → Purged id key (purge_rows env rows db).3
unfolding purge_rows
purge_rows-keeps_Purged env [] db id key h = h
purge_rows-keeps_Purged env (r ∷ rest) db id key h = rw (purge_rows-step env r rest db) (
    purge_rows-keeps_Purged env rest (purge_row env r db).1 id key
      (purge_row-keeps_Purged env r db id key h))

abbrev HasRow : BundleDb → String → Type 0
HasRow db id = (row : Submission) × (lookup db.submissions id ≡ some row)

purge_row-Row :
    (env : PurgeEnv) (r : String × Submission) (db : BundleDb) (id : String)
    → HasRow db id
    → HasRow (purge_row env r db).1 id
unfolding purge_row
purge_row-Row env (j, s) db id (row, h) = elim (Option-cases (lookup db.submissions j)) [
  | inl missing ↦ (row, ground arith)
  | inr (stored, at) ↦
      let updated = lookup-insert db.submissions j id (cleared stored) in
      elim (Bool-cases (env.delete_fails s.bundle_object_key || env.mark_fails j)) [
        | inl fails ↦ (row, ground arith)
        | inr works ↦ elim (Bool-cases (j == id)) [
          | inl same ↦ (cleared stored, ground arith)
          | inr other ↦ (row, ground arith)
        ]
      ]
]

-- The calls on a row go through.
abbrev pub Works : PurgeEnv → String × Submission → Type 0
Works env r = (env.delete_fails r.1.bundle_object_key ≡ false) × (env.mark_fails r.0 ≡ false)

abbrev PurgedIn : PurgeEnv → BundleDb → String × Submission → Type 0
PurgedIn env db r = Works env r → Purged r.0 r.1.bundle_object_key db

purge_rows-Purged :
    (env : PurgeEnv) (rows : List (String × Submission)) (db : BundleDb)
    → All (λ (r : String × Submission). HasRow db r.0) rows
    → All (PurgedIn env (purge_rows env rows db).3) rows
purge_rows-Purged env [] db h = tt
purge_rows-Purged env (r ∷ rest) db ((row, found), others) =
    let db1 = (purge_row env r db).1 in
    subst (λ d. All (PurgedIn env d) (r ∷ rest)) (sym (purge_rows-step env r rest db))
      (
        λ (deletes, marks).
            purge_rows-keeps_Purged env rest db1 r.0 r.1.bundle_object_key
              (purge_row-Purged env r db row found deletes marks),
        purge_rows-Purged env rest db1 (
            All-map (λ (q : String × Submission). HasRow db q.0)
              (λ (q : String × Submission). HasRow db1 q.0) rest
              (λ q has. purge_row-Row env r db q.0 has) others),
      )

AtKey : BundleDb → String × Submission → Type 0
AtKey db r = lookup db.submissions r.0 ≡ some r.1

found-AtKey :
    (env : PurgeEnv) (db : BundleDb)
    → WellKeyed db.submissions
    → All (AtKey db) (find_expired env db)
unfolding AtKey
found-AtKey env db keyed =
    All-find_expired (AtKey db) env db (All-filter (AtKey db) (is_pending env) db.submissions keyed)

found-Pending :
    (env : PurgeEnv) (db : BundleDb)
    → All (λ (r : String × Submission). is_pending env r ≡ true) (find_expired env db)
found-Pending env db =
    All-find_expired (λ r. is_pending env r ≡ true) env db
      (All-filtered (is_pending env) db.submissions)

not_among :
    (env : PurgeEnv) (db : BundleDb) (id : String) (s : Submission)
    → lookup db.submissions id ≡ some s
    → is_pending env (id, s) ≡ false
    → (rows : List (String × Submission)) → All (AtKey db) rows
    → All (λ (r : String × Submission). is_pending env r ≡ true) rows
    → All (λ (r : String × Submission). r.0 ≢ id) rows
unfolding AtKey
not_among env db id s found left [] keyed pend = tt
not_among env db id s found left ((j, q) ∷ rows) (at, keyed) (is, pend) = (
  λ same. absurd (ground (arith, at, is, found, left, same)),
  not_among env db id s found left rows keyed pend,
)

-- A submission that is younger than the window, or whose bundle is gone already, keeps its row, in a
-- table whose ids are unique.
pub purge_expired-spares :
    (env : PurgeEnv) (db : BundleDb) (id : String) (s : Submission)
    → WellKeyed db.submissions
    → lookup db.submissions id ≡ some s
    → is_pending env (id, s) ≡ false
    → lookup (purge_expired env db).2.submissions id ≡ some s
unfolding purge_expired
purge_expired-spares env db id s keyed found left =
    purge_rows-others env (find_expired env db) db id (
      not_among env db id s found left (find_expired env db) (found-AtKey env db keyed)
        (found-Pending env db))
    ∙ found

-- An object to which no pending submission points stays in the store.
pub purge_expired-objects :
    (env : PurgeEnv) (db : BundleDb) (key : String)
    → All
        (λ (r : String × Submission). is_pending env r ≡ true → r.1.bundle_object_key ≢ key)
        db.submissions
    → contains (purge_expired env db).2.objects key ≡ contains db.objects key
unfolding purge_expired
purge_expired-objects env db key others = purge_rows-objects env (find_expired env db) db key (
    All-find_expired (λ (r : String × Submission). r.1.bundle_object_key ≢ key) env db
      (All-passing (λ (r : String × Submission). r.1.bundle_object_key ≢ key) (is_pending env)
        db.submissions others))

-- In a table whose ids are unique, where no more bundles are pending than a sweep takes, a sweep purges
-- each pending bundle for which the two calls go through, whatever becomes of the others: the row's
-- key is empty and the object is gone.
pub purge_expired-Purged :
    (env : PurgeEnv) (db : BundleDb) (id : String) (s : Submission)
    → WellKeyed db.submissions
    → length (filter (is_pending env) db.submissions) ≤ clamp_limit env.limit
    → lookup db.submissions id ≡ some s
    → is_pending env (id, s) ≡ true
    → Works env (id, s)
    → Purged id s.bundle_object_key (purge_expired env db).2
unfolding purge_expired find_expired AtKey
purge_expired-Purged env db id s keyed few found pending works =
    let pend = filter (is_pending env) db.submissions in
    let sorted = sort_by_age pend in
    let whole =
      take_all (clamp_limit env.limit) sorted (omega (arith, few, length-sort_by_age pend)) in
    let rows = find_expired env db in
    let all = purge_rows-Purged env rows db (
      All-map (AtKey db) (λ (r : String × Submission). HasRow db r.0) rows (λ r at. (r.1, at))
        (found-AtKey env db keyed)) in
    let sorted_all = subst (λ l. All (PurgedIn env (purge_expired env db).2) l) whole all in
    let of_all =
      All-of_filter (PurgedIn env (purge_expired env db).2) (is_pending env) db.submissions
        (All-of_sort (PurgedIn env (purge_expired env db).2) pend sorted_all) in
    All-lookup (λ r. is_pending env r ≡ true → PurgedIn env (purge_expired env db).2 r)
      db.submissions id s of_all found pending works
