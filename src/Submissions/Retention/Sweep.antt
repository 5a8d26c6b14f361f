-- ===== src/Submissions/Retention/Sweep.antt =====
-- About a sweep over the expired bundles.
use research_crafters.Prelude.{
  Bool-cases, List, Option-cases, String, [], arith, contains, eq_iff, false, filter, inl, inr,
  length, length-take, nat_eq, not, refl, some, string_eq, ◌&&◌, ◌+◌, ◌==◌, ◌∷◌, ◌≡◌, ◌≢◌, ◌≤◌,
}
use research_crafters.Submissions.Retention.{
  BundleDb, PurgeEnv, Submission, clamp_limit, cleared, find_expired, is_pending, purge_expired,
  purge_row, purge_rows, sort_by_age,
}
use research_crafters.Submissions.Retention.Window.{clamp_limit-bounds}
use research_crafters.Prelude.Dict.{lookup, lookup-insert}

purge_rows-count :
    (env : PurgeEnv) (rows : List (String × Submission)) (db : BundleDb)
    → (purge_rows env rows db).0 + (purge_rows env rows db).1 ≡ length rows
unfolding purge_rows
purge_rows-count env [] db = refl
purge_rows-count env (r ∷ rest) db =
    ground (arith, purge_rows-count env rest (purge_row env r db).1)

purge_rows-events :
    (env : PurgeEnv) (rows : List (String × Submission)) (db : BundleDb)
    → length (purge_rows env rows db).2 ≡ (purge_rows env rows db).0
unfolding purge_rows
purge_rows-events env [] db = refl
purge_rows-events env (r ∷ rest) db =
    ground (arith, purge_rows-events env rest (purge_row env r db).1)

-- Each row of a sweep counts as purged or as failed, one event is tracked for each purged one, and a
-- sweep has at most 5000 rows.
pub purge_expired-counts :
    (env : PurgeEnv) (db : BundleDb)
    → ((purge_expired env db).0.purged + (purge_expired env db).0.failed
        ≡ (purge_expired env db).0.considered)
      × (length (purge_expired env db).1 ≡ (purge_expired env db).0.purged)
      × ((purge_expired env db).0.considered ≤ 5000)
unfolding purge_expired find_expired
purge_expired-counts env db = (
  purge_rows-count env (find_expired env db) db,
  purge_rows-events env (find_expired env db) db,
  omega (
    arith,
    length-take (clamp_limit env.limit) (sort_by_age (filter (is_pending env) db.submissions)),
    clamp_limit-bounds env.limit,
  ),
)

-- A row whose bundle is gone from the store, as its key says.
abbrev pub Purged : String → String → BundleDb → Type 0
Purged id key db =
    ((s : Submission) × (lookup db.submissions id ≡ some s) × (s.bundle_object_key ≡ ""))
    × (contains db.objects key ≡ false)

contains-filter :
    (keys : List String) (gone key : String)
    → contains (filter (λ k. not (k == gone)) keys) key ≡ (contains keys key && not (key == gone))
contains-filter [] gone key = refl
contains-filter (k ∷ keys) gone key =
    ground (arith, contains-filter keys gone key, eq_iff k gone, eq_iff k key, eq_iff key gone)

pub purge_row-others :
    (env : PurgeEnv) (r : String × Submission) (db : BundleDb) (id : String)
    → r.0 ≢ id
    → lookup (purge_row env r db).1.submissions id ≡ lookup db.submissions id
unfolding purge_row
purge_row-others env (j, s) db id other = elim (Option-cases (lookup db.submissions j)) [
  | inl missing ↦ ground arith
  | inr (row, found) ↦
      ground (arith, other, lookup-insert db.submissions j id (cleared row), eq_iff j id)
]

pub purge_row-objects :
    (env : PurgeEnv) (r : String × Submission) (db : BundleDb) (key : String)
    → r.1.bundle_object_key ≢ key
    → contains (purge_row env r db).1.objects key ≡ contains db.objects key
unfolding purge_row
purge_row-objects env (j, s) db key other = ground (
  arith,
  other,
  contains-filter db.objects s.bundle_object_key key,
  eq_iff key s.bundle_object_key,
)

pub purge_row-keeps_Purged :
    (env : PurgeEnv) (r : String × Submission) (db : BundleDb) (id key : String)
    → Purged id key db
    → Purged id key (purge_row env r db).1
unfolding purge_row
purge_row-keeps_Purged env (j, s) db id key ((row, found, empty), gone) =
    elim (Option-cases (lookup db.submissions j)) [
      | inl missing ↦ (
        (row, ground arith, empty),
        ground (arith, contains-filter db.objects s.bundle_object_key key),
      )
      | inr (stored, at) ↦
          let keys = contains-filter db.objects s.bundle_object_key key in
          let updated = lookup-insert db.submissions j id (cleared stored) in
          elim (Bool-cases (env.delete_fails s.bundle_object_key)) [
            | inl fails ↦ ((row, ground arith, empty), ground arith)
            | inr works ↦ elim (Bool-cases (env.mark_fails j)) [
              | inl fails ↦ ((row, ground arith, empty), ground arith)
              | inr marked ↦ elim (Bool-cases (j == id)) [
                | inl same ↦ ((cleared stored, ground arith, refl), ground arith)
                | inr other ↦ ((row, ground arith, empty), ground arith)
              ]
            ]
          ]
    ]

pub purge_row-Purged :
    (env : PurgeEnv) (r : String × Submission) (db : BundleDb) (row : Submission)
    → lookup db.submissions r.0 ≡ some row
    → env.delete_fails r.1.bundle_object_key ≡ false
    → env.mark_fails r.0 ≡ false
    → Purged r.0 r.1.bundle_object_key (purge_row env r db).1
unfolding purge_row
purge_row-Purged env (j, s) db row found deletes marks = (
  (cleared row, ground (arith, lookup-insert db.submissions j j (cleared row), eq_iff j j), refl),
  ground (
    arith,
    contains-filter db.objects s.bundle_object_key s.bundle_object_key,
    eq_iff s.bundle_object_key s.bundle_object_key,
  ),
)
