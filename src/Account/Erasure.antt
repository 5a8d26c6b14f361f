-- ===== src/Account/Erasure.antt =====
-- What is left of a user after the erasure.
use research_crafters.Prelude.{
  Bool, List, Option, String, [], ap, arith, eq_iff, filter, none, not, refl, some, subst, sym,
  ◌++ₛ◌, ◌∙◌, ◌∷◌, ◌≡◌,
}
use research_crafters.Prelude.Dict.{insert, lookup, lookup-insert}
use research_crafters.Account.{
  AccountDb, AccountExport, Row, Texts, UserRow, anonymized, attempt_ids, delete_account, delete_in,
  enrollment_ids, erased, export_account, find_in, find_many, has_key, key_in, scrub,
  submission_ids, thread_ids,
}

-- The row of a user who is not named any more: the address is made from the id, the rest is empty, and
-- only the time of creation stays.
abbrev pub Nameless : String → UserRow → UserRow → Type 0
Nameless user row person =
    (person.email ≡ "anonymized-" ++ₛ user ++ₛ "@deleted.invalid")
    × (person.github_handle ≡ none)
    × (person.display_name ≡ none)
    × (person.name ≡ none)
    × (person.image ≡ none)
    × (person.email_verified ≡ none)
    × (person.created_at ≡ row.created_at)

module _ {V : Type 0} where
  filter-rest :
      (p : Row V → Bool) (rows : List (Row V)) → filter p (filter (λ row. not (p row)) rows) ≡ []
  filter-rest p [] = refl
  filter-rest p (row ∷ rows) = ground (arith, filter-rest p rows)

  find_in-delete_in :
      (ids : List String) (rows : List (Row V)) → find_in ids (delete_in ids rows) ≡ []
  unfolding find_in delete_in
  find_in-delete_in ids rows = ground (arith, filter-rest (key_in ids) rows)

  find_many-scrub : (k : String) (rows : List (Row V)) → find_many k (scrub k rows) ≡ []
  unfolding scrub
  find_many-scrub k [] = refl
  find_many-scrub k (row ∷ rows) = ground (arith, find_many-scrub k rows)

  -- No row of a table is selected any more by the user, by the user's old address, or by the ids that
  -- the user's rows had.
  abbrev pub Erased : String → UserRow → AccountDb V → AccountDb V → Type 0
  Erased user row db db' =
      ((person : UserRow) × (lookup db'.users user ≡ some person) × Nameless user row person)
      × (find_many user db'.sessions ≡ [])
      × (find_many user db'.accounts ≡ [])
      × (find_many user db'.device_flows ≡ [])
      × (find_many row.email db'.tokens ≡ [])
      × (find_in (submission_ids user db) db'.runs ≡ [])
      × (find_in (attempt_ids user db) db'.grades ≡ [])
      × (find_in (attempt_ids user db) db'.submissions ≡ [])
      × (find_in (enrollment_ids user db) db'.attempts ≡ [])
      × (find_in (thread_ids user db) db'.messages ≡ [])
      × (find_in (enrollment_ids user db) db'.threads ≡ [])
      × (find_in (enrollment_ids user db) db'.traversals ≡ [])
      × (find_many user db'.share_cards ≡ [])
      × (find_many user db'.enrollments ≡ [])
      × (find_many user db'.entitlements ≡ [])
      × (find_many user db'.memberships ≡ [])
      × (find_many user db'.events ≡ [])
      × (find_many user db'.reviews ≡ [])

  erased-Erased :
      (user : String) (row : UserRow) (db : AccountDb V) → Erased user row db (erased user row db)
  unfolding erased
  erased-Erased user row db = (
    (
      anonymized user row,
      ground (arith, lookup-insert db.users user user (anonymized user row), eq_iff user user),
      (refl, refl, refl, refl, refl, refl, refl),
    ),
    filter-rest (has_key user) db.sessions,
    filter-rest (has_key user) db.accounts,
    filter-rest (has_key user) db.device_flows,
    filter-rest (has_key row.email) db.tokens,
    find_in-delete_in (submission_ids user db) db.runs,
    find_in-delete_in (attempt_ids user db) db.grades,
    find_in-delete_in (attempt_ids user db) db.submissions,
    find_in-delete_in (enrollment_ids user db) db.attempts,
    find_in-delete_in (thread_ids user db) db.messages,
    find_in-delete_in (enrollment_ids user db) db.threads,
    find_in-delete_in (enrollment_ids user db) db.traversals,
    filter-rest (has_key user) db.share_cards,
    filter-rest (has_key user) db.enrollments,
    filter-rest (has_key user) db.entitlements,
    filter-rest (has_key user) db.memberships,
    find_many-scrub user db.events,
    find_many-scrub user db.reviews,
  )

  pub delete_account-found :
      (user : String) (row : UserRow) (db : AccountDb V)
      → lookup db.users user ≡ some row
      → (delete_account user db).1 ≡ erased user row db
  unfolding delete_account
  delete_account-found user row db found = ground arith

  -- Deleting the account of a user who is there leaves no row that the user, the user's address, or a
  -- row of the user's old chain selects, in any table; the user's own row stands with
  -- an address made from the id, without handle, names, image and verified address, and with its time of
  -- creation.
  pub delete_account-Erased :
      (user : String) (row : UserRow) (db : AccountDb V)
      → lookup db.users user ≡ some row
      → Erased user row db (delete_account user db).1
  delete_account-Erased user row db found =
      subst (Erased user row db) (sym (delete_account-found user row db found))
        (erased-Erased user row db)

  abbrev pub empty_export : Option UserRow → AccountExport V
  empty_export row = record {
    user = row;
    exported_memberships = [];
    exported_entitlements = [];
    exported_enrollments = [];
    exported_attempts = [];
    exported_traversals = [];
    exported_submissions = [];
    exported_runs = [];
    exported_grades = [];
    exported_threads = [];
    exported_messages = [];
    exported_cards = [];
    exported_events = [];
  }

  find_in_none : (rows : List (Row V)) → find_in [] rows ≡ []
  unfolding find_in
  find_in_none rows = refl

  erased-export :
      (texts : Texts) (user : String) (row : UserRow) (db : AccountDb V)
      → export_account texts user (erased user row db) ≡ empty_export (some (anonymized user row))
  unfolding erased export_account find_in
  erased-export texts user row db =
      let named = lookup-insert db.users user user (anonymized user row) in
      let self = eq_iff user user in
      let there : lookup (insert db.users user (anonymized user row)) user
          ≡ some (anonymized user row) =
        ground arith in
      simp
        (
          there,
          filter-rest (has_key user) db.memberships,
          filter-rest (has_key user) db.entitlements,
          filter-rest (has_key user) db.enrollments,
          filter-rest (has_key user) db.share_cards,
          find_many-scrub user db.events,
        )
        refl

  -- An export after the deletion has the anonymized user and no rows.
  pub delete_account-export :
      (texts : Texts) (user : String) (row : UserRow) (db : AccountDb V)
      → lookup db.users user ≡ some row
      → export_account texts user (delete_account user db).1
        ≡ empty_export (some (anonymized user row))
  delete_account-export texts user row db found =
      ap (export_account texts user) (delete_account-found user row db found)
      ∙ erased-export texts user row db
