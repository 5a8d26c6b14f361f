-- ===== src/Account/Others.antt =====
-- What the erasure of one account leaves of another.
use research_crafters.Prelude.{
  Bool, Bool-cases, List, Option-cases, String, [], ap, arith, codes_eq, contains, eq_iff, false,
  filter, inl, inr, nat_eq, not, refl, string_eq, subst, sym, true, ◌==◌, ◌∙◌, ◌∷◌, ◌≡◌, ◌≢◌,
}
use research_crafters.Account.{
  AccountDb, Row, Texts, UserRow, anonymized, attempt_ids, delete_account, delete_in,
  enrollment_ids, erased, export_account, find_in, find_many, has_key, ids_of, key_in, scrub,
  submission_ids, thread_ids,
}
use research_crafters.Prelude.Dict.{insert, lookup, lookup-insert}
use research_crafters.Account.Erasure.{delete_account-found}

-- No id stands in both lists.
abbrev Apart : List String → List String → Type 0
Apart ids others = (k : String) → contains ids k ≡ true → contains others k ≡ false

module _ {V : Type 0} where
  -- The primary key of a table.
  abbrev pub UniqueIds : List (Row V) → Type 0
  UniqueIds [] = Unit
  UniqueIds (row ∷ rows) = (contains (ids_of rows) row.id ≡ false) × UniqueIds rows

  Excludes : (Row V → Bool) → (Row V → Bool) → Type 0
  Excludes p q = (row : Row V) → p row ≡ true → q row ≡ false

  filter-others :
      (p q : Row V → Bool) (rows : List (Row V))
      → Excludes p q
      → filter p (filter (λ row. not (q row)) rows) ≡ filter p rows
  unfolding Excludes
  filter-others p q [] h = refl
  filter-others p q (row ∷ rows) h = ground (arith, h row, filter-others p q rows h)

  ids_of-filter :
      (p : Row V → Bool) (rows : List (Row V)) (k : String)
      → contains (ids_of (filter p rows)) k ≡ true
      → contains (ids_of rows) k ≡ true
  ids_of-filter p [] k h = h
  ids_of-filter p (row ∷ rows) k h = ground (arith, h, ids_of-filter p rows k)

  none_of-filter :
      (p : Row V → Bool) (rows : List (Row V)) (k : String)
      → contains (ids_of rows) k ≡ false
      → contains (ids_of (filter p rows)) k ≡ false
  none_of-filter p rows k h = elim (Bool-cases (contains (ids_of (filter p rows)) k)) [
    | inl there ↦ absurd (ground (arith, h, ids_of-filter p rows k there))
    | inr missing ↦ missing
  ]

  Apart-filter :
      (p q : Row V → Bool) (rows : List (Row V))
      → UniqueIds rows
      → Excludes p q
      → Apart (ids_of (filter p rows)) (ids_of (filter q rows))
  unfolding Excludes
  Apart-filter p q [] u h k there = refl
  Apart-filter p q (row ∷ rows) (fresh, unique) h k there =
      let below = none_of-filter q rows row.id fresh in
      let below' = none_of-filter p rows row.id fresh in
      let rest = Apart-filter p q rows unique h k in
      elim (Bool-cases (row.id == k)) [
        | inl same ↦
            let path : row.id ≡ k = ground (arith, same, eq_iff row.id k) in
            let gone = subst (λ i. contains (ids_of (filter q rows)) i ≡ false) path below in
            let gone' = subst (λ i. contains (ids_of (filter p rows)) i ≡ false) path below' in
            ground (arith, there, gone, gone', h row)
        | inr other ↦ ground (arith, there, rest)
      ]

module _ (V : Type 0) where
  key_in-Excludes :
      (ids others : List String) → Apart ids others → Excludes {V = V} (key_in ids) (key_in others)
  unfolding Excludes
  key_in-Excludes ids others apart row h = elim (Option-cases row.key) [
    | inl missing ↦ ground arith
    | inr (k, is) ↦ ground (arith, is, h, apart k)
  ]

  has_key-Excludes : (k j : String) → k ≢ j → Excludes {V = V} (has_key k) (has_key j)
  unfolding Excludes
  has_key-Excludes k j other row h = elim (Option-cases row.key) [
    | inl missing ↦ ground arith
    | inr (i, is) ↦ ground (arith, is, h, other, eq_iff i k, eq_iff i j)
  ]

module _ {V : Type 0} where
  find_in-delete_in_others :
      (ids others : List String) (rows : List (Row V))
      → Apart ids others
      → find_in ids (delete_in others rows) ≡ find_in ids rows
  unfolding find_in delete_in
  find_in-delete_in_others ids others rows apart =
      ground (
        arith,
        filter-others (key_in ids) (key_in others) rows (key_in-Excludes V ids others apart),
      )

  filter_nowhere : (rows : List (Row V)) → filter (key_in []) rows ≡ []
  filter_nowhere [] = refl
  filter_nowhere (row ∷ rows) = ground (arith, filter_nowhere rows)

  find_in-filter :
      (ids : List String) (rows : List (Row V)) → find_in ids rows ≡ filter (key_in ids) rows
  unfolding find_in
  find_in-filter [] rows = sym (filter_nowhere rows)
  find_in-filter (i ∷ ids) rows = ground arith

  Apart-find_in :
      (ids others : List String) (rows : List (Row V))
      → UniqueIds rows
      → Apart ids others
      → Apart (ids_of (find_in ids rows)) (ids_of (find_in others rows))
  Apart-find_in ids others rows unique apart =
      let mine = find_in-filter ids rows in
      let theirs = find_in-filter others rows in
      let filtered =
        Apart-filter (key_in ids) (key_in others) rows unique
          (key_in-Excludes V ids others apart) in
      λ k there.
        ap (λ l. contains (ids_of l) k) theirs
        ∙ filtered k (ap (λ l. contains (ids_of l) k) (sym mine) ∙ there)

  find_many-scrub_others :
      (k j : String) (rows : List (Row V)) → k ≢ j → find_many k (scrub j rows) ≡ find_many k rows
  unfolding scrub
  find_many-scrub_others k j [] other = refl
  find_many-scrub_others k j (row ∷ rows) other = elim (Option-cases row.key) [
    | inl missing ↦ ground (arith, find_many-scrub_others k j rows other)
    | inr (i, is) ↦
        ground (arith, is, other, eq_iff i k, eq_iff i j, find_many-scrub_others k j rows other)
  ]

  -- The ids of the tables through which the code walks are unique.
  abbrev pub Keyed : AccountDb V → Type 0
  Keyed db =
      UniqueIds db.enrollments
      × UniqueIds db.attempts
      × UniqueIds db.submissions
      × UniqueIds db.threads

  erased-others :
      (texts : Texts) (user other : String) (row : UserRow) (db : AccountDb V)
      → other ≢ user
      → Keyed db
      → export_account texts other (erased user row db) ≡ export_account texts other db
  unfolding erased export_account
  erased-others texts user other row db ne (enrollments, attempts, submissions, threads) =
      let apart_keys = has_key-Excludes V other user ne in
      let kept =
        λ (rows : List (Row V)). filter-others (has_key other) (has_key user) rows apart_keys in
      let enrolled =
        Apart-filter (has_key other) (has_key user) db.enrollments enrollments apart_keys in
      let mine = enrollment_ids other db in
      let theirs = enrollment_ids user db in
      let tried = Apart-find_in mine theirs db.attempts attempts enrolled in
      let submitted =
        Apart-find_in (attempt_ids other db) (attempt_ids user db) db.submissions submissions
          tried in
      let asked = Apart-find_in mine theirs db.threads threads enrolled in
      let user_row : lookup (insert db.users user (anonymized user row)) other
          ≡ lookup db.users other =
        ground
          (arith, ne, lookup-insert db.users user other (anonymized user row), eq_iff user other) in
      simp
        (
          user_row,
          kept db.memberships,
          kept db.entitlements,
          kept db.enrollments,
          kept db.share_cards,
          find_many-scrub_others other user db.events ne,
          find_in-delete_in_others mine theirs db.attempts enrolled,
          find_in-delete_in_others mine theirs db.traversals enrolled,
          find_in-delete_in_others mine theirs db.threads enrolled,
          find_in-delete_in_others (attempt_ids other db) (attempt_ids user db) db.submissions
              tried,
          find_in-delete_in_others (attempt_ids other db) (attempt_ids user db) db.grades tried,
          find_in-delete_in_others (submission_ids other db) (submission_ids user db) db.runs
              submitted,
          find_in-delete_in_others (thread_ids other db) (thread_ids user db) db.messages asked,
        )
        refl

  -- Deleting the account of one user changes nothing of what another user exports, in tables whose ids
  -- are unique.
  pub delete_account-others :
      (texts : Texts) (user other : String) (db : AccountDb V)
      → other ≢ user
      → Keyed db
      → export_account texts other (delete_account user db).1 ≡ export_account texts other db
  unfolding delete_account
  delete_account-others texts user other db ne keyed = elim (Option-cases (lookup db.users user)) [
    | inl missing ↦
        let path : (delete_account user db).1 ≡ db = ground arith in
        ap (export_account texts other) path
    | inr (row, found) ↦
        ap (export_account texts other) (delete_account-found user row db found)
        ∙ erased-others texts user other row db ne keyed
  ]
