-- ===== src/Account.antt =====
-- apps/web/lib/account-cascade.ts: the erasure of an account, and the export of its data. Each table is
-- a list of rows with their id and the column by which the code selects them: the user, the enrollment,
-- the attempt, the submission, the thread, or the address of a token. What else is in a row is a
-- dictionary. Calls that throw inside the transaction roll it back and are left out. What the
-- schema's foreign keys do on a deletion (packages/db/prisma/schema.prisma: share cards fall with
-- their enrollment, a grade's submission becomes null) is left out too: a row has one such column.
mod Tables
pub mod Erasure
pub mod Others
mod Tests
unfoldable pub use Tables.*
use research_crafters.Prelude.{List, Option, String, [], length, map, none, some, ℕ, ◌++ₛ◌, ◌∷◌}
use research_crafters.Prelude.Dict.{Dict, insert, lookup}

abbrev pub anonymized_email_for : String → String
anonymized_email_for user = "anonymized-" ++ₛ user ++ₛ "@deleted.invalid"

abbrev pub anonymized : String → UserRow → UserRow
anonymized user row = record {
  email = anonymized_email_for user;
  github_handle = none;
  display_name = none;
  name = none;
  image = none;
  email_verified = none;
  created_at = row.created_at;
}

pub data Strategy : Type 0 where
  delete anonymize retain : Strategy

-- `ACCOUNT_DELETE_PLAN`, without the rationales.
abbrev pub account_delete_plan : List (String × Strategy)
account_delete_plan =
    ("Session", delete)
    ∷ ("Account", delete)
    ∷ ("DeviceCodeFlow", delete)
    ∷ ("VerificationToken", delete)
    ∷ ("Run", delete)
    ∷ ("Grade", delete)
    ∷ ("Submission", delete)
    ∷ ("StageAttempt", delete)
    ∷ ("MentorMessage", delete)
    ∷ ("MentorThread", delete)
    ∷ ("NodeTraversal", delete)
    ∷ ("ShareCard", delete)
    ∷ ("Enrollment", delete)
    ∷ ("Entitlement", delete)
    ∷ ("Membership", delete)
    ∷ ("Review", retain)
    ∷ ("Event", retain)
    ∷ ("User", anonymize)
    ∷ []

pub record AccountExport (V : Type 0) : Type 0 where
  pub user : Option UserRow
  pub exported_memberships : List (Dict (Exported V))
  pub exported_entitlements : List (Dict (Exported V))
  pub exported_enrollments : List (Dict (Exported V))
  pub exported_attempts : List (Dict (Exported V))
  pub exported_traversals : List (Dict (Exported V))
  pub exported_submissions : List (Dict (Exported V))
  pub exported_runs : List (Dict (Exported V))
  pub exported_grades : List (Dict (Exported V))
  pub exported_threads : List (Dict (Exported V))
  pub exported_messages : List (Dict (Exported V))
  pub exported_cards : List (Dict (Exported V))
  pub exported_events : List (Dict (Exported V))

module _ {V : Type 0} where
  -- The ids of the rows of a user's chain.
  abbrev pub enrollment_ids : String → AccountDb V → List String
  enrollment_ids user db = ids_of (find_many user db.enrollments)

  abbrev pub attempt_ids : String → AccountDb V → List String
  attempt_ids user db = ids_of (find_in (enrollment_ids user db) db.attempts)

  abbrev pub submission_ids : String → AccountDb V → List String
  submission_ids user db = ids_of (find_in (attempt_ids user db) db.submissions)

  abbrev pub thread_ids : String → AccountDb V → List String
  thread_ids user db = ids_of (find_in (enrollment_ids user db) db.threads)

  -- The tables behind the transaction.
  unfoldable pub erased : String → UserRow → AccountDb V → AccountDb V
  erased user row db =
      let enrolled = enrollment_ids user db in
      let tried = attempt_ids user db in
      let submitted = submission_ids user db in
      let asked = thread_ids user db in
      record {
        users = insert db.users user (anonymized user row);
        sessions = delete_many user db.sessions;
        accounts = delete_many user db.accounts;
        device_flows = delete_many user db.device_flows;
        tokens = delete_many row.email db.tokens;
        runs = delete_in submitted db.runs;
        grades = delete_in tried db.grades;
        submissions = delete_in tried db.submissions;
        attempts = delete_in enrolled db.attempts;
        messages = delete_in asked db.messages;
        threads = delete_in enrolled db.threads;
        traversals = delete_in enrolled db.traversals;
        share_cards = delete_many user db.share_cards;
        enrollments = delete_many user db.enrollments;
        entitlements = delete_many user db.entitlements;
        memberships = delete_many user db.memberships;
        events = scrub user db.events;
        reviews = scrub user db.reviews;
      }

  -- How many rows of each table were removed or changed.
  unfoldable pub erased_counts : String → UserRow → AccountDb V → Dict ℕ
  erased_counts user row db =
      let enrolled = enrollment_ids user db in
      let tried = attempt_ids user db in
      ("Session", length (find_many user db.sessions))
      ∷ ("Account", length (find_many user db.accounts))
      ∷ ("DeviceCodeFlow", length (find_many user db.device_flows))
      ∷ ("VerificationToken", length (find_many row.email db.tokens))
      ∷ ("Run", length (find_in (submission_ids user db) db.runs))
      ∷ ("Grade", length (find_in tried db.grades))
      ∷ ("Submission", length (find_in tried db.submissions))
      ∷ ("StageAttempt", length (find_in enrolled db.attempts))
      ∷ ("MentorMessage", length (find_in (thread_ids user db) db.messages))
      ∷ ("MentorThread", length (find_in enrolled db.threads))
      ∷ ("NodeTraversal", length (find_in enrolled db.traversals))
      ∷ ("ShareCard", length (find_many user db.share_cards))
      ∷ ("Enrollment", length (find_many user db.enrollments))
      ∷ ("Entitlement", length (find_many user db.entitlements))
      ∷ ("Membership", length (find_many user db.memberships))
      ∷ ("Event", length (find_many user db.events))
      ∷ ("Review", length (find_many user db.reviews))
      ∷ ("User", 1)
      ∷ []

  -- `deleteAccount`: the counts, or none where it throws, and the tables.
  unfoldable pub delete_account : String → AccountDb V → Option (Dict ℕ) × AccountDb V
  delete_account user db = elim (lookup db.users user) [
    | none ↦ (none, db)
    | some row ↦ (some (erased_counts user row db), erased user row db)
  ]

  -- `exportAccount`
  unfoldable pub export_account : Texts → String → AccountDb V → AccountExport V
  export_account texts user db =
      let enrolled = enrollment_ids user db in
      let tried = attempt_ids user db in
      record {
        user = lookup db.users user;
        exported_memberships = map (normalize_row texts) (find_many user db.memberships);
        exported_entitlements = map (normalize_row texts) (find_many user db.entitlements);
        exported_enrollments = map (normalize_row texts) (find_many user db.enrollments);
        exported_attempts = map (normalize_row texts) (find_in enrolled db.attempts);
        exported_traversals = map (normalize_row texts) (find_in enrolled db.traversals);
        exported_submissions = map (normalize_row texts) (find_in tried db.submissions);
        exported_runs = map (normalize_row texts) (find_in (submission_ids user db) db.runs);
        exported_grades = map (normalize_row texts) (find_in tried db.grades);
        exported_threads = map (normalize_row texts) (find_in enrolled db.threads);
        exported_messages = map (normalize_row texts) (find_in (thread_ids user db) db.messages);
        exported_cards = map (normalize_row texts) (find_many user db.share_cards);
        exported_events = map (normalize_row texts) (find_many user db.events);
      }
