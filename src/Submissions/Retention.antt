-- ===== src/Submissions/Retention.antt =====
-- apps/web/lib/submission-retention.ts: bundles older than the window are purged. Submissions are a
-- dictionary by id; the object store is the list of its keys; which calls fail is part of the
-- environment. A time is a number of milliseconds; `createdAt < now - window` is written without the
-- subtraction. A text of the environment is the list of its character codes.
pub mod Window
pub mod Sweep
pub mod Sorting
pub mod Purging
use research_crafters.Prelude.{
  Bool, List, Option, String, [], drop_while, false, filter, if◌then◌else◌, leb, length, ltb, min,
  nat_eq, none, not, some, string_eq, suc, take, true, ℕ, ◌&&◌, ◌*◌, ◌+◌, ◌-◌, ◌/◌, ◌==◌, ◌||◌, ◌∷◌,
}
use research_crafters.Prelude.Dict.{Dict, insert, lookup}
use research_crafters.Prelude.Number.{Number, int, nan, pos, ℤ, ◌-ℤ◌}

abbrev pub default_retention_days : ℕ
default_retention_days = 14

abbrev pub max_retention_days : ℕ
max_retention_days = 365

abbrev pub day_ms : ℕ
day_ms = 24 * 60 * 60 * 1000

-- The white space that `trim` and `parseInt` skip, as far as it is ASCII.
abbrev pub is_space : ℕ → Bool
is_space c = c == 32 || (leb 9 c && leb c 13)

abbrev pub is_digit : ℕ → Bool
is_digit c = leb 48 c && leb c 57

unfoldable pub digits_from : ℕ → List ℕ → ℕ
digits_from acc [] = acc
digits_from acc (c ∷ cs) = if is_digit c then digits_from (acc * 10 + (c - 48)) cs else acc

-- The digits at the front, if there are any.
unfoldable pub parse_digits : List ℕ → Option ℕ
parse_digits [] = none
parse_digits (c ∷ cs) = if is_digit c then some (digits_from 0 (c ∷ cs)) else none

abbrev pub negated : ℕ → ℤ
negated n = pos 0 -ℤ pos n

abbrev pub signed : (ℕ → ℤ) → Option ℕ → Number
signed f none = nan
signed f (some n) = int (f n)

unfoldable pub parse_signed : List ℕ → Number
parse_signed [] = nan
parse_signed (c ∷ cs) =
    if c == 45
    then signed negated (parse_digits cs)
    else if c == 43
    then signed pos (parse_digits cs)
    else signed pos (parse_digits (c ∷ cs))

-- `Number.parseInt(raw, 10)`
unfoldable pub parse_int : List ℕ → Number
parse_int cs = parse_signed (drop_while is_space cs)

abbrev pub days_of : Number → ℕ
days_of (int (pos n)) = if leb n 0 || ltb max_retention_days n then default_retention_days else n
days_of _ = default_retention_days

-- `getSubmissionBundleRetentionDays`
unfoldable pub get_retention_days : Option (List ℕ) → ℕ
get_retention_days none = default_retention_days
get_retention_days (some raw) =
    if length (drop_while is_space raw) == 0
    then default_retention_days
    else days_of (parse_int raw)

-- `submissionBundleExpiresAt`
unfoldable pub bundle_expires_at : ℕ → Option (List ℕ) → ℕ
bundle_expires_at created_at env = created_at + get_retention_days env * day_ms

-- `clampLimit`
unfoldable pub clamp_limit : Option Number → ℕ
clamp_limit none = 500
clamp_limit (some (int (pos n))) = if leb n 0 then 500 else min n 5000
clamp_limit (some _) = 500

pub record Submission : Type 0 where
  pub bundle_object_key : String
  pub byte_size : ℕ
  pub created_at : ℕ

pub record BundleDb : Type 0 where
  pub submissions : Dict Submission
  pub objects : List String

pub record PurgeEnv : Type 0 where
  pub retention : Option (List ℕ)
  pub now : ℕ
  pub limit : Option Number
  pub delete_fails : String → Bool
  pub mark_fails : String → Bool

-- `submission_bundle_purged`, with the size and the age in days.
pub record PurgedEvent : Type 0 where
  pub submission_id : String
  pub size : ℕ
  pub age_days : ℕ

pub record PurgeResult : Type 0 where
  pub retention_days : ℕ
  pub considered : ℕ
  pub purged : ℕ
  pub failed : ℕ
  pub ran_at : ℕ

abbrev pub is_expired : PurgeEnv → Submission → Bool
is_expired env s = ltb (bundle_expires_at s.created_at env.retention) env.now

abbrev pub is_pending : PurgeEnv → String × Submission → Bool
is_pending env (id, s) = is_expired env s && not (s.bundle_object_key == "")

-- `orderBy: { createdAt: "asc" }`
unfoldable pub insert_by_age :
    String × Submission → List (String × Submission) → List (String × Submission)
insert_by_age r [] = r ∷ []
insert_by_age r (q ∷ rest) =
    let later = insert_by_age r rest in
    if leb r.1.created_at q.1.created_at then r ∷ q ∷ rest else q ∷ later

unfoldable pub sort_by_age : List (String × Submission) → List (String × Submission)
sort_by_age [] = []
sort_by_age (r ∷ rest) = insert_by_age r (sort_by_age rest)

-- The rows of a sweep.
unfoldable pub find_expired : PurgeEnv → BundleDb → List (String × Submission)
find_expired env db =
    take (clamp_limit env.limit) (sort_by_age (filter (is_pending env) db.submissions))

abbrev pub cleared : Submission → Submission
cleared s = record s { bundle_object_key = "" }

-- `deleteObject`: a missing object is no error.
abbrev pub delete_object : String → BundleDb → BundleDb
delete_object key db = record db { objects = filter (λ k. not (k == key)) db.objects }

-- `Math.round(ageMs / day)`
abbrev pub rounded_days : ℕ → ℕ
rounded_days ms = (2 * ms + day_ms) / (2 * day_ms)

abbrev pub purged_event : PurgeEnv → String × Submission → PurgedEvent
purged_event env (id, s) = record {
  submission_id = id;
  size = s.byte_size;
  age_days = rounded_days (env.now - s.created_at);
}

-- One turn of the loop: whether the row was purged.
unfoldable pub purge_row : PurgeEnv → String × Submission → BundleDb → Bool × BundleDb
purge_row env (id, s) db =
    if env.delete_fails s.bundle_object_key then (false, db) else elim (lookup db.submissions id) [
      | none ↦ (false, delete_object s.bundle_object_key db)
      | some row ↦ if env.mark_fails id then (false, delete_object s.bundle_object_key db) else (
        true,
        record (delete_object s.bundle_object_key db) {
          submissions = insert db.submissions id (cleared row);
        },
      )
    ]

-- The loop: how many rows were purged, how many failed, and what was tracked.
unfoldable pub purge_rows :
    PurgeEnv → List (String × Submission) → BundleDb → ℕ × ℕ × List PurgedEvent × BundleDb
purge_rows env [] db = (0, 0, [], db)
purge_rows env (r ∷ rest) db =
    let (good, db1) = purge_row env r db in
    let (purged, failed, events, db2) = purge_rows env rest db1 in
    if good
    then (suc purged, failed, purged_event env r ∷ events, db2)
    else (purged, suc failed, events, db2)

-- `purgeExpiredSubmissionBundles`
unfoldable pub purge_expired : PurgeEnv → BundleDb → PurgeResult × List PurgedEvent × BundleDb
purge_expired env db =
    let rows = find_expired env db in
    let (purged, failed, events, db') = purge_rows env rows db in
    (
      record {
        retention_days = get_retention_days env.retention;
        considered = length rows;
        purged = purged;
        failed = failed;
        ran_at = env.now;
      },
      events,
      db',
    )
