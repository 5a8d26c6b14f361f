-- ===== src/Access.antt =====
-- apps/web/lib/permissions.ts: who may do what on a stage. The four Prisma reads of `canAccess`
-- are a record of rows; their answers are not computed here. Times are milliseconds.
pub mod Policy
pub mod Entitlements
mod Tests
use research_crafters.Prelude.{
  Bool, List, Option, String, any, contains, false, if◌then◌else◌, is_some, leb, nat_eq, none, not,
  some, string_eq, true, ℕ, ◌&&◌, ◌==◌, ◌||◌,
}

-- `PermissionAction`; at run time any other text may arrive.
pub data PermissionAction : Type 0 where
  view_stage submit_attempt request_mentor_hint request_mentor_feedback : PermissionAction
  view_branch_feedback create_share_card view_solution : PermissionAction
  unlisted : String → PermissionAction

pub data PermissionDenialReason : Type 0 where
  not_authenticated stage_locked no_entitlement no_membership : PermissionDenialReason
  policy_disallows unknown_action : PermissionDenialReason

pub data PermissionResult : Type 0 where
  allowed : PermissionResult
  denied : PermissionDenialReason → PermissionResult

pub record StageDescriptor : Type 0 where
  pub ref : String
  pub is_free_preview : Bool
  pub is_locked : Bool

pub record PermissionInput : Type 0 where
  pub user_id : Option String
  pub package_version_id : String
  pub stage : StageDescriptor
  pub action : PermissionAction

pub record EntitlementRow : Type 0 where
  pub scope : String
  pub package_version_id : Option String
  pub stage_id : Option String
  pub expires_at : Option ℕ

pub record MembershipRow : Type 0 where
  pub plan : String
  pub status : String

pub record StageRow : Type 0 where
  pub id : String
  pub free : Bool

-- What the database answers for one input.
pub record AccessRows : Type 0 where
  pub release_free_stage_ids : Option (List String)
  pub stage_row : Option StageRow
  pub membership : Option MembershipRow
  pub entitlements : List EntitlementRow

-- `KNOWN_ACTIONS.has(action)`
unfoldable pub is_known : PermissionAction → Bool
is_known (unlisted s) = false
is_known _ = true

abbrev pub is_view_stage : PermissionAction → Bool
is_view_stage view_stage = true
is_view_stage _ = false

abbrev pub is_submit_attempt : PermissionAction → Bool
is_submit_attempt submit_attempt = true
is_submit_attempt _ = false

abbrev pub is_view_solution : PermissionAction → Bool
is_view_solution view_solution = true
is_view_solution _ = false

unfoldable pub is_mentor_action : PermissionAction → Bool
is_mentor_action request_mentor_hint = true
is_mentor_action request_mentor_feedback = true
is_mentor_action _ = false

-- `!user.userId`: absent or empty.
unfoldable pub signed_in : Option String → Bool
signed_in none = false
signed_in (some u) = not (u == "")

-- `value === id`, where the value may be null.
abbrev pub is_text : Option String → String → Bool
is_text none k = false
is_text (some v) k = v == k

unfoldable pub is_expired : ℕ → EntitlementRow → Bool
is_expired now row = elim row.expires_at [ none ↦ false | some t ↦ leb t now ]

unfoldable pub is_active_pro_member : Option MembershipRow → Bool
is_active_pro_member none = false
is_active_pro_member (some m) = if not (m.status == "active") then false else not (m.plan == "free")

abbrev pub grants_mentor : ℕ → EntitlementRow → Bool
grants_mentor now row = row.scope == "mentor" && not (is_expired now row)

unfoldable pub has_mentor_entitlement : ℕ → List EntitlementRow → Bool
has_mentor_entitlement now rows = any (grants_mentor now) rows

-- `stageDbId !== null && r.stageId === stageDbId`
abbrev pub is_stage : Option String → Option String → Bool
is_stage none stage_id = false
is_stage (some db_id) stage_id = is_text stage_id db_id

abbrev pub grants_package_or_stage : ℕ → String → Option String → EntitlementRow → Bool
grants_package_or_stage now version stage_db_id row =
    if is_expired now row
    then false
    else if row.scope == "package" && is_text row.package_version_id version
    then true
    else row.scope == "stage"
      && is_stage stage_db_id row.stage_id
      && (not (is_some row.package_version_id) || is_text row.package_version_id version)

unfoldable pub has_package_or_stage_entitlement :
    ℕ → List EntitlementRow → String → Option String → Bool
has_package_or_stage_entitlement now rows version stage_db_id =
    any (grants_package_or_stage now version stage_db_id) rows

abbrev pub stage_db_id : Option StageRow → Option String
stage_db_id none = none
stage_db_id (some row) = some row.id

abbrev pub row_is_free : Option StageRow → Bool
row_is_free none = false
row_is_free (some row) = row.free

abbrev pub listed_free : Option (List String) → String → Bool
listed_free none ref = false
listed_free (some ids) ref = contains ids ref

-- The `isFreePreview` that `canAccess` computes.
unfoldable pub free_preview : PermissionInput → AccessRows → Bool
free_preview input rows =
    input.stage.is_free_preview
    || listed_free rows.release_free_stage_ids input.stage.ref
    || row_is_free rows.stage_row

-- The test that the last three branches share: a paid plan or a matching entitlement.
unfoldable pub owns_stage : ℕ → PermissionInput → AccessRows → Bool
owns_stage now input rows =
    is_active_pro_member rows.membership
    || has_package_or_stage_entitlement now rows.entitlements input.package_version_id
        (stage_db_id rows.stage_row)

abbrev allow_if : Bool → PermissionResult
allow_if b = if b then allowed else denied no_entitlement

-- The branches below the free-preview block.
paid_access : ℕ → PermissionInput → AccessRows → PermissionResult
paid_access now input rows =
    if is_mentor_action input.action
    then allow_if
        (is_active_pro_member rows.membership || has_mentor_entitlement now rows.entitlements)
    else allow_if (owns_stage now input rows)

-- `permissions.canAccess`
unfoldable pub can_access : ℕ → PermissionInput → AccessRows → PermissionResult
unfolding is_known signed_in paid_access
can_access now input rows =
    if not (is_known input.action)
    then denied unknown_action
    else if not (signed_in input.user_id)
    then (if is_view_stage input.action && input.stage.is_free_preview && not input.stage.is_locked
        then allowed
        else denied not_authenticated)
    else if input.stage.is_locked && not (is_view_stage input.action)
    then denied stage_locked
    else if free_preview input rows
        && (is_view_stage input.action || is_submit_attempt input.action)
    then allowed
    else if free_preview input rows && is_view_solution input.action
    then denied no_entitlement
    else paid_access now input rows

unfoldable pub denial_http_status : PermissionDenialReason → ℕ
denial_http_status not_authenticated = 401
denial_http_status unknown_action = 400
denial_http_status _ = 403
