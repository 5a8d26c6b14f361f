-- ===== src/Access/Entitlements.antt =====
-- How the entitlement rows bear on a decision.
use research_crafters.Prelude.{
  Bool, List, Option, String, any-append, any-filter, arith, filter, not, true, ℕ, ◌++◌, ◌≡◌,
}
use research_crafters.Access.{
  AccessRows, EntitlementRow, PermissionInput, allowed, can_access, free_preview, grants_mentor,
  grants_package_or_stage, has_mentor_entitlement, has_package_or_stage_entitlement, is_expired,
  owns_stage, stage_db_id,
}

abbrev pub with_entitlements : AccessRows → List EntitlementRow → AccessRows
with_entitlements rows es = record rows { entitlements = es }

abbrev pub is_live : ℕ → EntitlementRow → Bool
is_live now row = not (is_expired now row)

has_mentor_entitlement-filter :
    (now : ℕ) (es : List EntitlementRow)
    → has_mentor_entitlement now (filter (is_live now) es) ≡ has_mentor_entitlement now es
unfolding has_mentor_entitlement
has_mentor_entitlement-filter now es =
    any-filter (grants_mentor now) (is_live now) (λ row h. ground arith) es

has_package_or_stage_entitlement-filter :
    (now : ℕ) (es : List EntitlementRow) (v : String) (s : Option String)
    → has_package_or_stage_entitlement now (filter (is_live now) es) v s
      ≡ has_package_or_stage_entitlement now es v s
unfolding has_package_or_stage_entitlement
has_package_or_stage_entitlement-filter now es v s =
    any-filter (grants_package_or_stage now v s) (is_live now) (λ row h. ground arith) es

-- Expired entitlements are worth nothing: the decision, with its reason, is the one that the rows
-- give once every expired entitlement is deleted.
pub can_access-live :
    (now : ℕ) (i : PermissionInput) (rows : AccessRows)
    → can_access now i (with_entitlements rows (filter (is_live now) rows.entitlements))
      ≡ can_access now i rows
unfolding can_access free_preview owns_stage
can_access-live now i rows =
    simp (has_mentor_entitlement-filter, has_package_or_stage_entitlement-filter)

has_mentor_entitlement-append :
    (now : ℕ) (es fs : List EntitlementRow)
    → has_mentor_entitlement now es ≡ true
    → has_mentor_entitlement now (es ++ fs) ≡ true
unfolding has_mentor_entitlement
has_mentor_entitlement-append now es fs h = ground (arith, any-append (grants_mentor now) es fs)

has_package_or_stage_entitlement-append :
    (now : ℕ) (es fs : List EntitlementRow) (v : String) (s : Option String)
    → has_package_or_stage_entitlement now es v s ≡ true
    → has_package_or_stage_entitlement now (es ++ fs) v s ≡ true
unfolding has_package_or_stage_entitlement
has_package_or_stage_entitlement-append now es fs v s h =
    ground (arith, any-append (grants_package_or_stage now v s) es fs)

-- More entitlements never take an access away: what the rows allow is still allowed after further
-- entitlement rows are added.
pub can_access_mono :
    (now : ℕ) (i : PermissionInput) (rows : AccessRows) (more : List EntitlementRow)
    → can_access now i rows ≡ allowed
    → can_access now i (with_entitlements rows (rows.entitlements ++ more)) ≡ allowed
unfolding can_access free_preview owns_stage
can_access_mono now i rows more h = ground (
  arith,
  has_mentor_entitlement-append now rows.entitlements more,
  has_package_or_stage_entitlement-append now rows.entitlements more i.package_version_id
      (stage_db_id rows.stage_row),
)
