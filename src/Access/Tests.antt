-- ===== src/Access/Tests.antt =====
-- Examples of `canAccess` on concrete rows.
use research_crafters.Prelude.{[], false, none, refl, some, ◌↔◌, ◌∷◌, ◌≡◌}
use research_crafters.Access.{
  AccessRows, EntitlementRow, PermissionInput, allowed, can_access, denied, free_preview,
  has_package_or_stage_entitlement, is_active_pro_member, is_expired, is_known, is_mentor_action,
  no_entitlement, owns_stage, signed_in, submit_attempt,
}
use research_crafters.Access.Policy.{MayAccess, can_access_iff}

abbrev learner_input : PermissionInput
learner_input = record {
  user_id = some "u1";
  package_version_id = "v1";
  stage = record { ref = "s1"; is_free_preview = false; is_locked = false };
  action = submit_attempt;
}

abbrev package_row : EntitlementRow
package_row = record {
  scope = "package";
  package_version_id = some "v1";
  stage_id = none;
  expires_at = some 100;
}

abbrev rows : AccessRows
rows = record {
  release_free_stage_ids = none;
  stage_row = some (record { id = "db1"; free = false });
  membership = none;
  entitlements = package_row ∷ [];
}

-- An entitlement expires at its time.
can_access-times :
    (can_access 99 learner_input rows ≡ allowed)
    × (can_access 100 learner_input rows ≡ denied no_entitlement)
unfolding can_access owns_stage is_active_pro_member has_package_or_stage_entitlement is_expired
    free_preview is_known signed_in is_mentor_action
can_access-times = (refl, refl)

can_access_iff_example :
    (can_access 99 learner_input rows ≡ allowed) ↔ MayAccess 99 learner_input rows
can_access_iff_example = can_access_iff 99 learner_input rows
