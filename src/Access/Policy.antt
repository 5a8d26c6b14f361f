-- ===== src/Access/Policy.antt =====
-- The access policy as a table.
use research_crafters.Prelude.{arith, false, true, ℕ, ◌↔◌, ◌≡◌, ◌⊎◌}
use research_crafters.Access.{
  AccessRows, PermissionAction, PermissionDenialReason, PermissionInput, allowed, can_access,
  create_share_card, denied, free_preview, has_mentor_entitlement, is_active_pro_member, is_known,
  is_mentor_action, is_view_stage, no_entitlement, not_authenticated, owns_stage,
  request_mentor_feedback, request_mentor_hint, signed_in, stage_locked, submit_attempt,
  unknown_action, unlisted, view_branch_feedback, view_solution, view_stage,
}

-- What each action needs of a signed-in learner, one line to an action.
abbrev pub MayUse : ℕ → PermissionAction → PermissionInput → AccessRows → Type 0
MayUse now view_stage input rows =
    (free_preview input rows ≡ true) ⊎ (owns_stage now input rows ≡ true)
MayUse now submit_attempt input rows =
    (input.stage.is_locked ≡ false)
    × ((free_preview input rows ≡ true) ⊎ (owns_stage now input rows ≡ true))
MayUse now request_mentor_hint input rows =
    (input.stage.is_locked ≡ false)
    × ((is_active_pro_member rows.membership ≡ true)
        ⊎ (has_mentor_entitlement now rows.entitlements ≡ true))
MayUse now request_mentor_feedback input rows =
    (input.stage.is_locked ≡ false)
    × ((is_active_pro_member rows.membership ≡ true)
        ⊎ (has_mentor_entitlement now rows.entitlements ≡ true))
MayUse now view_branch_feedback input rows =
    (input.stage.is_locked ≡ false) × (owns_stage now input rows ≡ true)
MayUse now create_share_card input rows =
    (input.stage.is_locked ≡ false) × (owns_stage now input rows ≡ true)
MayUse now view_solution input rows =
    (input.stage.is_locked ≡ false)
    × (free_preview input rows ≡ false)
    × (owns_stage now input rows ≡ true)
MayUse now (unlisted s) input rows = ⊥

-- The one thing that a visitor who is not signed in may do.
abbrev pub MayVisit : PermissionInput → Type 0
MayVisit input =
    (input.action ≡ view_stage)
    × (input.stage.is_free_preview ≡ true)
    × (input.stage.is_locked ≡ false)

abbrev pub MayAccess : ℕ → PermissionInput → AccessRows → Type 0
MayAccess now input rows =
    ((signed_in input.user_id ≡ false) × MayVisit input)
    ⊎ ((signed_in input.user_id ≡ true) × MayUse now input.action input rows)

module _ (now : ℕ) (i : PermissionInput) (rows : AccessRows) where
  MayAccess-of_allowed :
      (a : PermissionAction)
      → let i' : PermissionInput = record i { action = a } in
        can_access now i' rows ≡ allowed → MayAccess now i' rows
  unfolding can_access is_mentor_action
  MayAccess-of_allowed view_stage h = ground arith
  MayAccess-of_allowed _ h = ground arith

  allowed_of_MayAccess :
      (a : PermissionAction)
      → let i' : PermissionInput = record i { action = a } in
        MayAccess now i' rows → can_access now i' rows ≡ allowed
  unfolding can_access is_mentor_action
  allowed_of_MayAccess view_stage h = ground arith
  allowed_of_MayAccess _ h = ground arith

-- Access is granted exactly where the table grants it: to a visitor who is not signed in only the
-- view of an unlocked free-preview stage, to a learner what `MayUse` asks of the action; an action
-- that is not listed is never allowed.
pub can_access_iff :
    (now : ℕ) (i : PermissionInput) (rows : AccessRows)
    → (can_access now i rows ≡ allowed) ↔ MayAccess now i rows
can_access_iff now i rows =
    (MayAccess-of_allowed now i rows i.action, allowed_of_MayAccess now i rows i.action)

-- Why an access was denied, and the status that the route answers with.
abbrev pub Denial : PermissionInput → PermissionDenialReason → Type 0
Denial i unknown_action = is_known i.action ≡ false
Denial i not_authenticated =
    (is_known i.action ≡ true) × (signed_in i.user_id ≡ false) × ¬ MayVisit i
Denial i stage_locked =
    (is_known i.action ≡ true)
    × (signed_in i.user_id ≡ true)
    × (i.stage.is_locked ≡ true)
    × (is_view_stage i.action ≡ false)
Denial i no_entitlement =
    (is_known i.action ≡ true)
    × (signed_in i.user_id ≡ true)
    × ((i.stage.is_locked ≡ false) ⊎ (is_view_stage i.action ≡ true))
Denial i _ = ⊥

module _ (now : ℕ) (i : PermissionInput) (rows : AccessRows) where
  Denial-of_denied :
      (a : PermissionAction) (r : PermissionDenialReason)
      → let i' : PermissionInput = record i { action = a } in
        can_access now i' rows ≡ denied r → Denial i' r
  unfolding can_access is_mentor_action
  Denial-of_denied view_stage not_authenticated h = (ground arith, ground arith, λ v. ground arith)
  Denial-of_denied a not_authenticated h = (ground arith, ground arith, λ v. ground arith)
  Denial-of_denied view_stage r h = ground arith
  Denial-of_denied a r h = ground arith

-- Every denial carries the one reason that fits: an unlisted action, no session, a locked stage, or
-- no entitlement; the other two reasons of the type never occur.
pub can_access-Denial :
    (now : ℕ) (i : PermissionInput) (rows : AccessRows) (r : PermissionDenialReason)
    → can_access now i rows ≡ denied r
    → Denial i r
can_access-Denial now i rows r h = Denial-of_denied now i rows i.action r h
