-- ===== src/Auth/DeviceFlow/Replies.antt =====
-- What a poll outside development answers, by the row of its code.
use research_crafters.Prelude.{
  Bool, Option-cases, String, arith, codes_eq, eq_iff, false, if◌then◌else◌, inl, inr, is_some, leb,
  nat_eq, none, not, refl, some, string_eq, subst, sym, true, ◌&&◌, ◌==◌, ◌||◌, ◌≡◌, ◌≢◌, ◌⊎◌,
}
use research_crafters.Prelude.Dict.{lookup}
use research_crafters.Auth.DeviceFlow.{
  AuthDb, Flow, FlowState, TokenEnv, TokenRequest, TokenResponse, access_denied, approved,
  authorization_pending, commit_poll, denied, device_token, exchange_approved, exchange_state,
  expired, expired_token, is_approved, is_expired_state, is_pending, mint, pending, requested_code,
}
use research_crafters.Auth.DeviceFlow.Exchange.{force_approve_off, is_issued}

abbrev pub is_expired_reply : TokenResponse → Bool
is_expired_reply expired_token = true
is_expired_reply _ = false

abbrev pub is_denied_reply : TokenResponse → Bool
is_denied_reply access_denied = true
is_denied_reply _ = false

abbrev pub is_pending_reply : TokenResponse → Bool
is_pending_reply authorization_pending = true
is_pending_reply _ = false

abbrev pub names_user : Flow → Bool
names_user flow = elim flow.user_id [ none ↦ false | some user ↦ not (user == "") ]

abbrev pub is_denied_state : FlowState → Bool
is_denied_state denied = true
is_denied_state _ = false

-- The four replies by the row: an expired one is given for a flow whose time is over, or that is marked
-- as expired, unless it is approved.
abbrev pub Replies : TokenEnv → Flow → TokenResponse → Type 0
Replies env flow reply =
    let over = leb flow.expires_at env.now in
    let exchanged = is_some flow.consumed_at in
    (is_issued reply ≡ (is_approved flow.state && (names_user flow && not exchanged)))
    × (is_expired_reply reply ≡ (
        if is_approved flow.state
        then names_user flow && exchanged
        else over || is_expired_state flow.state))
    × (is_denied_reply reply ≡ (
        if is_approved flow.state
        then not (names_user flow)
        else not over && is_denied_state flow.state))
    × (is_pending_reply reply ≡ (not over && is_pending flow.state))

exchange-Replies :
    (env : TokenEnv) (code : String) (flow : Flow) (db : AuthDb)
    → is_approved flow.state ≡ true
    → Replies env flow (exchange_approved env code flow db).0
unfolding exchange_approved mint
exchange-Replies env code flow db state = elim (Option-cases flow.user_id) [
  | inl e ↦ (ground (arith, e), ground (arith, e), ground (arith, e), ground (arith, e, state))
  | inr (user, e) ↦
      (ground (arith, e), ground (arith, e), ground (arith, e), ground (arith, e, state))
]

state-cases : (s : FlowState) → (s ≡ approved) ⊎ (s ≡ pending) ⊎ (s ≡ denied) ⊎ (s ≡ expired)
state-cases approved = inl refl
state-cases pending = inr (inl refl)
state-cases denied = inr (inr (inl refl))
state-cases expired = inr (inr (inr refl))

commit_poll-approved :
    (env : TokenEnv) (r : TokenRequest) (code : String) (flow : Flow) (db : AuthDb)
    → env.is_dev ≡ false
    → flow.state ≡ approved
    → (commit_poll env r code flow db).0 ≡ (exchange_approved env code flow db).0
unfolding commit_poll exchange_state
commit_poll-approved env r code flow db production state =
    ground (arith, state, force_approve_off env r code production flow db)

commit_poll-Replies :
    (env : TokenEnv) (r : TokenRequest) (code : String) (flow : Flow) (db : AuthDb)
    → env.is_dev ≡ false
    → Replies env flow (commit_poll env r code flow db).0
unfolding commit_poll exchange_state
commit_poll-Replies env r code flow db production =
    let off = force_approve_off env r code production flow db in
    elim (state-cases flow.state) [
      | inl e ↦
          subst (Replies env flow) (sym (commit_poll-approved env r code flow db production e))
            (exchange-Replies env code flow db (ground (arith, e)))
      | inr (inl e) ↦ (
        ground (arith, e, off),
        ground (arith, e, off),
        ground (arith, e, off),
        ground (arith, e, off),
      )
      | inr (inr (inl e)) ↦ (
        ground (arith, e, off),
        ground (arith, e, off),
        ground (arith, e, off),
        ground (arith, e, off),
      )
      | inr (inr (inr e)) ↦ (
        ground (arith, e, off),
        ground (arith, e, off),
        ground (arith, e, off),
        ground (arith, e, off),
      )
    ]

device_token-commit_poll :
    (env : TokenEnv) (r : TokenRequest) (code : String) (flow : Flow) (db : AuthDb)
    → requested_code r ≡ some code
    → code ≢ ""
    → lookup db.flows code ≡ some flow
    → (device_token env r db).0 ≡ (commit_poll env r code flow db).0
unfolding device_token
device_token-commit_poll env r code flow db asked some_code found = ground (arith, eq_iff code "")

-- What a poll outside development answers for a code that is not empty and has a row. A session is
-- handed out exactly if the flow is approved for a user and not exchanged, whatever the time is. The
-- code counts as expired exactly if an approved flow with a user was exchanged, or a flow that is not
-- approved is past its time or marked as expired. It is denied exactly if an approved flow has no user,
-- or a denied flow is within its time, and it is pending exactly if a pending flow is within its time.
pub device_token-Replies :
    (env : TokenEnv) (r : TokenRequest) (code : String) (flow : Flow) (db : AuthDb)
    → env.is_dev ≡ false
    → requested_code r ≡ some code
    → code ≢ ""
    → lookup db.flows code ≡ some flow
    → Replies env flow (device_token env r db).0
device_token-Replies env r code flow db production asked some_code found =
    subst (Replies env flow)
      (sym (device_token-commit_poll env r code flow db asked some_code found))
      (commit_poll-Replies env r code flow db production)
