-- ===== src/Auth/DeviceFlow/Single.antt =====
-- A device code over a run of calls.
use research_crafters.Prelude.{
  Bool, List, Option-cases, String, [], arith, eq_iff, false, inl, inr, is_some, none, refl, some,
  true, ℕ, ◌∷◌, ◌≡◌,
}
use research_crafters.Prelude.Dict.{lookup, lookup-insert}
use research_crafters.Auth.DeviceFlow.{
  AuthDb, Flow, FlowState, TokenEnv, TokenRequest, approve_for, approved, commit_poll, consume,
  decide_flow, decide_row, denied, device_approve, device_code, device_token, exchange_approved,
  exchange_state, expired, find_user_code, force_approve, mint, new_flow, pending, requested_code,
  revoke, set_state, update_flow,
}
use research_crafters.Auth.DeviceFlow.Exchange.{
  AuthOp, IsConsumed, apply_op, approval, device_token-cases, is_issued, login, poll, revocation,
  run_ops, update_flow-IsConsumed,
}

module _ (code : String) where
  force_approve-IsConsumed :
      (env : TokenEnv) (r : TokenRequest) (other : String) (flow : Flow) (db : AuthDb)
      → IsConsumed code db
      → IsConsumed code (force_approve env r other flow db).1
  unfolding force_approve
  force_approve-IsConsumed env r other flow db h = elim (Option-cases env.fixture_user) [
    | inl missing ↦ ground arith
    | inr (user, found) ↦
        ground (arith, update_flow-IsConsumed code other (approve_for user) db (λ row p. p) h)
  ]

  mint-IsConsumed :
      (env : TokenEnv) (other user : String) (db : AuthDb)
      → IsConsumed code db
      → IsConsumed code (mint env other user db).1
  unfolding mint
  mint-IsConsumed env other user db h =
      update_flow-IsConsumed code other (consume env.consume_now) _ (λ row p. refl) h

  exchange-IsConsumed :
      (state : FlowState) (env : TokenEnv) (other : String) (flow : Flow) (db : AuthDb)
      → IsConsumed code db
      → IsConsumed code (exchange_state state env other flow db).1
  unfolding exchange_state exchange_approved
  exchange-IsConsumed approved env other flow db h = elim (Option-cases flow.user_id) [
    | inl missing ↦ ground arith
    | inr (user, found) ↦ ground (arith, mint-IsConsumed env other user db h)
  ]
  exchange-IsConsumed _ env other flow db h = h

  commit_poll-IsConsumed :
      (env : TokenEnv) (r : TokenRequest) (other : String) (flow : Flow) (db : AuthDb)
      → IsConsumed code db
      → IsConsumed code (commit_poll env r other flow db).1
  unfolding commit_poll
  commit_poll-IsConsumed env r other flow db h =
      let (flow', db') = force_approve env r other flow db in
      let h' = force_approve-IsConsumed env r other flow db h in
      ground (
        arith,
        h',
        update_flow-IsConsumed code other (set_state expired) db' (λ row p. p) h',
        exchange-IsConsumed flow'.state env other flow' db' h',
      )

  decide_flow-IsConsumed :
      (user : String) (approve : Bool) (now : ℕ) (other : String) (flow : Flow) (db : AuthDb)
      → IsConsumed code db
      → IsConsumed code (decide_flow user approve now other flow db).1
  unfolding decide_flow
  decide_flow-IsConsumed user approve now other flow db h = ground (
    arith,
    update_flow-IsConsumed code other (set_state expired) db (λ row p. p) h,
    update_flow-IsConsumed code other (decide_row user approve) db (λ row p. p) h,
  )

  approval-IsConsumed :
      (user user_code : String) (approve : Bool) (now : ℕ) (db : AuthDb)
      → IsConsumed code db
      → IsConsumed code (device_approve (some user) user_code approve now db).1
  unfolding device_approve
  approval-IsConsumed user user_code approve now db h =
      elim (Option-cases (find_user_code db.flows user_code)) [
        | inl unknown ↦ ground arith
        | inr (found, e) ↦
            ground (arith, decide_flow-IsConsumed user approve now found.0 found.1 db h)
      ]

  apply_op-IsConsumed :
      (op : AuthOp) (db : AuthDb) → IsConsumed code db → IsConsumed code (apply_op op db)
  unfolding device_token device_approve device_code revoke
  apply_op-IsConsumed (poll env r) db h = elim (Option-cases (requested_code r)) [
    | inl missing ↦ ground arith
    | inr (other, e) ↦ elim (Option-cases (lookup db.flows other)) [
      | inl unknown ↦ ground arith
      | inr (flow, found) ↦ ground (arith, commit_poll-IsConsumed env r other flow db h)
    ]
  ]
  apply_op-IsConsumed (approval none user_code approve now) db h = h
  apply_op-IsConsumed (approval (some user) user_code approve now) db h =
      approval-IsConsumed user user_code approve now db h
  apply_op-IsConsumed (login other user_code now) db h =
      ground (arith, lookup-insert db.flows other code (new_flow user_code now), eq_iff other code)
  apply_op-IsConsumed (revocation token) db h = h

  run_ops-IsConsumed :
      (ops : List AuthOp) (db : AuthDb) → IsConsumed code db → IsConsumed code (run_ops ops db)
  run_ops-IsConsumed [] db h = h
  run_ops-IsConsumed (op ∷ ops) db h =
      run_ops-IsConsumed ops (apply_op op db) (apply_op-IsConsumed op db h)

  force_approve-consumed :
      (env : TokenEnv) (r : TokenRequest) (flow : Flow) (db : AuthDb)
      → is_some flow.consumed_at ≡ true
      → is_some (force_approve env r code flow db).0.consumed_at ≡ true
  unfolding force_approve
  force_approve-consumed env r flow db h = ground arith

  refused :
      (env : TokenEnv) (r : TokenRequest) (flow : Flow) (db : AuthDb)
      → is_some flow.consumed_at ≡ true
      → is_issued (commit_poll env r code flow db).0 ≡ false
  unfolding commit_poll exchange_state exchange_approved
  refused env r flow db h = ground (arith, force_approve-consumed env r flow db h)

  not_issued :
      (env : TokenEnv) (r : TokenRequest) (db : AuthDb)
      → requested_code r ≡ some code
      → IsConsumed code db
      → is_issued (device_token env r db).0 ≡ false
  unfolding device_token
  not_issued env r db e h = elim (Option-cases (lookup db.flows code)) [
    | inl unknown ↦ ground arith
    | inr (flow, found) ↦ ground (arith, refused env r flow db)
  ]

  force_approve-present :
      (env : TokenEnv) (r : TokenRequest) (flow : Flow) (db : AuthDb)
      → is_some (lookup db.flows code) ≡ true
      → is_some (lookup (force_approve env r code flow db).1.flows code) ≡ true
  unfolding force_approve update_flow
  force_approve-present env r flow db there = elim (Option-cases env.fixture_user) [
    | inl missing ↦ ground arith
    | inr (user, found) ↦ elim (Option-cases (lookup db.flows code)) [
      | inl gone ↦ ground (arith, there, gone)
      | inr (row, e) ↦
          ground (arith, lookup-insert db.flows code code (approve_for user row), eq_iff code code)
    ]
  ]

  mint-consumes :
      (env : TokenEnv) (user : String) (db : AuthDb)
      → is_some (lookup db.flows code) ≡ true
      → IsConsumed code (mint env code user db).1
  unfolding mint update_flow
  mint-consumes env user db there = elim (Option-cases (lookup db.flows code)) [
    | inl gone ↦ ground (arith, there, gone)
    | inr (row, e) ↦
        ground
          (arith, lookup-insert db.flows code code (consume env.consume_now row), eq_iff code code)
  ]

  exchange-consumes :
      (state : FlowState) (env : TokenEnv) (flow : Flow) (db : AuthDb)
      → is_some (lookup db.flows code) ≡ true
      → is_issued (exchange_state state env code flow db).0 ≡ true
      → IsConsumed code (exchange_state state env code flow db).1
  unfolding exchange_state exchange_approved
  exchange-consumes approved env flow db there h = elim (Option-cases flow.user_id) [
    | inl missing ↦ absurd (ground arith)
    | inr (user, found) ↦ ground (arith, mint-consumes env user db there)
  ]
  exchange-consumes pending env flow db there h = absurd (ground arith)
  exchange-consumes denied env flow db there h = absurd (ground arith)
  exchange-consumes expired env flow db there h = absurd (ground arith)

  commit_poll-consumes :
      (env : TokenEnv) (r : TokenRequest) (flow : Flow) (db : AuthDb)
      → is_some (lookup db.flows code) ≡ true
      → is_issued (commit_poll env r code flow db).0 ≡ true
      → IsConsumed code (commit_poll env r code flow db).1
  unfolding commit_poll
  commit_poll-consumes env r flow db there h =
      let (flow', db') = force_approve env r code flow db in
      let there' = force_approve-present env r flow db there in
      ground (arith, exchange-consumes flow'.state env flow' db' there')

  device_token-IsConsumed :
      (env : TokenEnv) (r : TokenRequest) (db : AuthDb)
      → requested_code r ≡ some code
      → is_issued (device_token env r db).0 ≡ true
      → IsConsumed code (device_token env r db).1
  device_token-IsConsumed env r db e h =
      let (flow, found, same) = device_token-cases env r code db e h in
      let there : is_some (lookup db.flows code) ≡ true = ground (arith, found) in
      rw same (commit_poll-consumes env r flow db there (rw same at h))

-- As long as requests do not overlap, a device code mints one session at most: after a poll that
-- handed out a session, in production or in development, and any further polls, approvals, new logins
-- and revocations, no poll for the same code hands out another, in production or in development.
pub device_token_once :
    (env env' : TokenEnv) (r r' : TokenRequest) (code : String) (db : AuthDb) (ops : List AuthOp)
    → requested_code r ≡ some code
    → requested_code r' ≡ some code
    → is_issued (device_token env r db).0 ≡ true
    → is_issued (device_token env' r' (run_ops ops (device_token env r db).1)).0 ≡ false
device_token_once env env' r r' code db ops e e' h =
    not_issued code env' r' _ e'
      (run_ops-IsConsumed code ops _ (device_token-IsConsumed code env r db e h))
