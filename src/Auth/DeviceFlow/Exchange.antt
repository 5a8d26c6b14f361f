-- ===== src/Auth/DeviceFlow/Exchange.antt =====
-- What a token response means, as long as requests do not overlap.
use research_crafters.Prelude.{
  ==_self, Bool, List, Option, Option-cases, String, [], arith, eq_iff, false, inl, inr, is_some,
  nat_eq, none, some, string_eq, true, ℕ, ◌++◌, ◌+◌, ◌∷◌, ◌≡◌,
}
use research_crafters.Prelude.Dict.{lookup, lookup-insert}
use research_crafters.Auth.DeviceFlow.{
  AuthDb, Flow, SessionRow, TokenEnv, TokenRequest, TokenResponse, approved, commit_poll, consume,
  device_approve, device_code, device_token, exchange_approved, exchange_state, force_approve,
  issued, mint, requested_code, revoke, session_ttl_ms, update_flow,
}

abbrev pub session_row : TokenEnv → String → SessionRow
session_row env user = record {
  session_token = env.session_token;
  user_id = user;
  expires = env.now + session_ttl_ms;
}

-- The code has been exchanged.
abbrev consumed : Option Flow → Bool
consumed none = false
consumed (some flow) = is_some flow.consumed_at

abbrev pub IsConsumed : String → AuthDb → Type 0
IsConsumed code db = consumed (lookup db.flows code) ≡ true

-- Why a session was minted for a code: the flow was approved for the user, and not yet exchanged.
abbrev pub MayMint : String → String → AuthDb → Type 0
MayMint code user db =
    (flow : Flow) × (lookup db.flows code ≡ some flow)
    × (flow.state ≡ approved)
    × (flow.user_id ≡ some user)
    × (flow.consumed_at ≡ none)

abbrev pub is_issued : TokenResponse → Bool
is_issued (issued token expires email) = true
is_issued _ = false

module _ (env : TokenEnv) (r : TokenRequest) (code : String) (production : env.is_dev ≡ false) where
  pub force_approve_off :
      (flow : Flow) (db : AuthDb) → force_approve env r code flow db ≡ (flow, db)
  unfolding force_approve
  force_approve_off flow db = ground (arith, production)

  -- The response on a row, with the table that the exchange starts from.
  commit_poll-some :
      (flow : Flow) (user : String) (db : AuthDb)
      → flow.user_id ≡ some user
      → is_issued (commit_poll env r code flow db).0 ≡ true
      → (flow.state ≡ approved)
        × (flow.consumed_at ≡ none)
        × (commit_poll env r code flow db ≡ mint env code user db)
  unfolding commit_poll exchange_state exchange_approved
  commit_poll-some flow user db e h = (
    ground (arith, force_approve_off flow db),
    ground (arith, force_approve_off flow db),
    ground (arith, force_approve_off flow db),
  )

  commit_poll-none :
      (flow : Flow) (db : AuthDb)
      → flow.user_id ≡ none
      → is_issued (commit_poll env r code flow db).0 ≡ false
  unfolding commit_poll exchange_state exchange_approved
  commit_poll-none flow db e = ground (arith, force_approve_off flow db)

  mint_lem :
      (user : String) (flow : Flow) (db : AuthDb)
      → lookup db.flows code ≡ some flow
      → ((mint env code user db).1.sessions ≡ db.sessions ++ session_row env user ∷ [])
        × IsConsumed code (mint env code user db).1
  unfolding mint update_flow
  mint_lem user flow db found =
      ground (arith, lookup-insert db.flows code code (consume env.consume_now flow), ==_self code)

  commit_poll-issued :
      (flow : Flow) (db : AuthDb)
      → lookup db.flows code ≡ some flow
      → is_issued (commit_poll env r code flow db).0 ≡ true
      → (user : String) × MayMint code user db
        × ((commit_poll env r code flow db).1.sessions ≡ db.sessions ++ session_row env user ∷ [])
        × IsConsumed code (commit_poll env r code flow db).1
  commit_poll-issued flow db found h = elim (Option-cases flow.user_id) [
    | inl e ↦ cc (commit_poll-none flow db e)
    | inr (user, e) ↦
        let (state, fresh, same) = commit_poll-some flow user db e h in
        let (sessions, gone) = mint_lem user flow db found in
        (user, (flow, found, state, e, fresh), rw same sessions, rw same gone)
  ]

pub device_token-cases :
    (env : TokenEnv) (r : TokenRequest) (code : String) (db : AuthDb)
    → requested_code r ≡ some code
    → is_issued (device_token env r db).0 ≡ true
    → (flow : Flow) × (lookup db.flows code ≡ some flow)
      × (device_token env r db ≡ commit_poll env r code flow db)
unfolding device_token
device_token-cases env r code db e h = elim (Option-cases (lookup db.flows code)) [
  | inl missing ↦ absurd (ground arith)
  | inr (flow, found) ↦ (flow, found, ground arith)
]

-- Outside development, a token response hands out a session only for a code whose flow was approved
-- for that session's user and not exchanged before; it adds exactly that session, and the code is
-- exchanged from then on.
pub device_token-issued :
    (env : TokenEnv) (r : TokenRequest) (code : String) (db : AuthDb)
    → env.is_dev ≡ false
    → requested_code r ≡ some code
    → is_issued (device_token env r db).0 ≡ true
    → (user : String) × MayMint code user db
      × ((device_token env r db).1.sessions ≡ db.sessions ++ session_row env user ∷ [])
      × IsConsumed code (device_token env r db).1
device_token-issued env r code db production e h =
    let (flow, found, same) = device_token-cases env r code db e h in
    let (user, may, sessions, gone) =
      commit_poll-issued env r code production flow db found (rw same at h) in
    (user, may, rw same sessions, rw same gone)

-- A call of one of the four routes.
pub data AuthOp : Type 0 where
  poll : TokenEnv → TokenRequest → AuthOp
  approval : Option String → String → Bool → ℕ → AuthOp
  login : String → String → ℕ → AuthOp
  revocation : String → AuthOp

abbrev pub apply_op : AuthOp → AuthDb → AuthDb
apply_op (poll env r) db = (device_token env r db).1
apply_op (approval session user_code approve now) db =
    (device_approve session user_code approve now db).1
apply_op (login code user_code now) db = device_code code user_code now db
apply_op (revocation token) db = (revoke token db).1

-- The calls are made in turn, none before the last has ended.
abbrev pub run_ops : List AuthOp → AuthDb → AuthDb
run_ops [] db = db
run_ops (op ∷ ops) db = run_ops ops (apply_op op db)

-- An update that keeps the mark of consumption keeps a code consumed.
pub update_flow-IsConsumed :
    (code other : String) (f : Flow → Flow) (db : AuthDb)
    → ((row : Flow) → is_some row.consumed_at ≡ true → is_some (f row).consumed_at ≡ true)
    → IsConsumed code db
    → IsConsumed code (update_flow other f db)
unfolding update_flow
update_flow-IsConsumed code other f db keep h = elim (Option-cases (lookup db.flows other)) [
  | inl missing ↦ ground arith
  | inr (row, found) ↦
      ground (arith, lookup-insert db.flows other code (f row), keep row, eq_iff other code)
]
