-- ===== src/Auth/DeviceFlow.antt =====
-- The device login: apps/web/app/api/auth/device-code/route.ts, device/approve/route.ts,
-- device-token/route.ts and revoke/route.ts. The table of flows is a dictionary by device code (a
-- unique column, so an update by id is an update by it); sessions are a list. Random codes and
-- tokens, clock readings and the lookups of users are arguments. A request has passed its schema.
pub mod Exchange
pub mod Single
pub mod Races
pub mod Replies
use research_crafters.Prelude.{
  Bool, List, Option, String, [], false, filter, if◌then◌else◌, is_some, leb, length, ltb, nat_eq,
  none, not, some, string_eq, true, ℕ, ◌&&◌, ◌*◌, ◌++◌, ◌+◌, ◌==◌, ◌||◌, ◌∷◌,
}
use research_crafters.Prelude.Dict.{Dict, insert, lookup}

pub data FlowState : Type 0 where
  pending approved denied expired : FlowState

pub record Flow : Type 0 where
  pub user_code : String
  pub state : FlowState
  pub user_id : Option String
  pub expires_at : ℕ
  pub consumed_at : Option ℕ

pub record SessionRow : Type 0 where
  pub session_token : String
  pub user_id : String
  pub expires : ℕ

pub record AuthDb : Type 0 where
  pub flows : Dict Flow
  pub sessions : List SessionRow

pub record TokenRequest : Type 0 where
  pub device_code : Option String
  pub device_code_snake : Option String
  pub developer_force_approve : Bool

-- What the token route reads besides the request and the table.
pub record TokenEnv : Type 0 where
  pub is_dev : Bool
  pub fixture_user : Option String
  pub email_of : String → Option String
  pub force_now : ℕ
  pub now : ℕ
  pub consume_now : ℕ
  pub session_token : String

pub data TokenResponse : Type 0 where
  missing_device_code expired_token access_denied authorization_pending : TokenResponse
  issued : String → ℕ → Option String → TokenResponse

unfoldable pub token_status : TokenResponse → ℕ
token_status authorization_pending = 202
token_status (issued token expires email) = 200
token_status _ = 400

abbrev pub session_ttl_ms : ℕ
session_ttl_ms = 30 * 24 * 60 * 60 * 1000

abbrev pub is_pending : FlowState → Bool
is_pending pending = true
is_pending _ = false

abbrev pub is_approved : FlowState → Bool
is_approved approved = true
is_approved _ = false

abbrev pub is_expired_state : FlowState → Bool
is_expired_state expired = true
is_expired_state _ = false

-- `prisma.deviceCodeFlow.update` writes some columns of the row as it now stands.
unfoldable pub update_flow : String → (Flow → Flow) → AuthDb → AuthDb
update_flow code f db = elim (lookup db.flows code) [
  | none ↦ db
  | some row ↦ record db { flows = insert db.flows code (f row) }
]

abbrev pub set_state : FlowState → Flow → Flow
set_state s row = record row { state = s }

abbrev pub approve_for : String → Flow → Flow
approve_for user row = record row { state = approved; user_id = some user }

abbrev pub consume : ℕ → Flow → Flow
consume at row = record row { consumed_at = some at }

-- `deviceCode ?? device_code`, where an empty text is refused like a missing one.
abbrev pub requested_code : TokenRequest → Option String
requested_code r = elim r.device_code [ some c ↦ some c | none ↦ r.device_code_snake ]

-- The development shortcut: the flow as the handler goes on with it, and the table.
unfoldable pub force_approve : TokenEnv → TokenRequest → String → Flow → AuthDb → Flow × AuthDb
force_approve env r code flow db =
    if r.developer_force_approve
      && env.is_dev
      && is_pending flow.state
      && ltb env.force_now flow.expires_at
    then elim env.fixture_user [
      | none ↦ (flow, db)
      | some user ↦ (approve_for user flow, update_flow code (approve_for user) db)
    ]
    else (flow, db)

-- The last part of the route: a session is created, then the flow is marked as consumed.
unfoldable pub mint : TokenEnv → String → String → AuthDb → TokenResponse × AuthDb
mint env code user db =
    let expires = env.now + session_ttl_ms in
    let row : SessionRow = record {
      session_token = env.session_token;
      user_id = user;
      expires = expires;
    } in
    let db' : AuthDb = record db { sessions = db.sessions ++ row ∷ [] } in
    (
      issued env.session_token expires (env.email_of user),
      update_flow code (consume env.consume_now) db',
    )

unfoldable pub exchange_approved : TokenEnv → String → Flow → AuthDb → TokenResponse × AuthDb
exchange_approved env code flow db = elim flow.user_id [
  | none ↦ (access_denied, db)
  | some user ↦
      if user == ""
      then (access_denied, db)
      else if is_some flow.consumed_at
      then (expired_token, db)
      else mint env code user db
]

unfoldable pub exchange_state :
    FlowState → TokenEnv → String → Flow → AuthDb → TokenResponse × AuthDb
exchange_state denied env code flow db = (access_denied, db)
exchange_state expired env code flow db = (expired_token, db)
exchange_state pending env code flow db = (authorization_pending, db)
exchange_state approved env code flow db = exchange_approved env code flow db

-- The route behind `findUnique`: `flow` is the row that was read, `db` the table as it now stands.
unfoldable pub commit_poll :
    TokenEnv → TokenRequest → String → Flow → AuthDb → TokenResponse × AuthDb
commit_poll env r code read db =
    let (flow, db') = force_approve env r code read db in
    if leb flow.expires_at env.now && not (is_approved flow.state)
    then (
      expired_token,
      if is_expired_state flow.state then db' else update_flow code (set_state expired) db',
    )
    else exchange_state flow.state env code flow db'

-- `POST /api/auth/device-token`, undisturbed.
unfoldable pub device_token : TokenEnv → TokenRequest → AuthDb → TokenResponse × AuthDb
device_token env r db = elim (requested_code r) [
  | none ↦ (missing_device_code, db)
  | some code ↦ if code == "" then (missing_device_code, db) else elim (lookup db.flows code) [
    | none ↦ (expired_token, db)
    | some flow ↦ commit_poll env r code flow db
  ]
]

-- `findUnique` by user code.
unfoldable pub find_user_code : Dict Flow → String → Option (String × Flow)
find_user_code [] user_code = none
find_user_code ((code, flow) ∷ flows) user_code =
    if flow.user_code == user_code then some (code, flow) else find_user_code flows user_code

pub data ApproveResponse : Type 0 where
  not_authenticated not_found approve_expired : ApproveResponse
  already_handled : FlowState → ApproveResponse
  decided : FlowState → ApproveResponse

unfoldable pub approve_status : ApproveResponse → ℕ
approve_status not_authenticated = 401
approve_status not_found = 404
approve_status approve_expired = 400
approve_status _ = 200

abbrev next_state : Bool → FlowState
next_state true = approved
next_state false = denied

abbrev pub decide_row : String → Bool → Flow → Flow
decide_row user approve row = record row { state = next_state approve; user_id = some user }

-- The route behind its read.
unfoldable pub decide_flow : String → Bool → ℕ → String → Flow → AuthDb → ApproveResponse × AuthDb
decide_flow user approve now code flow db =
    if not (is_pending flow.state) || is_some flow.consumed_at
    then (already_handled flow.state, db)
    else if leb flow.expires_at now
    then (approve_expired, update_flow code (set_state expired) db)
    else (
      decided (next_state approve),
      update_flow code (λ row. record row { state = next_state approve; user_id = some user }) db,
    )

-- `POST /api/auth/device/approve`; `approve` is the decision, `user` the session's user.
unfoldable pub device_approve :
    Option String → String → Bool → ℕ → AuthDb → ApproveResponse × AuthDb
device_approve session user_code approve now db = elim session [
  | none ↦ (not_authenticated, db)
  | some user ↦
      if user == "" then (not_authenticated, db) else elim (find_user_code db.flows user_code) [
        | none ↦ (not_found, db)
        | some (code, flow) ↦ decide_flow user approve now code flow db
      ]
]

-- `POST /api/auth/device-code`: the row of a new flow.
abbrev pub device_code_ttl_ms : ℕ
device_code_ttl_ms = 600 * 1000

abbrev pub new_flow : String → ℕ → Flow
new_flow user_code now = record {
  user_code = user_code;
  state = pending;
  user_id = none;
  expires_at = now + device_code_ttl_ms;
  consumed_at = none;
}

-- Both code columns are unique: a code that is taken makes the insert fail.
unfoldable pub device_code : String → String → ℕ → AuthDb → AuthDb
device_code code user_code now db =
    if is_some (lookup db.flows code) || is_some (find_user_code db.flows user_code)
    then db
    else record db { flows = insert db.flows code (new_flow user_code now) }

-- `POST /api/auth/revoke`: whether a session was deleted, and the table.
unfoldable pub revoke : String → AuthDb → Bool × AuthDb
revoke token db =
    let kept = filter (λ s. not (s.session_token == token)) db.sessions in
    (ltb (length kept) (length db.sessions), record db { sessions = kept })
