-- ===== src/Auth/Tests.antt =====
-- Examples of the device login: a code that is approved, exchanged, and asked for again.
use research_crafters.Prelude.{
  List, String, [], arith, eq_iff, false, none, refl, some, true, ◌++◌, ◌∷◌, ◌≡◌, ◌≢◌,
}
use research_crafters.Prelude.Dict.{lookup}
use research_crafters.Auth.DeviceFlow.{
  AuthDb, Flow, TokenEnv, TokenRequest, approved, commit_poll, device_token, exchange_approved,
  exchange_state, force_approve, mint,
}
use research_crafters.Auth.DeviceFlow.Exchange.{
  AuthOp, IsConsumed, MayMint, approval, device_token-issued, is_issued, login, revocation, run_ops,
  session_row,
}
use research_crafters.Auth.DeviceFlow.Single.{device_token_once}
use research_crafters.Auth.DeviceFlow.Races.{commit_poll_race}
use research_crafters.Auth.DeviceFlow.Replies.{Replies, device_token-Replies}

abbrev approved_flow : Flow
approved_flow = record {
  user_code = "ABCD";
  state = approved;
  user_id = some "u1";
  expires_at = 50;
  consumed_at = none;
}

abbrev auth_db : AuthDb
auth_db = record { flows = ("dc1", approved_flow) ∷ []; sessions = [] }

abbrev token_env : String → TokenEnv
token_env token = record {
  is_dev = false;
  fixture_user = none;
  email_of = λ u. none;
  force_now = 60;
  now = 60;
  consume_now = 61;
  session_token = token;
}

abbrev poll : TokenRequest
poll = record {
  device_code = some "dc1";
  device_code_snake = none;
  developer_force_approve = false;
}

device_token-polled : is_issued (device_token (token_env "t1") poll auth_db).0 ≡ true
unfolding device_token commit_poll force_approve exchange_state exchange_approved mint lookup
device_token-polled = refl

abbrev user : String
user = "u1"

abbrev code : String
code = "dc1"

user≢empty : user ≢ ""
user≢empty h = ground (arith, eq_iff user "")

code≢empty : code ≢ ""
code≢empty h = ground (arith, eq_iff code "")

device_token-issued_example :
    (u : String) × MayMint "dc1" u auth_db
    × ((device_token (token_env "t1") poll auth_db).1.sessions
        ≡ auth_db.sessions ++ session_row (token_env "t1") u ∷ [])
    × IsConsumed "dc1" (device_token (token_env "t1") poll auth_db).1
device_token-issued_example =
    device_token-issued (token_env "t1") poll "dc1" auth_db refl refl device_token-polled

-- A new login, a logout and a refused decision in between.
abbrev later_ops : List AuthOp
later_ops = login "dc2" "WXYZ" 70 ∷ revocation "t1" ∷ approval (some "u2") "ABCD" true 71 ∷ []

device_token_once_example :
    is_issued
      (device_token
        (token_env "t2")
        poll
        (run_ops later_ops (device_token (token_env "t1") poll auth_db).1)).0
    ≡ false
device_token_once_example =
    device_token_once (token_env "t1") (token_env "t2") poll poll "dc1" auth_db later_ops refl refl
      device_token-polled

commit_poll_race_example :
    let (first, db') = commit_poll (token_env "t1") poll "dc1" approved_flow auth_db in
    let (second, db'') = commit_poll (token_env "t2") poll "dc1" approved_flow db' in
    (is_issued first ≡ true)
    × (is_issued second ≡ true)
    × (db''.sessions
        ≡ (auth_db.sessions ++ session_row (token_env "t1") "u1" ∷ [])
          ++ session_row (token_env "t2") "u1" ∷ [])
commit_poll_race_example =
    commit_poll_race (token_env "t1") (token_env "t2") poll poll "dc1" "u1" approved_flow auth_db
      refl refl user≢empty refl

found_flow : lookup auth_db.flows "dc1" ≡ some approved_flow
unfolding lookup
found_flow = refl

device_token-Replies_example :
    Replies (token_env "t1") approved_flow (device_token (token_env "t1") poll auth_db).0
device_token-Replies_example =
    device_token-Replies (token_env "t1") poll "dc1" approved_flow auth_db refl refl code≢empty
      found_flow
