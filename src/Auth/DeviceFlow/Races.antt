-- ===== src/Auth/DeviceFlow/Races.antt =====
-- About overlapping polls.
use research_crafters.Prelude.{
  String, [], ap, arith, eq_iff, none, refl, some, true, ◌++◌, ◌∙◌, ◌∷◌, ◌≡◌, ◌≢◌,
}
use research_crafters.Auth.DeviceFlow.{
  AuthDb, Flow, TokenEnv, TokenRequest, approved, commit_poll, exchange_approved, exchange_state,
  force_approve, mint, update_flow,
}
use research_crafters.Auth.DeviceFlow.Exchange.{is_issued, session_row}

commit_poll-minted :
    (env : TokenEnv) (r : TokenRequest) (code user : String) (flow : Flow) (db : AuthDb)
    → flow.state ≡ approved
    → flow.user_id ≡ some user
    → user ≢ ""
    → flow.consumed_at ≡ none
    → commit_poll env r code flow db ≡ mint env code user db
unfolding commit_poll exchange_state exchange_approved force_approve
commit_poll-minted env r code user flow db state owner named fresh = ground (arith, eq_iff user "")

sessions-update_flow :
    (code : String) (f : Flow → Flow) (db : AuthDb) → (update_flow code f db).sessions ≡ db.sessions
unfolding update_flow
sessions-update_flow code f db = ground arith

sessions-mint :
    (env : TokenEnv) (code user : String) (db : AuthDb)
    → (mint env code user db).1.sessions ≡ db.sessions ++ session_row env user ∷ []
unfolding mint
sessions-mint env code user db = sessions-update_flow code _ _

is_issued-mint :
    (env : TokenEnv) (code user : String) (db : AuthDb) → is_issued (mint env code user db).0 ≡ true
unfolding mint
is_issued-mint env code user db = refl

-- The read and the mark of consumption are separate statements. Two polls that go on from one row,
-- which both read as approved for a user and not consumed, both hand out a session, and both
-- sessions are stored.
pub commit_poll_race :
    (env env' : TokenEnv) (r r' : TokenRequest) (code user : String) (flow : Flow) (db : AuthDb)
    → flow.state ≡ approved
    → flow.user_id ≡ some user
    → user ≢ ""
    → flow.consumed_at ≡ none
    → let (first, db') = commit_poll env r code flow db in
      let (second, db'') = commit_poll env' r' code flow db' in
      (is_issued first ≡ true)
      × (is_issued second ≡ true)
      × (db''.sessions ≡ (db.sessions ++ session_row env user ∷ []) ++ session_row env' user ∷ [])
commit_poll_race env env' r r' code user flow db state owner named fresh =
    rw
      (
        commit_poll-minted env r code user flow db state owner named fresh,
        commit_poll-minted env' r' code user flow (mint env code user db).1 state owner named fresh,
      )
      (
        is_issued-mint env code user db,
        is_issued-mint env' code user (mint env code user db).1,
        sessions-mint env' code user (mint env code user db).1
            ∙ ap (λ l. l ++ session_row env' user ∷ []) (sessions-mint env code user db),
      )
