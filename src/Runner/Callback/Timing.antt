-- ===== src/Runner/Callback/Timing.antt =====
-- About the times of a run.
use research_crafters.Prelude.{
  Bool, Bool-cases, List, Option, Option-cases, String, [], arith, eq_iff, inl, inr, is_some, leb,
  nat_eq, none, not, some, string_eq, true, ℕ, ◌&&◌, ◌==◌, ◌∙◌, ◌∷◌, ◌≡◌, ◌≤◌, ◌⊎◌,
}
use research_crafters.Prelude.Dict.{lookup, lookup-insert}
use research_crafters.Runner.Callback.{
  CallbackBody, CallbackEnv, CallbackRequest, RunDb, RunRow, authorize, callback, handle_body,
  parse_body, persist, updated_run,
}

module _ {V : Type 0} where
  -- Callbacks one after the other, each with the environment that it meets.
  abbrev pub callbacks : List (CallbackEnv × CallbackRequest V) → RunDb V → RunDb V
  callbacks [] db = db
  callbacks ((env, r) ∷ rest) db = callbacks rest (callback env r db).1

  -- When a run started, as far as its row says.
  abbrev pub started : RunDb V → String → Option ℕ
  started db id = elim (lookup db.runs id) [ none ↦ none | some row ↦ row.started_at ]

  persist-started :
      (env : CallbackEnv) (j : String) (b : CallbackBody V) (read : RunRow V) (db : RunDb V)
      (id : String) (t : ℕ)
      → lookup db.runs j ≡ some read
      → started db id ≡ some t
      → started (persist env j b read db).1 id ≡ some t
  unfolding persist updated_run
  persist-started env j b read db id t found h =
      ground (arith, lookup-insert db.runs j id (updated_run env.now b read), eq_iff j id)

  handle_body_cases :
      (env : CallbackEnv) (id : String) (b : CallbackBody V) (db : RunDb V)
      → ((handle_body env id b db).1 ≡ db)
        ⊎ ((row : RunRow V) × (lookup db.runs id ≡ some row)
            × ((handle_body env id b db).1 ≡ (persist env id b row db).1))
  unfolding handle_body
  handle_body_cases env id b db = elim (Bool-cases env.read_fails) [
    | inl fails ↦ inl (ground arith)
    | inr works ↦ elim (Option-cases (lookup db.runs id)) [
      | inl missing ↦ inl (ground arith)
      | inr (row, found) ↦ inr (row, found, ground arith)
    ]
  ]

  callback-or_handle :
      (env : CallbackEnv) (r : CallbackRequest V) (db : RunDb V)
      → ((callback env r db).1 ≡ db)
        ⊎ ((b : CallbackBody V) × ((callback env r db).1 ≡ (handle_body env r.run_id b db).1))
  unfolding callback
  callback-or_handle env r db = elim (Bool-cases (authorize env r.secret)) [
    | inr closed ↦ inl (ground arith)
    | inl let_in ↦ elim (Option-cases r.payload) [
      | inl bad ↦ inl (ground arith)
      | inr (raw, e) ↦ elim (Option-cases (parse_body raw)) [
        | inl bad ↦ inl (ground arith)
        | inr (b, parsed) ↦ inr (b, ground arith)
      ]
    ]
  ]

  -- A callback leaves the tables, or writes behind a row that it has found.
  callback_cases :
      (env : CallbackEnv) (r : CallbackRequest V) (db : RunDb V)
      → ((callback env r db).1 ≡ db)
        ⊎ ((b : CallbackBody V) × (row : RunRow V) × (lookup db.runs r.run_id ≡ some row)
            × ((callback env r db).1 ≡ (persist env r.run_id b row db).1))
  callback_cases env r db = elim (callback-or_handle env r db) [
    | inl same ↦ inl same
    | inr (b, e) ↦ elim (handle_body_cases env r.run_id b db) [
      | inl same ↦ inl (e ∙ same)
      | inr (row, found, e') ↦ inr (b, row, found, e ∙ e')
    ]
  ]

  callback-started :
      (env : CallbackEnv) (r : CallbackRequest V) (db : RunDb V) (id : String) (t : ℕ)
      → started db id ≡ some t
      → started (callback env r db).1 id ≡ some t
  callback-started env r db id t h = elim (callback_cases env r db) [
    | inl same ↦ rw same h
    | inr (b, row, found, e) ↦ rw e (persist-started env r.run_id b row db id t found h)
  ]

  -- A run starts once: whatever callbacks follow, the time at which a run started stays the one that
  -- was first written.
  pub callbacks-started :
      (steps : List (CallbackEnv × CallbackRequest V)) (db : RunDb V) (id : String) (t : ℕ)
      → started db id ≡ some t
      → started (callbacks steps db) id ≡ some t
  callbacks-started [] db id t h = h
  callbacks-started ((env, r) ∷ rest) db id t h =
      callbacks-started rest (callback env r db).1 id t (callback-started env r db id t h)

  -- A row whose start lies before its end, and both before `now`.
  abbrev pub well_timed : ℕ → RunRow V → Bool
  well_timed now row = elim row.started_at [
    | none ↦ not (is_some row.finished_at)
    | some s ↦ leb s now && elim row.finished_at [ none ↦ true | some f ↦ leb s f && leb f now ]
  ]

  abbrev pub IsTimed : ℕ → RunDb V → Type 0
  IsTimed now db =
      (id : String) (row : RunRow V) → lookup db.runs id ≡ some row → well_timed now row ≡ true

  well_timed-later :
      (now later : ℕ) (row : RunRow V)
      → now ≤ later
      → well_timed now row ≡ true
      → well_timed later row ≡ true
  well_timed-later now later row le h = ground arith

  well_timed-updated_run :
      (now later : ℕ) (b : CallbackBody V) (row : RunRow V)
      → now ≤ later
      → well_timed now row ≡ true
      → well_timed later (updated_run later b row) ≡ true
  unfolding updated_run
  well_timed-updated_run now later b row le h = ground arith

  persist-IsTimed :
      (env : CallbackEnv) (j : String) (b : CallbackBody V) (read : RunRow V) (now : ℕ)
      (db : RunDb V)
      → now ≤ env.now
      → lookup db.runs j ≡ some read
      → IsTimed now db
      → IsTimed env.now (persist env j b read db).1
  unfolding persist
  persist-IsTimed env j b read now db le found timed id row at = elim (Bool-cases env.write_fails) [
    | inl fails ↦ well_timed-later now env.now row le (timed id row (ground arith))
    | inr works ↦ elim (Bool-cases (j == id)) [
      | inl same ↦ ground (
        arith,
        lookup-insert db.runs j id (updated_run env.now b read),
        well_timed-updated_run now env.now b read le (timed j read found),
      )
      | inr other ↦
          well_timed-later now env.now row le
            (timed id row (ground (arith, lookup-insert db.runs j id (updated_run env.now b read))))
    ]
  ]

  -- If every row is well timed at `now`, so that an end has a start that is no later and neither lies
  -- in the future, then every row is well timed after a callback whose clock reads no less.
  pub callback-IsTimed :
      (env : CallbackEnv) (r : CallbackRequest V) (now : ℕ) (db : RunDb V)
      → now ≤ env.now
      → IsTimed now db
      → IsTimed env.now (callback env r db).1
  callback-IsTimed env r now db le timed = elim (callback_cases env r db) [
    | inl same ↦ rw same (λ id row at. well_timed-later now env.now row le (timed id row at))
    | inr (b, row, found, e) ↦ rw e (persist-IsTimed env r.run_id b row now db le found timed)
  ]
