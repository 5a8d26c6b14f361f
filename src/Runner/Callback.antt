-- ===== src/Runner/Callback.antt =====
-- apps/web/app/api/runs/[id]/callback/route.ts: a runner reports on a run. A request body is the
-- object that its JSON text stands for, if it is one; what is in a metric is of any type `V`. The
-- expected secret and the database calls that fail are part of the environment; a secret is the list
-- of its character codes.
pub mod Replies
pub mod Timing
pub mod Metrics
use Prim.Native.Nat.{bit_or, bit_xor}
use research_crafters.Prelude.{
  Bool, List, Option, String, [], contains, false, get_or, if◌then◌else◌, is_some, length, nat_eq,
  none, not, some, string_eq, ℕ, ◌&&◌, ◌==◌, ◌||◌, ◌∷◌,
}
use research_crafters.Prelude.Dict.{Dict, insert, lookup}

abbrev pub terminal_statuses : List String
terminal_statuses = "ok" ∷ "timeout" ∷ "oom" ∷ "crash" ∷ "exit_nonzero" ∷ []

abbrev pub valid_statuses : List String
valid_statuses = "queued" ∷ "running" ∷ terminal_statuses

-- A field of the body: a text, an object, or anything else, an absent field included.
pub data Field (V : Type 0) : Type 0 where
  text_field : String → Field V
  object_field : Dict V → Field V
  other_field : Field V

module _ (V : Type 0) where
  pub record RawBody : Type 0 where
    pub raw_status : Field V
    pub raw_execution_status : Field V
    pub raw_metrics : Field V
    pub raw_logs_url : Field V
    pub raw_grade_id : Field V

  pub record CallbackBody : Type 0 where
    pub status : String
    pub execution_status : Option String
    pub metrics : Option (Dict V)
    pub logs_url : Option String
    pub grade_id : Option String

  -- The columns of `Run` that the callback reads or writes; `metrics_json` is none where it is not an
  -- object.
  pub record RunRow : Type 0 where
    pub run_status : String
    pub started_at : Option ℕ
    pub finished_at : Option ℕ
    pub log_object_key : Option String
    pub metrics_json : Option (Dict V)
    pub stage_attempt_id : String

  -- How a request arrives: `none` is a text that is not JSON, `some none` JSON that is no object.
  pub record CallbackRequest : Type 0 where
    pub run_id : String
    pub secret : Option (List ℕ)
    pub payload : Option (Option RawBody)

pub record AttemptRow : Type 0 where
  pub enrollment_id : String
  pub stage_ref : String
  pub branch_id : Option String
  pub attempt_status : Option String
  pub attempt_grade_id : Option String

pub record RunDb (V : Type 0) : Type 0 where
  pub runs : Dict (RunRow V)
  pub attempts : Dict AttemptRow

-- The secret, the clock, the calls that fail, and the latest traversal of a branch by an enrollment.
pub record CallbackEnv : Type 0 where
  pub expected_secret : List ℕ
  pub now : ℕ
  pub read_fails : Bool
  pub write_fails : Bool
  pub mirror_fails : Bool
  pub decision_node_of : String → String → Option String

pub data CallbackReply : Type 0 where
  unauthorized invalid_json invalid_body not_found persist_failed accepted : CallbackReply

-- What is tracked: a completed job, and an unlocked branch.
pub data CallbackEvent : Type 0 where
  job_completed : String → String → Option String → Option String → CallbackEvent
  branch_unlocked : String → String → String → String → CallbackEvent

-- The loop of `authorize` over the character codes of two texts; a code that is missing counts as 0,
-- as `NaN` does under `^`.
unfoldable pub mismatch : ℕ → List ℕ → List ℕ → ℕ
mismatch acc [] want = acc
mismatch acc (a ∷ got) [] = mismatch (bit_or acc (bit_xor a 0)) got []
mismatch acc (a ∷ got) (b ∷ want) = mismatch (bit_or acc (bit_xor a b)) got want

-- `authorize`
unfoldable pub authorize : CallbackEnv → Option (List ℕ) → Bool
authorize env none = false
authorize env (some got) =
    not (length got == 0)
    && (length got == length env.expected_secret && mismatch 0 got env.expected_secret == 0)

abbrev unlocked : CallbackEnv → AttemptRow → String → List CallbackEvent
unlocked env a branch =
    if branch == "" then [] else elim (env.decision_node_of a.enrollment_id branch) [
      | none ↦ []
      | some node ↦
          if node == "" then [] else branch_unlocked a.enrollment_id a.stage_ref node branch ∷ []
    ]

module _ {V : Type 0} where
  abbrev pub text_of : Field V → Option String
  text_of (text_field t) = some t
  text_of _ = none

  abbrev pub object_of : Field V → Option (Dict V)
  object_of (object_field d) = some d
  object_of _ = none

  -- A text that is not empty.
  abbrev pub some_text : Field V → Option String
  some_text (text_field t) = if t == "" then none else some t
  some_text _ = none

  abbrev pub body_of : RawBody V → String → Option String → CallbackBody V
  body_of r status execution_status = record {
    status = status;
    execution_status = execution_status;
    metrics = object_of r.raw_metrics;
    logs_url = some_text r.raw_logs_url;
    grade_id = some_text r.raw_grade_id;
  }

  -- `parseBody`
  unfoldable pub parse_body : Option (RawBody V) → Option (CallbackBody V)
  parse_body none = none
  parse_body (some r) = elim (text_of r.raw_status) [
    | none ↦ none
    | some status ↦
        if not (contains valid_statuses status)
        then none
        else elim (text_of r.raw_execution_status) [
          | none ↦ some (body_of r status none)
          | some e ↦ if contains valid_statuses e then some (body_of r status (some e)) else none
        ]
  ]

  -- `{ ...base, ...metrics }`
  unfoldable pub merge : Dict V → Dict V → Dict V
  merge base [] = base
  merge base ((k, v) ∷ metrics) = merge (insert base k v) metrics

  abbrev pub merged_metrics : Option (Dict V) → Option (Dict V) → Option (Dict V)
  merged_metrics existing none = existing
  merged_metrics existing (some metrics) = some (merge (get_or existing []) metrics)

  -- The update of the run's row.
  unfoldable pub updated_run : ℕ → CallbackBody V → RunRow V → RunRow V
  updated_run now b row = record row {
    run_status = b.status;
    started_at = if is_some row.started_at then row.started_at else some now;
    finished_at = if contains terminal_statuses b.status then some now else row.finished_at;
    log_object_key = if is_some b.logs_url then b.logs_url else row.log_object_key;
    metrics_json = merged_metrics row.metrics_json b.metrics;
  }

  -- The mirror on the stage attempt, whose failure is swallowed.
  unfoldable pub mirror : CallbackEnv → CallbackBody V → String → Dict AttemptRow → Dict AttemptRow
  mirror env b attempt_id attempts =
      if not (is_some b.execution_status || is_some b.grade_id) || env.mirror_fails
      then attempts
      else elim (lookup attempts attempt_id) [
        | none ↦ attempts
        | some row ↦ insert attempts attempt_id (record row {
          attempt_status =
              if is_some b.execution_status then b.execution_status else row.attempt_status;
          attempt_grade_id = if is_some b.grade_id then b.grade_id else row.attempt_grade_id;
        })
      ]

  -- `branch_feedback_unlocked`, from the attempt as it was read.
  unfoldable pub unlock_events :
      CallbackEnv → CallbackBody V → Option AttemptRow → List CallbackEvent
  unlock_events env b none = []
  unlock_events env b (some a) =
      if b.status == "ok" && is_some b.grade_id
      then elim a.branch_id [ none ↦ [] | some branch ↦ unlocked env a branch ]
      else []

  -- The handler behind its read.
  unfoldable pub persist :
      CallbackEnv
      → String
      → CallbackBody V
      → RunRow V
      → RunDb V
      → CallbackReply × RunDb V × List CallbackEvent
  persist env id b row db = if env.write_fails then (persist_failed, db, []) else (
    accepted,
    record {
      runs = insert db.runs id (updated_run env.now b row);
      attempts = mirror env b row.stage_attempt_id db.attempts;
    },
    job_completed id b.status b.execution_status b.grade_id
        ∷ unlock_events env b (lookup db.attempts row.stage_attempt_id),
  )

  abbrev pub find_run : CallbackEnv → String → RunDb V → Option (RunRow V)
  find_run env id db = if env.read_fails then none else lookup db.runs id

  unfoldable pub handle_body :
      CallbackEnv → String → CallbackBody V → RunDb V → CallbackReply × RunDb V × List CallbackEvent
  handle_body env id b db = elim (find_run env id db) [
    | none ↦ (not_found, db, [])
    | some row ↦ persist env id b row db
  ]

  -- `POST /api/runs/[id]/callback`
  unfoldable pub callback :
      CallbackEnv → CallbackRequest V → RunDb V → CallbackReply × RunDb V × List CallbackEvent
  callback env r db =
      if not (authorize env r.secret) then (unauthorized, db, []) else elim r.payload [
        | none ↦ (invalid_json, db, [])
        | some raw ↦ elim (parse_body raw) [
          | none ↦ (invalid_body, db, [])
          | some b ↦ handle_body env r.run_id b db
        ]
      ]
