-- ===== src/Runner/Tests.antt =====
-- Examples of the callback, the limits and the retry budget.
use research_crafters.Prelude.{
  List, Option, String, [], arith, eq_iff, false, filter, length, none, refl, some, ℕ, ◌↔◌, ◌∷◌,
  ◌≡◌, ◌≢◌,
}
use research_crafters.Prelude.Dict.{lookup}
use research_crafters.Prelude.Number.{int, pos}
use research_crafters.Runner.Callback.{
  CallbackBody, CallbackEnv, CallbackRequest, RawBody, RunDb, RunRow, accepted, authorize, callback,
  handle_body, mismatch, object_field, other_field, parse_body, persist, text_field, unauthorized,
}
use research_crafters.Runner.Callback.Replies.{callback-authorized}
use research_crafters.Runner.Callback.Timing.{IsTimed, callbacks, callbacks-started, started}
use research_crafters.Runner.Callback.Metrics.{callback-metric, last_value, metric, or_else}
use research_crafters.Runner.Limits.{
  Fits, ResolvedLimits, Resources, RunnerStage, is_positive_finite, mode_caps, no_network,
  resolve_stage_limits, resolve_stage_limits-Fits, resolved, test,
}
use research_crafters.Runner.RetryBudget.{
  failed, summarize_attempts, summarize_attempts-budget, total, used_runner, went_well,
}

abbrev runner_env : CallbackEnv
runner_env = record {
  expected_secret = 100 ∷ 101 ∷ 118 ∷ [];
  now = 20;
  read_fails = false;
  write_fails = false;
  mirror_fails = false;
  decision_node_of = λ enrollment branch. some "d1";
}

abbrev raw_body : RawBody ℕ
raw_body = record {
  raw_status = text_field "ok";
  raw_execution_status = text_field "ok";
  raw_metrics = object_field (("loss", 3) ∷ []);
  raw_logs_url = other_field;
  raw_grade_id = text_field "g1";
}

abbrev parsed_body : CallbackBody ℕ
parsed_body = record {
  status = "ok";
  execution_status = some "ok";
  metrics = some (("loss", 3) ∷ []);
  logs_url = none;
  grade_id = some "g1";
}

abbrev request_with : Option (List ℕ) → CallbackRequest ℕ
request_with secret = record { run_id = "r1"; secret = secret; payload = some (some raw_body) }

abbrev good_request : CallbackRequest ℕ
good_request = request_with (some (100 ∷ 101 ∷ 118 ∷ []))

abbrev run_row : RunRow ℕ
run_row = record {
  run_status = "running";
  started_at = some 10;
  finished_at = none;
  log_object_key = none;
  metrics_json = some (("loss", 5) ∷ ("steps", 7) ∷ []);
  stage_attempt_id = "a1";
}

abbrev run_db : RunDb ℕ
run_db = record {
  runs = ("r1", run_row) ∷ [];
  attempts =
      (
        "a1",
        record {
          enrollment_id = "e1";
          stage_ref = "s1";
          branch_id = some "b1";
          attempt_status = none;
          attempt_grade_id = none;
        },
      )
      ∷ [];
}

callback-reply : (callback runner_env good_request run_db).0 ≡ accepted
unfolding callback authorize mismatch parse_body handle_body persist lookup
callback-reply = refl

callback-closed : (callback runner_env (request_with none) run_db).0 ≢ accepted
unfolding callback authorize
callback-closed h = ground arith

parse_body-body : parse_body (some raw_body) ≡ some parsed_body
unfolding parse_body
parse_body-body = refl

callback-authorized_example :
    ((callback runner_env good_request run_db).0 ≢ unauthorized)
    ↔ ((good_request.secret ≡ some runner_env.expected_secret) × (runner_env.expected_secret ≢ []))
callback-authorized_example = callback-authorized runner_env good_request run_db

run_db-started : started run_db "r1" ≡ some 10
unfolding lookup
run_db-started = refl

callbacks-started_example :
    started (callbacks ((runner_env, good_request) ∷ (runner_env, good_request) ∷ []) run_db) "r1"
    ≡ some 10
callbacks-started_example =
    callbacks-started ((runner_env, good_request) ∷ (runner_env, good_request) ∷ []) run_db "r1" 10
      run_db-started

run_db-IsTimed : IsTimed 15 run_db
unfolding lookup
run_db-IsTimed id row h = ground (arith, eq_iff "r1" id)

callback-metric_example :
    metric (callback runner_env good_request run_db).1 "r1" "loss"
    ≡ or_else (last_value (("loss", 3) ∷ []) "loss") (metric run_db "r1" "loss")
callback-metric_example =
    callback-metric runner_env good_request (some raw_body) parsed_body run_db "loss" refl
      parse_body-body callback-reply

abbrev stage_of_runner : RunnerStage
stage_of_runner = record {
  stage_cpu = some (int (pos 9));
  stage_memory_mb = none;
  stage_wall_clock_seconds = none;
}

abbrev file_resources : Resources
file_resources = record {
  cpu = int (pos 1);
  memory_mb = int (pos 512);
  wall_clock_seconds = int (pos 600);
}

abbrev test_limits : ResolvedLimits
test_limits = record {
  limits = record {
    cpu = int (pos 2);
    memory_mb = int (pos 512);
    wall_clock_seconds = int (pos 60);
  };
  max_upload_bytes = 26214400;
  network = no_network;
}

resolve_stage_limits-test :
    resolve_stage_limits 1 test stage_of_runner file_resources no_network ≡ resolved test_limits
unfolding resolve_stage_limits is_positive_finite mode_caps
resolve_stage_limits-test = refl

resolve_stage_limits-Fits_example :
    Fits test_limits.limits.cpu (mode_caps 1 test).cap_cpu (int (pos 9))
    × Fits test_limits.limits.memory_mb (mode_caps 1 test).cap_memory_mb (int (pos 512))
    × Fits test_limits.limits.wall_clock_seconds
        (mode_caps 1 test).cap_wall_clock_seconds
        (int (pos 600))
    × (test_limits.network ≡ no_network)
resolve_stage_limits-Fits_example =
    resolve_stage_limits-Fits 1 test stage_of_runner file_resources no_network test_limits
      (omega arith) resolve_stage_limits-test

abbrev statuses : List (Option String)
statuses = some "ok" ∷ some "oom" ∷ some "queued" ∷ none ∷ some "not_required" ∷ []

summarize_attempts-budget_example :
    let s = summarize_attempts statuses in
    (s.graded_attempts ≡ length (filter went_well statuses))
    × (s.retry_attempts ≡ length (filter failed statuses))
    × (s.retry_budget_used ≡ length (filter used_runner statuses))
    × (total s ≡ length statuses)
summarize_attempts-budget_example = summarize_attempts-budget statuses
