-- ===== src/Mentor/Runtime/Tests.antt =====
-- Examples of a mentor request: answered, flagged, and turned away. The matcher finds a text in an
-- answer that is that very text.
use research_crafters.Prelude.{
  String, [], false, if◌then◌else◌, nat_eq, refl, some, string_eq, true, ◌==◌, ◌∷◌, ◌≡◌,
}
use research_crafters.Prelude.Dict.{lookup}
use research_crafters.Mentor.Context.{
  MentorVisibility, MentorVisibilityState, after_attempt, after_pass, always,
  detect_visibility_misconfig, never,
}
use research_crafters.Mentor.Budget.{estimate_request_cost_usd, hint}
use research_crafters.Mentor.Redaction.{Gateway, Matcher, find_redaction_evidence, run_leak_tests}
use research_crafters.Mentor.RateLimiter.{check, empty_limiter, get_window, prune}
use research_crafters.Mentor.Spend.{empty_store}
use research_crafters.Mentor.Runtime.{
  Answer, MentorState, RuntimeInput, Wiring, answered, context_for, converse, find_thread,
  hint_mode, persist_answer, rate_limit, record_request_spend, run_mentor_request, shown_for,
  thread_for,
}
use research_crafters.Mentor.Runtime.Gates.{is_turned_away}
use research_crafters.Mentor.Runtime.Output.{
  Answers, Stored, run_mentor_request-Answers, run_mentor_request-Stored,
}

abbrev whole_text : Matcher
whole_text = record {
  find_all = λ target text. if target == text then text ∷ [] else [];
  replace_all = λ target text. if target == text then "[redacted]" else text;
}

abbrev saying : String → Gateway
saying text = λ n request.
    some (record { answer = text; provider = "mock"; prompt_tokens = 3; completion_tokens = 2 })

abbrev wiring : Gateway → Wiring
wiring g = record {
  limiter_config = record { per_user_limit = 2; per_user_package_limit = 1; window_ms = 60000 };
  cache_options = record { ttl_ms = 100; max_entries = 2 };
  sort = λ l. l;
  fnv1a_digest = λ p. "";
  matcher = whole_text;
  gateway = g;
  price_table =
      (
        "claude-3-5-haiku-latest",
        record { input_per_million_usd = 10; output_per_million_usd = 20 },
      )
      ∷ [];
  refusal_text = "Not that.";
  now = 1000;
}

abbrev with_solution : MentorVisibilityState → MentorVisibility
with_solution state = record {
  of_stage_copy = always;
  of_artifact_refs = always;
  of_rubric = after_attempt;
  of_evidence = never;
  of_branch_feedback = after_pass;
  of_canonical_solution = state;
  of_branch_solutions = never;
}

abbrev mentor_input : MentorVisibilityState → RuntimeInput
mentor_input state = record {
  mode = hint_mode;
  message = "Why?";
  stage_of = "s1";
  policy = record {
    mentor_visibility = with_solution state;
    mentor_redaction_targets = some ("42" ∷ []);
  };
  stage_artifact_refs = [];
  enrollment = "e1";
  version = "v1";
  visibility = record { has_attempt = false; has_passed = false; has_completed_package = false };
  caller = record {
    user = some "u1";
    has_limiter = true;
    has_spend_store = true;
    has_cache = false;
  };
}

abbrev start : MentorState
start = record {
  limiter = empty_limiter;
  cache = [];
  threads = [];
  messages = [];
  spend = empty_store;
}

abbrev refusal : Answer
refusal = record {
  thread_id = 0;
  message_id = 1;
  assistant_text = "Not that.";
  redaction_triggered = true;
  flagged = true;
  tier = hint;
  spent_usd = 70;
}

-- A gateway that gives the answer away is caught by the attacks.
leaking-flagged :
    (run_mentor_request (wiring (saying "42")) (mentor_input never) start).0 ≡ answered refusal
unfolding run_mentor_request detect_visibility_misconfig rate_limit context_for converse check prune
    get_window lookup run_leak_tests persist_answer thread_for shown_for record_request_spend
    find_thread find_redaction_evidence estimate_request_cost_usd
leaking-flagged = refl

turned_away :
    is_turned_away (run_mentor_request (wiring (saying "42")) (mentor_input always) start).0 ≡ true
unfolding run_mentor_request detect_visibility_misconfig
turned_away = refl

run_mentor_request-Answers_example : Answers (wiring (saying "42")) (mentor_input never) refusal
run_mentor_request-Answers_example =
    run_mentor_request-Answers (wiring (saying "42")) (mentor_input never) start refusal
      leaking-flagged

run_mentor_request-Stored_example :
    Stored
      (wiring (saying "42"))
      (mentor_input never)
      "u1"
      refusal
      start
      (run_mentor_request (wiring (saying "42")) (mentor_input never) start).1
run_mentor_request-Stored_example =
    run_mentor_request-Stored (wiring (saying "42")) (mentor_input never) start refusal "u1"
      leaking-flagged refl refl
