-- ===== src/Mentor/Runtime.antt =====
-- apps/web/lib/mentor-runtime.ts: `runMentorRequest`. The loaders are the constant ones that it
-- passes. Clocks, fresh row ids, the price table, the refusal copy, the regular expressions and the
-- gateway are arguments. Latency events and the failures of the database are left out; of a
-- message that is stored its thread, role, text and two flags are kept, not the columns with the tier,
-- the model, the provider and the tokens.
pub mod Gates
pub mod Attacks
pub mod Output
mod Tests
use research_crafters.Prelude.{
  Bool, List, Option, String, [], false, get_or, if◌then◌else◌, length, nat_eq, none, some,
  string_eq, suc, true, ℕ, ◌&&◌, ◌++◌, ◌==◌, ◌∷◌,
}
use research_crafters.Prelude.Dict.{Dict}
use research_crafters.Prelude.Number.{int, pos}
use research_crafters.Mentor.Context.{
  BuildInput, MentorContext, Scope, StagePolicy, VisibilityState, build_mentor_context,
  detect_visibility_misconfig, fresh_context,
}
use research_crafters.Mentor.ContextCache.{CacheOptions, Entry}
use research_crafters.Mentor.Budget.{
  ModelPrice, ModelTier, estimate_request_cost_usd, feedback, hint,
}
use research_crafters.Mentor.Redaction.{
  Gateway, GatewayRequest, GatewayResponse, Leak, Matcher, default_attacks, is_nil, learner_prompt,
  redact, run_leak_tests,
}
use research_crafters.Mentor.RateLimiter.{
  allowed, Limiter, LimiterConfig, RateLimitDecision, RateLimitScope, check, refused,
}
use research_crafters.Mentor.Spend.{SpendState, record_spend}

pub data MentorMode : Type 0 where
  hint_mode clarify review_draft explain_branch : MentorMode

-- `userId`, and whether the limiter and the spend store are given along with it.
pub record Caller : Type 0 where
  pub user : Option String
  pub has_limiter : Bool
  pub has_spend_store : Bool
  pub has_cache : Bool

pub record RuntimeInput : Type 0 where
  pub mode : MentorMode
  pub message : String
  pub stage_of : String
  pub policy : StagePolicy
  pub stage_artifact_refs : List String
  pub enrollment : String
  pub version : String
  pub visibility : VisibilityState
  pub caller : Caller

-- What the runtime is wired to.
pub record Wiring : Type 0 where
  pub limiter_config : LimiterConfig
  pub cache_options : CacheOptions
  pub sort : List String → List String
  pub fnv1a_digest : StagePolicy → String
  pub matcher : Matcher
  pub gateway : Gateway
  pub price_table : Dict ModelPrice
  pub refusal_text : String
  pub now : ℕ

pub record ThreadRow : Type 0 where
  pub thread_enrollment : String
  pub thread_stage : String

pub data Role : Type 0 where
  user_role assistant_role : Role

pub record MessageRow : Type 0 where
  pub thread : ℕ
  pub role : Role
  pub body_text : String
  pub was_redacted : Bool
  pub was_flagged : Bool

-- The state that requests share; a row's id is its position in its table.
pub record MentorState : Type 0 where
  pub limiter : Limiter
  pub cache : Dict (Entry MentorContext)
  pub threads : List ThreadRow
  pub messages : List MessageRow
  pub spend : SpendState

pub record Answer : Type 0 where
  pub thread_id : ℕ
  pub message_id : ℕ
  pub assistant_text : String
  pub redaction_triggered : Bool
  pub flagged : Bool
  pub tier : ModelTier
  pub spent_usd : ℕ

pub data RuntimeOutcome : Type 0 where
  policy_misconfig : Scope → RuntimeOutcome
  rate_limited : RateLimitScope → ℕ → RuntimeOutcome
  gateway_error : RuntimeOutcome
  answered : Answer → RuntimeOutcome

-- `modelTierFor`
abbrev pub model_tier_for : MentorMode → ModelTier
model_tier_for hint_mode = hint
model_tier_for explain_branch = hint
model_tier_for _ = feedback

-- `modelIdFor`
abbrev pub model_id_for : ModelTier → String
model_id_for hint = "claude-3-5-haiku-latest"
model_id_for feedback = "claude-3-5-sonnet-latest"

-- The argument of `buildMentorContext`, with the empty loaders.
abbrev pub build_input : RuntimeInput → BuildInput
build_input i = record {
  stage_id = i.stage_of;
  attempt = 1;
  package_version_id = i.version;
  stage_policy = i.policy;
  visibility_state = i.visibility;
  loaders = record {
    artifact_refs_of = i.stage_artifact_refs;
    load_artifact = λ ref. (ref, "");
    load_rubric_criteria = [];
    load_branch_feedback = [];
  };
  policy_digest = none;
}

abbrev pub targets_of : RuntimeInput → List String
targets_of i = get_or i.policy.mentor_redaction_targets []

-- `findFirst` by enrollment and stage, from position `n` on.
unfoldable pub find_thread : String → String → ℕ → List ThreadRow → Option ℕ
find_thread enrollment stage n [] = none
find_thread enrollment stage n (t ∷ threads) =
    let rest = find_thread enrollment stage (suc n) threads in
    if t.thread_enrollment == enrollment && t.thread_stage == stage then some n else rest

-- The thread, found or created.
unfoldable pub thread_for : String → String → List ThreadRow → ℕ × List ThreadRow
thread_for enrollment stage threads = elim (find_thread enrollment stage 0 threads) [
  | some n ↦ (n, threads)
  | none ↦ (
    length threads,
    threads ++ record { thread_enrollment = enrollment; thread_stage = stage } ∷ [],
  )
]

-- What the learner is shown: the text, whether it was redacted, and whether it was flagged.
pub record Shown : Type 0 where
  pub shown_text : String
  pub shown_redacted : Bool
  pub shown_flagged : Bool

module _ (w : Wiring) where
  -- The rate limit, for a caller with a user id and a limiter.
  unfoldable pub rate_limit : RuntimeInput → Limiter → RateLimitDecision × Limiter
  rate_limit i l = elim i.caller.user [
    | none ↦ (allowed, l)
    | some user ↦
        if i.caller.has_limiter
        then check w.limiter_config w.now (record { user_id = user; package_id = i.version }) l
        else (allowed, l)
  ]

  abbrev pub cached_context :
      RuntimeInput → Dict (Entry MentorContext) → MentorContext × Dict (Entry MentorContext)
  cached_context i cache =
      let build = build_mentor_context w.sort w.fnv1a_digest w.cache_options in
      let (context, _, cache') = build w.now w.now (build_input i) cache in (context, cache')

  -- The context, through the cache where there is one.
  unfoldable pub context_for :
      RuntimeInput → Dict (Entry MentorContext) → MentorContext × Dict (Entry MentorContext)
  context_for i cache =
      if i.caller.has_cache
      then cached_context i cache
      else ((fresh_context (build_input i)).0, cache)

  abbrev pub redacted : RuntimeInput → String → Shown
  redacted i text =
      let r = redact w.matcher text (targets_of i) in
      record { shown_text = r.text; shown_redacted = r.triggered; shown_flagged = false }

  -- The refusal copy if an attack leaked, else the redacted answer.
  unfoldable pub shown_for : RuntimeInput → String → List Leak → Shown
  shown_for i text leaks =
      if is_nil leaks
      then redacted i text
      else record { shown_text = w.refusal_text; shown_redacted = true; shown_flagged = true }

  abbrev pub cost_of : RuntimeInput → GatewayResponse → ℕ
  cost_of i response =
      estimate_request_cost_usd (model_id_for (model_tier_for i.mode)) response.prompt_tokens
        response.completion_tokens w.price_table

  -- The spend, for a caller with a user id and a spend store: the amount and the store.
  unfoldable pub record_request_spend : RuntimeInput → GatewayResponse → SpendState → ℕ × SpendState
  record_request_spend i response s = elim i.caller.user [
    | none ↦ (0, s)
    | some user ↦
        if i.caller.has_spend_store
        then (
          cost_of i response,
          record_spend w.now
              (record {
                user_id = user;
                package_id = i.version;
                stage_id = i.stage_of;
                usd = int (pos (cost_of i response));
              })
              s,
        )
        else (0, s)
  ]

  -- The last part: the rows of the thread and of both messages, and the spend.
  unfoldable pub persist_answer :
      RuntimeInput → GatewayResponse → Shown → MentorState → RuntimeOutcome × MentorState
  persist_answer i response shown s =
      let (thread, threads) = thread_for i.enrollment i.stage_of s.threads in
      let asked : MessageRow = record {
        thread = thread;
        role = user_role;
        body_text = i.message;
        was_redacted = false;
        was_flagged = false;
      } in
      let replied : MessageRow = record {
        thread = thread;
        role = assistant_role;
        body_text = shown.shown_text;
        was_redacted = shown.shown_redacted;
        was_flagged = shown.shown_flagged;
      } in
      let (spent, spend) = record_request_spend i response s.spend in
      (
        answered (record {
          thread_id = thread;
          message_id = suc (length s.messages);
          assistant_text = shown.shown_text;
          redaction_triggered = shown.shown_redacted;
          flagged = shown.shown_flagged;
          tier = model_tier_for i.mode;
          spent_usd = spent;
        }),
        record s {
          threads = threads;
          messages = s.messages ++ asked ∷ replied ∷ [];
          spend = spend;
        },
      )

  abbrev pub learner_request : RuntimeInput → MentorContext → GatewayRequest
  learner_request i context = record {
    model_tier = model_tier_for i.mode;
    model_id = model_id_for (model_tier_for i.mode);
    system_prompt = context;
    user_prompt = learner_prompt i.message;
    max_output_tokens = 1024;
  }

  -- The leaks of the default attacks, which follow the learner's request.
  abbrev pub leaks_of : RuntimeInput → MentorContext → Option (List Leak)
  leaks_of i context =
      run_leak_tests w.matcher w.gateway (model_tier_for i.mode)
        (model_id_for (model_tier_for i.mode)) context (targets_of i) 1 default_attacks

  -- The calls of the gateway, and what follows them.
  unfoldable pub converse :
      RuntimeInput → MentorContext → MentorState → RuntimeOutcome × MentorState
  converse i context s = elim (w.gateway 0 (learner_request i context)) [
    | none ↦ (gateway_error, s)
    | some response ↦ elim (leaks_of i context) [
      | none ↦ (gateway_error, s)
      | some leaks ↦ persist_answer i response (shown_for i response.answer leaks) s
    ]
  ]

  -- `runMentorRequest`
  unfoldable pub run_mentor_request : RuntimeInput → MentorState → RuntimeOutcome × MentorState
  run_mentor_request i s = elim (detect_visibility_misconfig i.policy) [
    | some scope ↦ (policy_misconfig scope, s)
    | none ↦
        let (decision, limiter) = rate_limit i s.limiter in
        elim decision [
          | refused scope seconds ↦ (rate_limited scope seconds, record s { limiter = limiter })
          | allowed ↦
              let (context, cache) = context_for i s.cache in
              converse i context (record s { limiter = limiter; cache = cache })
        ]
  ]
