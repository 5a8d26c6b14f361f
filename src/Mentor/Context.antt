-- ===== src/Mentor/Context.antt =====
-- packages/ai/src/context-builder.ts, and `detectVisibilityMisconfig` of
-- apps/web/lib/mentor-runtime.ts. The loaders, the digest of a policy and the sorting of the
-- artifact refs in a cache key are arguments. `Object.keys` lists the scopes in the order of the
-- schema. The calls of the loaders are kept as a list, to say which content was read.
pub mod Visibility
pub mod Building
mod Tests
use research_crafters.Prelude.{
  Bool, List, Option, String, [], false, filter, get_or, if◌then◌else◌, map, nat_eq, none, some,
  string_eq, true, ℕ, ◌&&◌, ◌++ₛ◌, ◌++◌, ◌==◌, ◌∷◌,
}
use research_crafters.Prelude.Dict.{Dict}
use research_crafters.Mentor.ContextCache.{CacheOptions, Entry, get, set}

pub data MentorVisibilityState : Type 0 where
  always after_attempt after_pass after_completion never : MentorVisibilityState

pub data Scope : Type 0 where
  stage_copy artifact_refs rubric evidence branch_feedback : Scope
  canonical_solution branch_solutions : Scope

pub record MentorVisibility : Type 0 where
  pub of_stage_copy : MentorVisibilityState
  pub of_artifact_refs : MentorVisibilityState
  pub of_rubric : MentorVisibilityState
  pub of_evidence : MentorVisibilityState
  pub of_branch_feedback : MentorVisibilityState
  pub of_canonical_solution : MentorVisibilityState
  pub of_branch_solutions : MentorVisibilityState

-- `v[scope]`
abbrev pub state_of : MentorVisibility → Scope → MentorVisibilityState
state_of v stage_copy = v.of_stage_copy
state_of v artifact_refs = v.of_artifact_refs
state_of v rubric = v.of_rubric
state_of v evidence = v.of_evidence
state_of v branch_feedback = v.of_branch_feedback
state_of v canonical_solution = v.of_canonical_solution
state_of v branch_solutions = v.of_branch_solutions

abbrev pub all_scopes : List Scope
all_scopes =
    stage_copy ∷ artifact_refs ∷ rubric ∷ evidence ∷ branch_feedback ∷ canonical_solution
    ∷ branch_solutions ∷ []

pub record StagePolicy : Type 0 where
  pub mentor_visibility : MentorVisibility
  pub mentor_redaction_targets : Option (List String)

pub record VisibilityState : Type 0 where
  pub has_attempt : Bool
  pub has_passed : Bool
  pub has_completed_package : Bool

-- `FORBIDDEN_ALWAYS_SCOPES.includes(scope)`
abbrev pub is_forbidden_always : Scope → Bool
is_forbidden_always canonical_solution = true
is_forbidden_always branch_solutions = true
is_forbidden_always _ = false

abbrev pub is_always : MentorVisibilityState → Bool
is_always always = true
is_always _ = false

-- `isVisible`
unfoldable pub is_visible : MentorVisibilityState → VisibilityState → Bool
is_visible always world = true
is_visible after_attempt world = world.has_attempt
is_visible after_pass world = world.has_passed
is_visible after_completion world = world.has_completed_package
is_visible never world = false

-- `allowed` of `buildMentorContext`
unfoldable pub allowed : MentorVisibility → VisibilityState → Scope → Bool
allowed v world scope =
    if is_forbidden_always scope && is_always (state_of v scope)
    then false
    else is_visible (state_of v scope) world

-- The scopes that the hard guard warns of.
unfoldable pub warned_scopes : MentorVisibility → List Scope
warned_scopes v =
    filter (λ scope. is_always (state_of v scope)) (canonical_solution ∷ branch_solutions ∷ [])

-- `detectVisibilityMisconfig`, with the scope that its message names.
unfoldable pub detect_visibility_misconfig : StagePolicy → Option Scope
detect_visibility_misconfig policy =
    if is_always policy.mentor_visibility.of_canonical_solution
    then some canonical_solution
    else if is_always policy.mentor_visibility.of_branch_solutions
    then some branch_solutions
    else none

pub record Loaders : Type 0 where
  pub artifact_refs_of : List String
  pub load_artifact : String → String × String
  pub load_rubric_criteria : List String
  pub load_branch_feedback : List (String × String)

pub data LoaderCall : Type 0 where
  artifact : String → LoaderCall
  rubric_criteria branch_texts : LoaderCall

pub record MentorContext : Type 0 where
  pub stage_id : String
  pub attempt : ℕ
  pub package_version_id : String
  pub allowed_scopes : List Scope
  pub artifact_excerpts : List (String × String)
  pub rubric_criteria : Option (List String)
  pub branch_feedback_texts : Option (List (String × String))
  pub redaction_targets : List String
  pub policy_snapshot : StagePolicy

pub record BuildInput : Type 0 where
  pub stage_id : String
  pub attempt : ℕ
  pub package_version_id : String
  pub stage_policy : StagePolicy
  pub visibility_state : VisibilityState
  pub loaders : Loaders
  pub policy_digest : Option String

abbrev pub may : BuildInput → Scope → Bool
may i = allowed i.stage_policy.mentor_visibility i.visibility_state

-- The part of `buildMentorContext` below the cache: the context and the loader calls made for it.
unfoldable pub fresh_context : BuildInput → MentorContext × List LoaderCall
fresh_context i = (
  record {
    stage_id = i.stage_id;
    attempt = i.attempt;
    package_version_id = i.package_version_id;
    allowed_scopes = filter (may i) all_scopes;
    artifact_excerpts =
        if may i artifact_refs then map i.loaders.load_artifact i.loaders.artifact_refs_of else [];
    rubric_criteria = if may i rubric then some i.loaders.load_rubric_criteria else none;
    branch_feedback_texts =
        if may i branch_feedback then some i.loaders.load_branch_feedback else none;
    redaction_targets = get_or i.stage_policy.mentor_redaction_targets [];
    policy_snapshot = i.stage_policy;
  },
  (if may i artifact_refs then map artifact i.loaders.artifact_refs_of else [])
      ++ ((if may i rubric then rubric_criteria ∷ [] else [])
          ++ (if may i branch_feedback then branch_texts ∷ [] else [])),
)

abbrev pub bit : Bool → String
bit true = "1"
bit false = "0"

-- `join(sep)`
abbrev pub join : String → List String → String
join sep [] = ""
join sep (s ∷ []) = s
join sep (s ∷ t ∷ rest) = s ++ₛ sep ++ₛ join sep (t ∷ rest)

module _ (sort : List String → List String) (fnv1a_digest : StagePolicy → String)
    (o : CacheOptions) where
  -- `mentorContextCacheKey`, on the arguments that the builder gives it.
  unfoldable pub mentor_context_cache_key : BuildInput → String
  mentor_context_cache_key i = join "::" (
      i.package_version_id
      ∷ i.stage_id
      ∷ (bit i.visibility_state.has_attempt
          ++ₛ bit i.visibility_state.has_passed
          ++ₛ bit i.visibility_state.has_completed_package)
      ∷ get_or i.policy_digest (fnv1a_digest i.stage_policy)
      ∷ join "|" (sort i.loaders.artifact_refs_of)
      ∷ [])

  -- `buildMentorContext` with a cache: the lookup, made at `now`, and the write, made at `later`.
  unfoldable pub build_mentor_context :
      ℕ
      → ℕ
      → BuildInput
      → Dict (Entry MentorContext)
      → MentorContext × List LoaderCall × Dict (Entry MentorContext)
  build_mentor_context now later i cache =
      let key = mentor_context_cache_key i in
      let (hit, cache') = get now key cache in
      elim hit [
        | some context ↦ (
          if context.attempt == i.attempt then context else record context { attempt = i.attempt },
          [],
          cache',
        )
        | none ↦
            let (context, calls) = fresh_context i in
            (context, calls, set o later key context cache')
      ]
