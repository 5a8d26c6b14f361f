-- ===== src/Mentor/Context/Tests.antt =====
-- Examples of the context builder and its cache.
use research_crafters.Prelude.{
  List, [], arith, false, none, refl, some, true, ℕ, ◌+◌, ◌<◌, ◌∷◌, ◌≡◌,
}
use research_crafters.Prelude.Dict.{Dict, erase, insert, lookup}
use research_crafters.Mentor.ContextCache.{CacheOptions, Entry, get, set}
use research_crafters.Mentor.ContextCache.Laws.{CacheOp, last_write, serve, serve-get_sound, write}
use research_crafters.Mentor.Context.{
  BuildInput, MentorContext, MentorVisibility, StagePolicy, VisibilityState, after_attempt,
  after_pass, allowed, always, build_mentor_context, canonical_solution, fresh_context, is_visible,
  mentor_context_cache_key, never,
}
use research_crafters.Mentor.Context.Building.{build_mentor_context_again, with_attempt}

abbrev options : CacheOptions
options = record { ttl_ms = 100; max_entries = 2 }

abbrev two_entries : Dict (Entry ℕ)
two_entries =
    ("a", record { value = 1; expires_at = 10 }) ∷ ("b", record { value = 2; expires_at = 20 }) ∷ []

abbrev one_write : List (CacheOp ℕ)
one_write = write 5 "c" 3 ∷ []

get-last : (get 50 "c" (serve options (one_write) [])).0 ≡ some 3
unfolding get set lookup insert erase
get-last = refl

serve-get_sound_example :
    (at : ℕ) × (last_write options "c" none (one_write) ≡ some (3, at)) × (50 < at + 100)
serve-get_sound_example = serve-get_sound options (one_write) "c" 50 3 get-last

abbrev visibility : MentorVisibility
visibility = record {
  of_stage_copy = always;
  of_artifact_refs = always;
  of_rubric = after_attempt;
  of_evidence = never;
  of_branch_feedback = after_pass;
  of_canonical_solution = after_attempt;
  of_branch_solutions = never;
}

abbrev attempted : VisibilityState
attempted = record { has_attempt = true; has_passed = false; has_completed_package = false }

abbrev stage_policy : StagePolicy
stage_policy = record { mentor_visibility = visibility; mentor_redaction_targets = none }

-- A solution scope opens after an attempt.
allowed-solution : allowed visibility attempted canonical_solution ≡ true
unfolding allowed is_visible
allowed-solution = refl

abbrev stage_build : BuildInput
stage_build = record {
  stage_id = "s1";
  attempt = 1;
  package_version_id = "v1";
  stage_policy = stage_policy;
  visibility_state = attempted;
  loaders = record {
    artifact_refs_of = "x" ∷ "y" ∷ [];
    load_artifact = λ ref. (ref, "text");
    load_rubric_criteria = "r" ∷ [];
    load_branch_feedback = [];
  };
  policy_digest = some "p";
}

abbrev no_contexts : Dict (Entry MentorContext)
no_contexts = []

get-nothing :
    (get 5 (mentor_context_cache_key (λ l. l) (λ p. "") options stage_build) no_contexts).0 ≡ none
unfolding get lookup
get-nothing = refl

build_mentor_context_again_example :
    let build = build_mentor_context (λ l. l) (λ p. "") options in
    let (context, calls, _) =
      build 50 51 (with_attempt stage_build 2) (build 5 6 stage_build no_contexts).2 in
    (context ≡ (fresh_context (with_attempt stage_build 2)).0) × (calls ≡ [])
build_mentor_context_again_example =
    build_mentor_context_again (λ l. l) (λ p. "") options 5 6 50 51 stage_build 2 no_contexts
      get-nothing (omega arith)
