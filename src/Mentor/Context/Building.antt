-- ===== src/Mentor/Context/Building.antt =====
-- What the builder loads, and what its cache answers.
use research_crafters.Prelude.{
  All, All-append, Bool, List, String, [], arith, false, if◌then◌else◌, map, none, refl, true, ℕ,
  ◌+◌, ◌<◌, ◌∷◌, ◌≡◌,
}
use research_crafters.Prelude.Dict.{Dict}
use research_crafters.Mentor.ContextCache.{CacheOptions, Entry, get}
use research_crafters.Mentor.ContextCache.Laws.{get-set_self}
use research_crafters.Mentor.Context.{
  BuildInput, LoaderCall, MentorContext, Scope, StagePolicy, artifact, artifact_refs,
  branch_feedback, branch_texts, build_mentor_context, fresh_context, may, mentor_context_cache_key,
  rubric, rubric_criteria,
}

-- The scope that a loader call reads.
abbrev pub scope_of : LoaderCall → Scope
scope_of (artifact ref) = artifact_refs
scope_of rubric_criteria = rubric
scope_of branch_texts = branch_feedback

abbrev IsOpen : BuildInput → LoaderCall → Type 0
IsOpen i call = may i (scope_of call) ≡ true

artifacts-IsOpen :
    (i : BuildInput) (refs : List String)
    → may i artifact_refs ≡ true
    → All (IsOpen i) (map artifact refs)
artifacts-IsOpen i [] h = tt
artifacts-IsOpen i (r ∷ refs) h = (h, artifacts-IsOpen i refs h)

if-All :
    (P : LoaderCall → Type 0) (b : Bool) (xs : List LoaderCall)
    → (b ≡ true → All P xs)
    → All P (if b then xs else [])
if-All P true xs h = h refl
if-All P false xs h = tt

-- Every loader call that a fresh build makes reads a scope that the policy opens to the learner.
pub fresh_context-calls :
    (i : BuildInput) → All (λ call. may i (scope_of call) ≡ true) (fresh_context i).1
unfolding fresh_context
fresh_context-calls i =
    All-append (IsOpen i) _ _
      (if-All (IsOpen i) _ _ (artifacts-IsOpen i i.loaders.artifact_refs_of))
      (All-append (IsOpen i) _ _ (if-All (IsOpen i) (may i rubric) _ (λ h. (h, tt)))
        (if-All (IsOpen i) (may i branch_feedback) _ (λ h. (h, tt))))

abbrev pub with_attempt : BuildInput → ℕ → BuildInput
with_attempt i attempt = record i { attempt = attempt }

-- The key leaves the attempt out.
key-with_attempt :
    (sort : List String → List String) (fnv1a_digest : StagePolicy → String) (o : CacheOptions)
    (i : BuildInput) (attempt : ℕ)
    → mentor_context_cache_key sort fnv1a_digest o (with_attempt i attempt)
      ≡ mentor_context_cache_key sort fnv1a_digest o i
unfolding mentor_context_cache_key
key-with_attempt sort fnv1a_digest o i attempt = refl

-- After a build that missed the cache, a second build of the same input, for any attempt and within
-- the time to live, calls no loader and returns what a fresh build would return.
pub build_mentor_context_again :
    (sort : List String → List String) (fnv1a_digest : StagePolicy → String) (o : CacheOptions)
    (now written later after : ℕ) (i : BuildInput) (attempt : ℕ)
    (cache : Dict (Entry MentorContext))
    → (get now (mentor_context_cache_key sort fnv1a_digest o i) cache).0 ≡ none
    → later < written + o.ttl_ms
    → let build = build_mentor_context sort fnv1a_digest o in
      let (context, calls, _) =
        build later after (with_attempt i attempt) (build now written i cache).2 in
      (context ≡ (fresh_context (with_attempt i attempt)).0) × (calls ≡ [])
unfolding build_mentor_context fresh_context
build_mentor_context_again sort fnv1a_digest o now written later after i attempt cache miss h =
    ground (
      arith,
      get-set_self o written later (mentor_context_cache_key sort fnv1a_digest o i)
          (fresh_context i).0 (get now (mentor_context_cache_key sort fnv1a_digest o i) cache).1,
      key-with_attempt sort fnv1a_digest o i attempt,
    )
