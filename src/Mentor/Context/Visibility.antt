-- ===== src/Mentor/Context/Visibility.antt =====
-- Which scopes a stage policy opens, and when.
use research_crafters.Prelude.{[], arith, inl, inr, none, refl, true, ◌↔◌, ◌≡◌, ◌⊎◌}
use research_crafters.Mentor.Context.{
  MentorVisibility, MentorVisibilityState, Scope, StagePolicy, VisibilityState, after_attempt,
  after_completion, after_pass, allowed, always, branch_solutions, canonical_solution,
  detect_visibility_misconfig, is_always, is_forbidden_always, is_visible, never, state_of,
  warned_scopes,
}

-- The trigger that a visibility state names has fired.
abbrev pub HasFired : MentorVisibilityState → VisibilityState → Type 0
HasFired always world = Unit {0}
HasFired after_attempt world = world.has_attempt ≡ true
HasFired after_pass world = world.has_passed ≡ true
HasFired after_completion world = world.has_completed_package ≡ true
HasFired never world = ⊥

abbrev pub IsSolution : Scope → Type 0
IsSolution scope = (scope ≡ canonical_solution) ⊎ (scope ≡ branch_solutions)

HasFired-iff :
    (state : MentorVisibilityState) (world : VisibilityState)
    → (is_visible state world ≡ true) ↔ HasFired state world
unfolding is_visible
HasFired-iff always world = (λ h. tt, λ h. refl)
HasFired-iff after_attempt world = (λ h. h, λ h. h)
HasFired-iff after_pass world = (λ h. h, λ h. h)
HasFired-iff after_completion world = (λ h. h, λ h. h)
HasFired-iff never world = (λ h. cc, λ h. absurd h)

is_always_iff : (state : MentorVisibilityState) → (is_always state ≡ true) ↔ (state ≡ always)
is_always_iff always = (λ h. refl, λ h. refl)
is_always_iff _ = (λ h. cc, λ h. cc)

is_forbidden_always_iff : (scope : Scope) → (is_forbidden_always scope ≡ true) ↔ IsSolution scope
is_forbidden_always_iff canonical_solution = (λ h. inl refl, λ h. refl)
is_forbidden_always_iff branch_solutions = (λ h. inr refl, λ h. refl)
is_forbidden_always_iff _ = (λ h. cc, λ h. ground arith)

-- A scope is open exactly when the trigger of its state has fired; but a solution scope whose state
-- is `always` is closed.
pub allowed_iff :
    (v : MentorVisibility) (world : VisibilityState) (scope : Scope)
    → (allowed v world scope ≡ true)
      ↔ (HasFired (state_of v scope) world × ¬ (IsSolution scope × (state_of v scope ≡ always)))
unfolding allowed
allowed_iff v world scope = (
  λ h. (
    (HasFired-iff (state_of v scope) world).0 (ground arith),
    λ p.
        ground
          (arith, (is_always_iff (state_of v scope)).1 p.1, (is_forbidden_always_iff scope).1 p.0),
  ),
  λ h. ground (
    arith,
    (HasFired-iff (state_of v scope) world).1 h.0,
    (is_always_iff (state_of v scope)).0,
    (is_forbidden_always_iff scope).0,
    h.1,
  ),
)

-- The learner has come at least as far.
abbrev pub IsFurther : VisibilityState → VisibilityState → Type 0
IsFurther w w' =
    (w.has_attempt ≡ true → w'.has_attempt ≡ true)
    × (w.has_passed ≡ true → w'.has_passed ≡ true)
    × (w.has_completed_package ≡ true → w'.has_completed_package ≡ true)

is_visible_mono :
    (state : MentorVisibilityState) (w w' : VisibilityState)
    → IsFurther w w'
    → is_visible state w ≡ true
    → is_visible state w' ≡ true
unfolding is_visible
is_visible_mono always w w' f h = refl
is_visible_mono after_attempt w w' f h = f.0 h
is_visible_mono after_pass w w' f h = f.1 h
is_visible_mono after_completion w w' f h = f.2 h
is_visible_mono never w w' f h = h

-- Progress never closes a scope: what is open to a learner stays open when the learner has attempted,
-- passed or completed more.
pub allowed_mono :
    (v : MentorVisibility) (w w' : VisibilityState) (scope : Scope)
    → IsFurther w w'
    → allowed v w scope ≡ true
    → allowed v w' scope ≡ true
unfolding allowed
allowed_mono v w w' scope f h = ground (arith, is_visible_mono (state_of v scope) w w' f)

-- The runtime refuses exactly the policies that the builder would warn of.
pub detect_visibility_misconfig_iff :
    (policy : StagePolicy)
    → (detect_visibility_misconfig policy ≡ none) ↔ (warned_scopes policy.mentor_visibility ≡ [])
unfolding detect_visibility_misconfig warned_scopes
detect_visibility_misconfig_iff policy = (λ h. ground arith, λ h. ground arith)
