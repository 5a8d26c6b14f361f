-- ===== src/Runner/Limits.antt =====
-- apps/runner/src/limits.ts: the resources of a run. Amounts are whole numbers of a unit that is
-- small enough for the fractions in use; `unit` of them make one.
use research_crafters.Prelude.{
  Bool, Option, String, arith, false, get_or, if◌then◌else◌, not, true, ℕ, ◌&&◌, ◌*◌, ◌<◌, ◌≡◌,
}
use research_crafters.Prelude.Number.{
  Number, int, is_finite, ltb_number, nan, neg_inf, negsuc, pos, pos_inf,
}

pub data Mode : Type 0 where
  test replay mini_experiment : Mode

pub data NetworkPolicy : Type 0 where
  no_network restricted : NetworkPolicy

pub record ModeCaps : Type 0 where
  pub cap_cpu : ℕ
  pub cap_memory_mb : ℕ
  pub cap_wall_clock_seconds : ℕ
  pub cap_max_upload_bytes : ℕ

pub record Resources : Type 0 where
  pub cpu : Number
  pub memory_mb : Number
  pub wall_clock_seconds : Number

-- The overrides of a stage; none where it has none.
pub record RunnerStage : Type 0 where
  pub stage_cpu : Option Number
  pub stage_memory_mb : Option Number
  pub stage_wall_clock_seconds : Option Number

pub record ResolvedLimits : Type 0 where
  pub limits : Resources
  pub max_upload_bytes : ℕ
  pub network : NetworkPolicy

pub data Resolution : Type 0 where
  resolved : ResolvedLimits → Resolution
  bad_resource : String → Resolution
  network_not_supported : Resolution

-- `MODE_CAPS`
unfoldable pub mode_caps : ℕ → Mode → ModeCaps
mode_caps unit mini_experiment = record {
  cap_cpu = 4 * unit;
  cap_memory_mb = 4096 * unit;
  cap_wall_clock_seconds = 120 * unit;
  cap_max_upload_bytes = 25 * 1024 * 1024;
}
mode_caps unit _ = record {
  cap_cpu = 2 * unit;
  cap_memory_mb = 2048 * unit;
  cap_wall_clock_seconds = 60 * unit;
  cap_max_upload_bytes = 25 * 1024 * 1024;
}

-- `assertPositiveFinite`, as a test.
unfoldable pub is_positive_finite : Number → Bool
is_positive_finite x = is_finite x && ltb_number (int (pos 0)) x

-- `Math.min`, on numbers that are not NaN.
abbrev pub min_number : Number → ℕ → Number
min_number x cap = if ltb_number x (int (pos cap)) then x else int (pos cap)

-- `runnerStage.cpu ?? resources.cpu`, and so on.
abbrev pub requested : RunnerStage → Resources → Resources
requested stage r = record {
  cpu = get_or stage.stage_cpu r.cpu;
  memory_mb = get_or stage.stage_memory_mb r.memory_mb;
  wall_clock_seconds = get_or stage.stage_wall_clock_seconds r.wall_clock_seconds;
}

abbrev is_none_policy : NetworkPolicy → Bool
is_none_policy no_network = true
is_none_policy restricted = false

abbrev clamp : ModeCaps → Resources → Resources
clamp caps r = record {
  cpu = min_number r.cpu caps.cap_cpu;
  memory_mb = min_number r.memory_mb caps.cap_memory_mb;
  wall_clock_seconds = min_number r.wall_clock_seconds caps.cap_wall_clock_seconds;
}

-- `resolveStageLimits`, for the known modes.
unfoldable pub resolve_stage_limits :
    ℕ → Mode → RunnerStage → Resources → NetworkPolicy → Resolution
resolve_stage_limits unit mode stage resources requested_network =
    let r = requested stage resources in
    let caps = mode_caps unit mode in
    if not (is_positive_finite r.cpu)
    then bad_resource "cpu"
    else if not (is_positive_finite r.memory_mb)
    then bad_resource "memory_mb"
    else if not (is_positive_finite r.wall_clock_seconds)
    then bad_resource "wall_clock_seconds"
    else if not (is_none_policy requested_network)
    then network_not_supported
    else resolved (record {
      limits = clamp caps r;
      max_upload_bytes = caps.cap_max_upload_bytes;
      network = no_network;
    })

-- A resource that lies above zero, and below its cap and the request.
abbrev pub Fits : Number → ℕ → Number → Type 0
Fits x cap request =
    (ltb_number (int (pos 0)) x ≡ true)
    × (ltb_number (int (pos cap)) x ≡ false)
    × (ltb_number request x ≡ false)

min_number-Fits :
    (request : Number) (cap : ℕ)
    → 0 < cap
    → is_positive_finite request ≡ true
    → Fits (min_number request cap) cap request
unfolding is_positive_finite
min_number-Fits (int (pos n)) cap some_cap h = ground arith
min_number-Fits (int (negsuc n)) cap some_cap h = ground arith
min_number-Fits nan cap some_cap h = ground arith
min_number-Fits pos_inf cap some_cap h = ground arith
min_number-Fits neg_inf cap some_cap h = ground arith

mode_caps-positive :
    (unit : ℕ) (mode : Mode)
    → 0 < unit
    → (0 < (mode_caps unit mode).cap_cpu)
      × (0 < (mode_caps unit mode).cap_memory_mb)
      × (0 < (mode_caps unit mode).cap_wall_clock_seconds)
unfolding mode_caps
mode_caps-positive unit test h = (omega arith, omega arith, omega arith)
mode_caps-positive unit replay h = (omega arith, omega arith, omega arith)
mode_caps-positive unit mini_experiment h = (omega arith, omega arith, omega arith)

resolve_stage_limits-clamp :
    (unit : ℕ) (mode : Mode) (stage : RunnerStage) (resources : Resources)
    (requested_network : NetworkPolicy) (l : ResolvedLimits)
    → resolve_stage_limits unit mode stage resources requested_network ≡ resolved l
    → let r = requested stage resources in
      (is_positive_finite r.cpu ≡ true)
      × (is_positive_finite r.memory_mb ≡ true)
      × (is_positive_finite r.wall_clock_seconds ≡ true)
      × (l.limits ≡ clamp (mode_caps unit mode) r)
      × (l.network ≡ no_network)
unfolding resolve_stage_limits
resolve_stage_limits-clamp unit mode stage resources requested_network l h = ground arith

-- No run gets more than its mode allows, more than it asked for, or a network: limits that are
-- resolved are above zero, at most the caps of the mode, and at most what the stage, or else the
-- file, asks for.
pub resolve_stage_limits-Fits :
    (unit : ℕ) (mode : Mode) (stage : RunnerStage) (resources : Resources)
    (requested_network : NetworkPolicy) (l : ResolvedLimits)
    → 0 < unit
    → resolve_stage_limits unit mode stage resources requested_network ≡ resolved l
    → let r = requested stage resources in
      let caps = mode_caps unit mode in
      Fits l.limits.cpu caps.cap_cpu r.cpu
      × Fits l.limits.memory_mb caps.cap_memory_mb r.memory_mb
      × Fits l.limits.wall_clock_seconds caps.cap_wall_clock_seconds r.wall_clock_seconds
      × (l.network ≡ no_network)
resolve_stage_limits-Fits unit mode stage resources requested_network l some_unit h =
    let (a, b, c, e, net) =
      resolve_stage_limits-clamp unit mode stage resources requested_network l h in
    let (x, y, z) = mode_caps-positive unit mode some_unit in
    rw e (min_number-Fits _ _ x a, min_number-Fits _ _ y b, min_number-Fits _ _ z c, net)
