-- ===== src/Worker/Scheduler.antt =====
-- apps/worker/src/scheduler.ts: the recurring rollups. The queue is any with the operations that the
-- code calls and what BullMQ documents of repeating jobs with an id; throwing calls are left out.
-- Moments are milliseconds; one reading of the clock stands for all jobs.
pub mod Recurring
mod Tests
use research_crafters.Prelude.{
  Bool, List, String, [], codes_eq, false, filter, if◌then◌else◌, nat_eq, not, string_eq, true, ℕ,
  ◌&&◌, ◌++ₛ◌, ◌++◌, ◌+◌, ◌-◌, ◌==◌, ◌||◌, ◌∷◌, ◌≡◌,
}

pub data Cohort : Type 0 where
  all_attempts completers entitled_paid alpha_beta : Cohort

-- `COHORT_DEFINITIONS[c].includeInPublicPercentages`
unfoldable pub is_public : Cohort → Bool
is_public alpha_beta = false
is_public _ = true

-- `PUBLIC_COHORTS`
abbrev pub public_cohorts : List Cohort
public_cohorts = filter is_public (all_attempts ∷ completers ∷ entitled_paid ∷ alpha_beta ∷ [])

unfoldable pub cohort_text : Cohort → String
cohort_text all_attempts = "all_attempts"
cohort_text completers = "completers"
cohort_text entitled_paid = "entitled_paid"
cohort_text alpha_beta = "alpha_beta"

pub record RollupPayload : Type 0 where
  pub package_version_id : String
  pub cohort : Cohort
  pub window_start : ℕ
  pub window_end : ℕ

-- What `add` is given: the job's name, its payload, its id and the pattern of its repetition.
pub record RepeatingJob : Type 0 where
  pub name : String
  pub payload : RollupPayload
  pub job_id : String
  pub pattern : String

-- A repetition, as BullMQ tells it from others: by name, pattern and id.
pub record RepeatKey : Type 0 where
  pub key_name : String
  pub key_pattern : String
  pub key_id : String

abbrev pub same_key : RepeatKey → RepeatKey → Bool
same_key a b = a.key_name == b.key_name && (a.key_pattern == b.key_pattern && a.key_id == b.key_id)

abbrev pub key_of : RepeatingJob → RepeatKey
key_of job = record { key_name = job.name; key_pattern = job.pattern; key_id = job.job_id }

-- A queue: `add`, `removeRepeatable` with name, pattern and id, which says whether there was such a
-- repetition; and which repetitions are on the schedule.
pub record SchedulerQueue (S : Type 0) : Type 0 where
  pub add : S → RepeatingJob → S
  pub remove_repeatable : S → String → String → String → Bool × S
  pub is_scheduled : S → RepeatKey → Bool
  pub scheduled-add :
      (s : S) (job : RepeatingJob) (k : RepeatKey)
      → is_scheduled (add s job) k ≡ (same_key (key_of job) k || is_scheduled s k)
  pub removed-scheduled :
      (s : S) (name pattern id : String)
      → (remove_repeatable s name pattern id).0
        ≡ is_scheduled s (record { key_name = name; key_pattern = pattern; key_id = id })
  pub scheduled-remove :
      (s : S) (name pattern id : String) (k : RepeatKey)
      → is_scheduled (remove_repeatable s name pattern id).1 k ≡ (
          not (same_key (record { key_name = name; key_pattern = pattern; key_id = id }) k)
          && is_scheduled s k)

-- `BRANCH_STATS_ROLLUP_QUEUE` and `BRANCH_STATS_ROLLUP_CRON`
abbrev pub rollup_queue : String
rollup_queue = "branch_stats_rollup"

abbrev pub rollup_cron : String
rollup_cron = "*/15 * * * *"

-- `buildBranchStatsPayload`; the clock is past its first hour.
abbrev pub build_payload : Cohort → String → ℕ → RollupPayload
build_payload c version now = record {
  package_version_id = version;
  cohort = c;
  window_start = now - 3600000;
  window_end = now;
}

-- `repeatJobId`
unfoldable pub repeat_job_id : Cohort → String → String
repeat_job_id c version = "branch-stats-rollup:" ++ₛ version ++ₛ ":" ++ₛ cohort_text c

module _ {S : Type 0} (q : SchedulerQueue S) where
  -- The inner loop of `installSchedules`; the descriptors are the jobs without their payload.
  unfoldable pub install_cohorts : ℕ → String → List Cohort → S → List RepeatKey × S
  install_cohorts now version [] s = ([], s)
  install_cohorts now version (c ∷ cohorts) s =
      let job : RepeatingJob = record {
        name = rollup_queue;
        payload = build_payload c version now;
        job_id = repeat_job_id c version;
        pattern = rollup_cron;
      } in
      let rest = install_cohorts now version cohorts (q.add s job) in (key_of job ∷ rest.0, rest.1)

  -- `installSchedules`: the descriptors, and the queue after.
  unfoldable pub install_schedules : ℕ → List String → S → List RepeatKey × S
  install_schedules now [] s = ([], s)
  install_schedules now (version ∷ versions) s =
      let (installed, s') = install_cohorts now version public_cohorts s in
      let rest = install_schedules now versions s' in (installed ++ rest.0, rest.1)

  -- The inner loop of `removeAllSchedules`.
  unfoldable pub remove_cohorts : String → List Cohort → S → ℕ × S
  remove_cohorts version [] s = (0, s)
  remove_cohorts version (c ∷ cohorts) s =
      let (ok, s') = q.remove_repeatable s rollup_queue rollup_cron (repeat_job_id c version) in
      let rest = remove_cohorts version cohorts s' in ((if ok then 1 else 0) + rest.0, rest.1)

  -- `removeAllSchedules`: how many there were, and the queue after.
  unfoldable pub remove_all_schedules : List String → S → ℕ × S
  remove_all_schedules [] s = (0, s)
  remove_all_schedules (version ∷ versions) s =
      let (removed, s') = remove_cohorts version public_cohorts s in
      let rest = remove_all_schedules versions s' in (removed + rest.0, rest.1)
