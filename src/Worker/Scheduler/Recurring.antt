-- ===== src/Worker/Scheduler/Recurring.antt =====
-- The repetitions that are to be on the schedule of apps/worker/src/scheduler.ts.
use research_crafters.Prelude.{
  ==_self, Bool, List, String, [], ap, arith, codes_eq, false, if◌then◌else◌, nat_eq, not, refl,
  string_eq, true, ℕ, ◌&&◌, ◌++ₛ◌, ◌+◌, ◌||◌, ◌∙◌, ◌∷◌, ◌≡◌,
}
use research_crafters.Worker.Scheduler.{
  Cohort, RepeatKey, RepeatingJob, SchedulerQueue, all_attempts, build_payload, cohort_text,
  completers, entitled_paid, install_cohorts, install_schedules, is_public, remove_all_schedules,
  remove_cohorts, repeat_job_id, same_key,
}

-- The repetition of one version and one cohort, every 15 minutes.
abbrev pub recurring : String → String → RepeatKey
recurring version cohort = record {
  key_name = "branch_stats_rollup";
  key_pattern = "*/15 * * * *";
  key_id = "branch-stats-rollup:" ++ₛ version ++ₛ ":" ++ₛ cohort;
}

-- Each version has three: those of the cohorts that may be shown, not the internal one.
abbrev pub expected : List String → List RepeatKey
expected [] = []
expected (version ∷ versions) =
    recurring version "all_attempts"
    ∷ recurring version "completers"
    ∷ recurring version "entitled_paid"
    ∷ expected versions

abbrev pub among : List RepeatKey → RepeatKey → Bool
among [] k = false
among (x ∷ xs) k = same_key x k || among xs k

-- How many are new, one after another.
abbrev pub count_new : List RepeatKey → List RepeatKey → ℕ
count_new seen [] = 0
count_new seen (k ∷ ks) =
    let rest = count_new (k ∷ seen) ks in (if among seen k then 0 else 1) + rest

same_key_self : (k : RepeatKey) → same_key k k ≡ true
same_key_self k = ground (arith, ==_self k.key_name, ==_self k.key_pattern, ==_self k.key_id)

module _ {S : Type 0} (q : SchedulerQueue S) where
  -- Removing one repetition after another.
  remove_keys : List RepeatKey → S → ℕ × S
  remove_keys [] s = (0, s)
  remove_keys (k ∷ ks) s =
      let (ok, s') = q.remove_repeatable s k.key_name k.key_pattern k.key_id in
      let rest = remove_keys ks s' in ((if ok then 1 else 0) + rest.0, rest.1)

  -- The queue without the repetition.
  without : S → RepeatKey → S
  without s k = (q.remove_repeatable s k.key_name k.key_pattern k.key_id).1

  remove_all_schedules-remove_keys :
      (versions : List String) (s : S)
      → ((remove_all_schedules q versions s).0 ≡ (remove_keys (expected versions) s).0)
        × ((remove_all_schedules q versions s).1 ≡ (remove_keys (expected versions) s).1)
  unfolding remove_all_schedules remove_cohorts remove_keys without is_public repeat_job_id
      cohort_text
  remove_all_schedules-remove_keys [] s = (refl, refl)
  remove_all_schedules-remove_keys (version ∷ versions) s =
      let first = without s (recurring version "all_attempts") in
      let second = without first (recurring version "completers") in
      let third = without second (recurring version "entitled_paid") in
      let (counted, left) = remove_all_schedules-remove_keys versions third in
      (omega (arith, counted), left)

  recurring_job : ℕ → String → Cohort → RepeatingJob
  recurring_job now version c = record {
    name = "branch_stats_rollup";
    payload = build_payload c version now;
    job_id = "branch-stats-rollup:" ++ₛ version ++ₛ ":" ++ₛ cohort_text c;
    pattern = "*/15 * * * *";
  }

  install_schedules-among :
      (now : ℕ) (versions : List String) (s : S) (k : RepeatKey)
      → q.is_scheduled (install_schedules q now versions s).1 k
        ≡ (among (expected versions) k || q.is_scheduled s k)
  unfolding install_schedules install_cohorts is_public repeat_job_id cohort_text recurring_job
  install_schedules-among now [] s k = refl
  install_schedules-among now (version ∷ versions) s k =
      let a = recurring_job now version all_attempts in
      let b = recurring_job now version completers in
      let c = recurring_job now version entitled_paid in
      ground (
        arith,
        q.scheduled-add s a k,
        q.scheduled-add (q.add s a) b k,
        q.scheduled-add (q.add (q.add s a) b) c k,
        install_schedules-among now versions (q.add (q.add (q.add s a) b) c) k,
      )

  install_schedules-expected :
      (now : ℕ) (versions : List String) (s : S)
      → (install_schedules q now versions s).0 ≡ expected versions
  unfolding install_schedules install_cohorts is_public repeat_job_id cohort_text
  install_schedules-expected now [] s = refl
  install_schedules-expected now (version ∷ versions) s =
      ap
        (λ l.
          recurring version "all_attempts"
          ∷ recurring version "completers"
          ∷ recurring version "entitled_paid"
          ∷ l)
        (install_schedules-expected now versions _)

  remove_keys-among :
      (ks : List RepeatKey) (s : S) (k : RepeatKey)
      → q.is_scheduled (remove_keys ks s).1 k ≡ (not (among ks k) && q.is_scheduled s k)
  unfolding remove_keys
  remove_keys-among [] s k = refl
  remove_keys-among (j ∷ ks) s k = ground (
    arith,
    q.scheduled-remove s j.key_name j.key_pattern j.key_id k,
    remove_keys-among ks (q.remove_repeatable s j.key_name j.key_pattern j.key_id).1 k,
  )

  remove_keys-count :
      (seen ks : List RepeatKey) (s : S)
      → ((k : RepeatKey) → among ks k ≡ true → q.is_scheduled s k ≡ not (among seen k))
      → (remove_keys ks s).0 ≡ count_new seen ks
  unfolding remove_keys
  remove_keys-count seen [] s h = refl
  remove_keys-count seen (j ∷ ks) s h =
      let here = h j (ground (arith, same_key_self j)) in
      let s' = (q.remove_repeatable s j.key_name j.key_pattern j.key_id).1 in
      let next = remove_keys-count (j ∷ seen) ks s' (λ k later. ground (
        arith,
        later,
        h k (ground (arith, later)),
        q.scheduled-remove s j.key_name j.key_pattern j.key_id k,
      )) in
      ground (arith, here, next, q.removed-scheduled s j.key_name j.key_pattern j.key_id)

  -- On a queue without schedules, the schedules that are installed are, for each version, one of every
  -- 15 minutes for each cohort that may be shown, and no others; the descriptors that are returned are
  -- theirs. Removing all schedules then removes as many as there are different ones, and leaves none.
  pub install_schedules-remove :
      (now : ℕ) (versions : List String) (s : S)
      → ((k : RepeatKey) → q.is_scheduled s k ≡ false)
      → let (descriptors, installed) = install_schedules q now versions s in
        (descriptors ≡ expected versions)
        × ((k : RepeatKey) → q.is_scheduled installed k ≡ among (expected versions) k)
        × ((remove_all_schedules q versions installed).0 ≡ count_new [] (expected versions))
        × ((k : RepeatKey) → q.is_scheduled (remove_all_schedules q versions installed).1 k ≡ false)
  install_schedules-remove now versions s none_yet =
      let installed = (install_schedules q now versions s).1 in
      let there : (k : RepeatKey) → q.is_scheduled installed k ≡ among (expected versions) k =
        λ k. ground (arith, none_yet k, install_schedules-among now versions s k) in
      let (counted, left) = remove_all_schedules-remove_keys versions installed in
      (
        install_schedules-expected now versions s,
        there,
        counted
            ∙ remove_keys-count [] (expected versions) installed
                (λ k is. ground (arith, is, there k)),
        λ k.
            ap (λ t. q.is_scheduled t k) left
            ∙ ground (arith, there k, remove_keys-among (expected versions) installed k),
      )
