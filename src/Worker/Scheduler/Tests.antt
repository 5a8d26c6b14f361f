-- ===== src/Worker/Scheduler/Tests.antt =====
-- apps/worker/src/scheduler.ts: a queue that is the list of its repetitions, and two versions.
use research_crafters.Prelude.{
  Bool, List, String, [], arith, eq_iff, false, if◌then◌else◌, not, refl, true, ◌&&◌, ◌||◌, ◌∙◌,
  ◌∷◌, ◌≡◌,
}
use research_crafters.Worker.Scheduler.{
  RepeatKey, SchedulerQueue, cohort_text, install_cohorts, install_schedules, is_public, key_of,
  remove_all_schedules, repeat_job_id, same_key,
}
use research_crafters.Worker.Scheduler.Recurring.{
  among, count_new, expected, install_schedules-remove,
}

abbrev dropped : RepeatKey → List RepeatKey → List RepeatKey
dropped j [] = []
dropped j (x ∷ xs) = let rest = dropped j xs in if same_key j x then rest else x ∷ rest

same_key-other : (j x k : RepeatKey) → same_key j x ≡ true → same_key x k ≡ same_key j k
same_key-other j x k e = ground (
  arith,
  e,
  eq_iff j.key_name x.key_name,
  eq_iff j.key_pattern x.key_pattern,
  eq_iff j.key_id x.key_id,
)

same_key-apart :
    (j x k : RepeatKey) → same_key j x ≡ false → same_key x k ≡ true → same_key j k ≡ false
same_key-apart j x k e e' = ground (
  arith,
  e,
  e',
  eq_iff x.key_name k.key_name,
  eq_iff x.key_pattern k.key_pattern,
  eq_iff x.key_id k.key_id,
)

pick :
    (same jk xk m r : Bool)
    → r ≡ (not jk && m)
    → (same ≡ true → xk ≡ jk)
    → (same ≡ false → xk ≡ true → jk ≡ false)
    → (if same then r else (xk || r)) ≡ (not jk && (xk || m))
pick true jk xk m r rest other apart = ground (arith, rest, other refl)
pick false jk true m r rest other apart = ground (arith, rest, apart refl refl)
pick false jk false m r rest other apart = rest

among-if :
    (c : Bool) (x k : RepeatKey) (r : List RepeatKey)
    → among (if c then r else x ∷ r) k ≡ (if c then among r k else (same_key x k || among r k))
among-if true x k r = refl
among-if false x k r = refl

among-dropped :
    (xs : List RepeatKey) (j k : RepeatKey)
    → among (dropped j xs) k ≡ (not (same_key j k) && among xs k)
among-dropped [] j k = ground arith
among-dropped (x ∷ xs) j k =
    among-if (same_key j x) x k (dropped j xs)
    ∙ pick (same_key j x) (same_key j k) (same_key x k) (among xs k) (among (dropped j xs) k)
        (among-dropped xs j k) (same_key-other j x k) (same_key-apart j x k)

abbrev key_queue : SchedulerQueue (List RepeatKey)
key_queue = record {
  add = λ s job. key_of job ∷ s;
  remove_repeatable = λ s name pattern id.
      let k : RepeatKey = record { key_name = name; key_pattern = pattern; key_id = id } in
      (among s k, dropped k s);
  is_scheduled = λ s k. among s k;
  scheduled-add = λ s job k. refl;
  removed-scheduled = λ s name pattern id. refl;
  scheduled-remove = λ s name pattern id k.
      among-dropped s (record { key_name = name; key_pattern = pattern; key_id = id }) k;
}

abbrev two_versions : List String
two_versions = "v1" ∷ "v2" ∷ []

installed_two : (install_schedules key_queue 7200000 two_versions []).0 ≡ expected two_versions
unfolding install_schedules install_cohorts is_public repeat_job_id cohort_text
installed_two = refl

install_schedules-remove_example :
    let (descriptors, installed) = install_schedules key_queue 7200000 two_versions [] in
    (descriptors ≡ expected two_versions)
    × ((k : RepeatKey) → among installed k ≡ among (expected two_versions) k)
    × ((remove_all_schedules key_queue two_versions installed).0
        ≡ count_new [] (expected two_versions))
    × ((k : RepeatKey) → among (remove_all_schedules key_queue two_versions installed).1 k ≡ false)
install_schedules-remove_example =
    install_schedules-remove key_queue 7200000 two_versions [] (λ k. refl)
