-- ===== src/Submissions/Tests.antt =====
-- A store with one old bundle and one new one, and an upload that is finalized.
use research_crafters.Prelude.{
  [], arith, false, filter, length, none, refl, some, true, ◌∷◌, ◌≡◌, ◌≤◌,
}
use research_crafters.Prelude.Dict.{WellKeyed, insert, lookup}
use research_crafters.Submissions.Retention.{
  BundleDb, PurgeEnv, Submission, bundle_expires_at, clamp_limit, digits_from, find_expired,
  get_retention_days, insert_by_age, is_pending, parse_digits, parse_int, parse_signed,
  purge_expired, purge_row, purge_rows, sort_by_age,
}
use research_crafters.Submissions.Retention.Purging.{purge_expired-Purged}
use research_crafters.Submissions.Retention.Sweep.{Purged}

abbrev old_bundle : Submission
old_bundle = record { bundle_object_key = "k1"; byte_size = 10; created_at = 0 }

abbrev new_bundle : Submission
new_bundle = record { bundle_object_key = "k2"; byte_size = 20; created_at = 1900000000 }

abbrev two_bundles : BundleDb
two_bundles = record {
  submissions = ("s2", new_bundle) ∷ ("s1", old_bundle) ∷ [];
  objects = "k1" ∷ "k2" ∷ [];
}

-- "14", then 23 days after the first bundle.
abbrev sweep_env : PurgeEnv
sweep_env = record {
  retention = some (49 ∷ 52 ∷ []);
  now = 2000000000;
  limit = none;
  delete_fails = λ k. false;
  mark_fails = λ k. false;
}

two_bundles-WellKeyed : WellKeyed two_bundles.submissions
unfolding lookup
two_bundles-WellKeyed = (refl, (refl, tt))

sweep_count : (purge_expired sweep_env two_bundles).0.purged ≡ 1
unfolding purge_expired find_expired purge_rows purge_row insert_by_age sort_by_age lookup insert
    get_retention_days parse_int parse_signed parse_digits digits_from bundle_expires_at clamp_limit
sweep_count = refl

old_pending : is_pending sweep_env ("s1", old_bundle) ≡ true
unfolding get_retention_days parse_int parse_signed parse_digits digits_from bundle_expires_at
old_pending = refl

new_not_pending : is_pending sweep_env ("s2", new_bundle) ≡ false
unfolding get_retention_days parse_int parse_signed parse_digits digits_from bundle_expires_at
new_not_pending = refl

old_found : lookup two_bundles.submissions "s1" ≡ some old_bundle
unfolding lookup
old_found = refl

new_found : lookup two_bundles.submissions "s2" ≡ some new_bundle
unfolding lookup
new_found = refl

few_pending :
    length (filter (is_pending sweep_env) two_bundles.submissions) ≤ clamp_limit sweep_env.limit
unfolding get_retention_days parse_int parse_signed parse_digits digits_from bundle_expires_at
    clamp_limit
few_pending = omega arith

purge_expired-Purged_example : Purged "s1" "k1" (purge_expired sweep_env two_bundles).2
purge_expired-Purged_example =
    purge_expired-Purged sweep_env two_bundles "s1" old_bundle two_bundles-WellKeyed few_pending
      old_found old_pending (refl, refl)
