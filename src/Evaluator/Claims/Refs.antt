-- ===== src/Evaluator/Claims/Refs.antt =====
-- The refs of a claim: de-duplicated, then split into three buckets.
use research_crafters.Prelude.{
  ==_self, Bool-cases, List, String, [], arith, contains, eq_iff, false, get_or, inl, inr, nat_eq,
  not, refl, string_eq, ◌&&◌, ◌∷◌, ◌≡◌,
}
use research_crafters.Evaluator.Claims.{ClaimPolicy, bucket, uniq, uniq_from}

contains-uniq_from :
    (x : String) (seen refs : List String)
    → contains (uniq_from seen refs) x ≡ (not (contains seen x) && contains refs x)
unfolding uniq_from
contains-uniq_from x seen [] = ground arith
contains-uniq_from x seen (r ∷ refs) =
    ground (arith, contains-uniq_from x seen refs, contains-uniq_from x (r ∷ seen) refs, eq_iff r x)

-- De-duplication keeps exactly the refs that were cited.
pub contains-uniq : (x : String) (refs : List String) → contains (uniq refs) x ≡ contains refs x
unfolding uniq
contains-uniq x refs = contains-uniq_from x [] refs

abbrev pub HasNoRepeat : List String → Type 0
HasNoRepeat [] = Unit
HasNoRepeat (x ∷ xs) = (contains xs x ≡ false) × HasNoRepeat xs

uniq_from-HasNoRepeat : (seen refs : List String) → HasNoRepeat (uniq_from seen refs)
unfolding uniq_from
uniq_from-HasNoRepeat seen [] = tt
uniq_from-HasNoRepeat seen (r ∷ refs) = elim (Bool-cases (contains seen r)) [
  | inl old ↦ rw (old, uniq_from) (uniq_from-HasNoRepeat seen refs)
  | inr new ↦
      rw (new, uniq_from)
        (
          ground (arith, contains-uniq_from r (r ∷ seen) refs, ==_self r),
          uniq_from-HasNoRepeat (r ∷ seen) refs,
        )
]

-- No ref is listed twice after de-duplication.
pub uniq-HasNoRepeat : (refs : List String) → HasNoRepeat (uniq refs)
unfolding uniq
uniq-HasNoRepeat refs = uniq_from-HasNoRepeat [] refs

-- Each ref is in the bucket that the policy names for it.
pub contains-bucket :
    (p : ClaimPolicy) (refs : List String) (x : String)
    → let b = bucket p refs in
      let ok = contains p.allowed_evidence_refs x in
      let token = contains (get_or p.placeholder_tokens []) x in
      (contains b.accepted x ≡ (contains refs x && ok))
      × (contains b.placeholder x ≡ (contains refs x && (not ok && token)))
      × (contains b.disallowed x ≡ (contains refs x && (not ok && not token)))
unfolding bucket
contains-bucket p [] x = (refl, refl, refl)
contains-bucket p (r ∷ refs) x = (
  ground (arith, contains-bucket p refs x, eq_iff r x),
  ground (arith, contains-bucket p refs x, eq_iff r x),
  ground (arith, contains-bucket p refs x, eq_iff r x),
)
