-- ===== src/Evaluator/Claims/Verdicts.antt =====
-- When a claim passes, and when the citation policy refuses a submission.
use research_crafters.Prelude.{
  ==_self, All, Bool-cases, List, String, [], arith, contains, eq_iff, false, filter, get_or, inl,
  inr, length, length-filter, map, nat_eq, not, refl, some, string_eq, true, ℕ, ◌&&◌, ◌↔◌, ◌∷◌, ◌≡◌,
  ◌≢◌, ◌≤◌, ◌⊎◌,
}
use research_crafters.Evaluator.Claims.{
  Buckets, ClaimPolicy, ClaimResult, ClaimSpec, EnforcementMode, bucket, check_writing_claim,
  check_writing_claim_batch, enforce_citation_policy, flag, is_empty, strict, uniq, verdict_passed,
}
use research_crafters.Evaluator.Claims.Refs.{contains-bucket, contains-uniq}

abbrev pub Cites : ClaimSpec → String → Type 0
Cites s x = contains (get_or s.cited_refs []) x ≡ true

abbrev pub IsAllowed : ClaimPolicy → String → Type 0
IsAllowed p x = contains p.allowed_evidence_refs x ≡ true

abbrev pub IsToken : ClaimPolicy → String → Type 0
IsToken p x = contains (get_or p.placeholder_tokens []) x ≡ true

-- How a claim may be supported.
abbrev pub Support : ClaimSpec → ClaimPolicy → Type 0
Support s p =
    ((x : String) × Cites s x × IsAllowed p x)
    ⊎ (((x : String) × Cites s x × IsToken p x) × (p.placeholder_allowed ≡ some true))
    ⊎ (((x : String) → ¬ Cites s x) × (s.requires_citation ≡ some false))

-- A claim is backed: it is well formed, cites nothing outside the policy, and has support.
abbrev pub IsBacked : ClaimPolicy → ClaimSpec → Type 0
IsBacked p s =
    (s.id ≢ "")
    × (s.text ≢ "")
    × ((x : String) → Cites s x → IsAllowed p x ⊎ IsToken p x)
    × Support s p

head_of : (xs : List String) → is_empty xs ≡ false → (x : String) × (contains xs x ≡ true)
head_of [] h = cc
head_of (x ∷ xs) h = (x, ground (arith, ==_self x))

empty_of : (xs : List String) → ((x : String) → contains xs x ≡ false) → is_empty xs ≡ true
empty_of [] h = refl
empty_of (x ∷ xs) h = ground (arith, ==_self x, h x)

none_of : (xs : List String) (x : String) → is_empty xs ≡ true → contains xs x ≡ false
none_of [] x h = refl
none_of (y ∷ xs) x h = cc

module _ (s : ClaimSpec) (p : ClaimPolicy) where
  abbrev buckets : Buckets
  buckets = bucket p (uniq (get_or s.cited_refs []))

  in_bucket :
      (x : String)
      → let ok = contains p.allowed_evidence_refs x in
        let token = contains (get_or p.placeholder_tokens []) x in
        let cited = contains (get_or s.cited_refs []) x in
        (contains buckets.accepted x ≡ (cited && ok))
        × (contains buckets.placeholder x ≡ (cited && (not ok && token)))
        × (contains buckets.disallowed x ≡ (cited && (not ok && not token)))
  in_bucket x =
      rw (contains-uniq x (get_or s.cited_refs [])) at
        (contains-bucket p (uniq (get_or s.cited_refs [])) x)

  all_known :
      is_empty buckets.disallowed ≡ true → (x : String) → Cites s x → IsAllowed p x ⊎ IsToken p x
  all_known h x c = ground (arith, none_of buckets.disallowed x h, in_bucket x)

  some_accepted : is_empty buckets.accepted ≡ false → (x : String) × Cites s x × IsAllowed p x
  some_accepted h =
      let (x, e) = head_of buckets.accepted h in
      (x, ground (arith, in_bucket x), ground (arith, in_bucket x))

  some_placeholder : is_empty buckets.placeholder ≡ false → (x : String) × Cites s x × IsToken p x
  some_placeholder h =
      let (x, e) = head_of buckets.placeholder h in
      (x, ground (arith, in_bucket x), ground (arith, in_bucket x))

  nothing_cited :
      is_empty buckets.disallowed ≡ true
      → is_empty buckets.accepted ≡ true
      → is_empty buckets.placeholder ≡ true
      → (x : String) → ¬ Cites s x
  nothing_cited d a q x c = ground (
    arith,
    none_of buckets.disallowed x d,
    none_of buckets.accepted x a,
    none_of buckets.placeholder x q,
    in_bucket x,
  )

  IsBacked-of_passed : (check_writing_claim s p).passed ≡ true → IsBacked p s
  unfolding check_writing_claim
  IsBacked-of_passed h = (
    ground (arith, eq_iff s.id ""),
    ground (arith, eq_iff s.text ""),
    all_known (ground arith),
    support (Bool-cases (is_empty buckets.accepted)) (Bool-cases (is_empty buckets.placeholder)),
  )
    where
      support :
          (is_empty buckets.accepted ≡ true) ⊎ (is_empty buckets.accepted ≡ false)
          → (is_empty buckets.placeholder ≡ true) ⊎ (is_empty buckets.placeholder ≡ false)
          → Support s p
      support (inr a) _ = inl (some_accepted a)
      support (inl a) (inr q) = inr (inl (some_placeholder q, ground arith))
      support (inl a) (inl q) = inr (inr (nothing_cited (ground arith) a q, ground arith))

  none_disallowed :
      ((x : String) → Cites s x → IsAllowed p x ⊎ IsToken p x) → is_empty buckets.disallowed ≡ true
  none_disallowed known = empty_of buckets.disallowed (λ x. ground (arith, in_bucket x, known x))

  passed_of_Support :
      s.id ≢ ""
      → s.text ≢ ""
      → is_empty buckets.disallowed ≡ true
      → Support s p
      → (check_writing_claim s p).passed ≡ true
  unfolding check_writing_claim
  passed_of_Support id text d (inl (x, c, a)) =
      ground (arith, eq_iff s.id "", eq_iff s.text "", in_bucket x, none_of buckets.accepted x)
  passed_of_Support id text d (inr (inl ((x, c, q), on))) = ground (
    arith,
    eq_iff s.id "",
    eq_iff s.text "",
    in_bucket x,
    none_of buckets.accepted x,
    none_of buckets.placeholder x,
  )
  passed_of_Support id text d (inr (inr (none_cited, exempt))) =
      let a : is_empty buckets.accepted ≡ true =
        empty_of buckets.accepted (λ x. ground (arith, in_bucket x, none_cited x)) in
      let q : is_empty buckets.placeholder ≡ true =
        empty_of buckets.placeholder (λ x. ground (arith, in_bucket x, none_cited x)) in
      ground (arith, eq_iff s.id "", eq_iff s.text "")

-- A claim passes exactly when it has an id and a text, cites nothing that is neither allowed nor a
-- placeholder token, and either cites something allowed, or cites a placeholder where the stage
-- accepts those, or cites nothing and is exempt.
pub check_writing_claim_iff :
    (s : ClaimSpec) (p : ClaimPolicy) → ((check_writing_claim s p).passed ≡ true) ↔ IsBacked p s
check_writing_claim_iff s p = (
  IsBacked-of_passed s p,
  λ (id, text, known, support). passed_of_Support s p id text (none_disallowed s p known) support,
)

abbrev results_of : ClaimPolicy → List ClaimSpec → List ClaimResult
results_of p specs = map (λ s. check_writing_claim s p) specs

abbrev pass_count : ClaimPolicy → List ClaimSpec → ℕ
pass_count p specs = length (filter (λ (r : ClaimResult). r.passed) (results_of p specs))

All-IsBacked_of_count :
    (p : ClaimPolicy) (specs : List ClaimSpec)
    → length (results_of p specs) ≤ pass_count p specs
    → All (IsBacked p) specs
All-IsBacked_of_count p [] h = tt
All-IsBacked_of_count p (s ∷ specs) h = elim (Bool-cases (check_writing_claim s p).passed) [
  | inl pass ↦ (IsBacked-of_passed s p pass, All-IsBacked_of_count p specs (ground arith))
  | inr fail ↦
      absurd (ground (arith, length-filter (λ (r : ClaimResult). r.passed) (results_of p specs)))
]

count_of_All :
    (p : ClaimPolicy) (specs : List ClaimSpec)
    → All (IsBacked p) specs
    → length (results_of p specs) ≤ pass_count p specs
count_of_All p [] h = omega arith
count_of_All p (s ∷ specs) (b, h) =
    ground (arith, (check_writing_claim_iff s p).1 b, count_of_All p specs h)

-- The policy lets a submission through exactly when the mode is `flag`, or every claim is backed.
pub enforce_citation_policy_iff :
    (specs : List ClaimSpec) (p : ClaimPolicy) (mode : EnforcementMode)
    → ((enforce_citation_policy specs p (some mode)).verdict ≡ verdict_passed)
      ↔ ((mode ≡ flag) ⊎ All (IsBacked p) specs)
unfolding enforce_citation_policy check_writing_claim_batch
enforce_citation_policy_iff specs p flag = (λ h. inl refl, λ h. refl)
enforce_citation_policy_iff specs p strict = (
  λ h. inr (All-IsBacked_of_count p specs (ground arith)),
  λ h. elim h [ inl e ↦ cc | inr backed ↦ ground (arith, count_of_All p specs backed) ],
)
