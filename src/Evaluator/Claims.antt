-- ===== src/Evaluator/Claims.antt =====
-- packages/evaluator-sdk/src/writing-claims.ts: the citation check of academic-writing stages. The
-- human-readable notes are not modelled: a note says what the reason and the refs of its result say.
-- A summary is the list of the offending results that its text is made of.
pub mod Refs
pub mod Verdicts
use research_crafters.Prelude.{
  Bool, List, Option, String, [], contains, false, filter, get_or, if◌then◌else◌, length, ltb, map,
  nat_eq, none, not, some, string_eq, true, ℕ, ◌&&◌, ◌-◌, ◌==◌, ◌||◌, ◌∷◌,
}

pub data FailureReason : Type 0 where
  no_citation disallowed_citation placeholder_disallowed : FailureReason
  forbidden_claim spec_invalid : FailureReason

pub record ClaimSpec : Type 0 where
  pub id : String
  pub text : String
  pub cited_refs : Option (List String)
  pub requires_citation : Option Bool

pub record ClaimPolicy : Type 0 where
  pub allowed_evidence_refs : List String
  pub placeholder_tokens : Option (List String)
  pub placeholder_allowed : Option Bool

pub record ClaimResult : Type 0 where
  pub id : String
  pub passed : Bool
  pub flagged : Bool
  pub reason : Option FailureReason
  pub accepted_refs : List String
  pub disallowed_refs : List String
  pub placeholder_refs : List String

-- The loop of `uniq`.
uniq_from : List String → List String → List String
uniq_from seen [] = []
uniq_from seen (r ∷ refs) = elim (contains seen r) [
  | true ↦ uniq_from seen refs
  | false ↦ r ∷ uniq_from (r ∷ seen) refs
]

unfoldable pub uniq : List String → List String
unfolding uniq_from
uniq refs = uniq_from [] refs

abbrev pub invalid_spec : String → ClaimResult
invalid_spec id = record {
  id = id;
  passed = false;
  flagged = true;
  reason = some spec_invalid;
  accepted_refs = [];
  disallowed_refs = [];
  placeholder_refs = [];
}

pub record Buckets : Type 0 where
  pub accepted : List String
  pub disallowed : List String
  pub placeholder : List String

-- The loop that buckets the refs, in their order.
unfoldable pub bucket : ClaimPolicy → List String → Buckets
bucket p [] = record { accepted = []; disallowed = []; placeholder = [] }
bucket p (ref ∷ refs) =
    let b = bucket p refs in
    if contains p.allowed_evidence_refs ref
    then record b { accepted = ref ∷ b.accepted }
    else if contains (get_or p.placeholder_tokens []) ref
    then record b { placeholder = ref ∷ b.placeholder }
    else record b { disallowed = ref ∷ b.disallowed }

-- `value === true`
abbrev pub is_true : Option Bool → Bool
is_true none = false
is_true (some b) = b

-- `value !== false`
abbrev pub is_not_false : Option Bool → Bool
is_not_false none = true
is_not_false (some b) = b

abbrev pub is_empty : List String → Bool
is_empty [] = true
is_empty (x ∷ xs) = false

abbrev pub verdict_on : ClaimSpec → Buckets → Bool → Bool → Option FailureReason → ClaimResult
verdict_on s b passed flagged reason = record {
  id = s.id;
  passed = passed;
  flagged = flagged;
  reason = reason;
  accepted_refs = b.accepted;
  disallowed_refs = b.disallowed;
  placeholder_refs = b.placeholder;
}

unfoldable pub judge : ClaimSpec → ClaimPolicy → Buckets → ClaimResult
judge s p b =
    if not (is_empty b.disallowed)
    then verdict_on s b false true (some disallowed_citation)
    else if not (is_empty b.accepted)
    then verdict_on s b true (not (is_empty b.placeholder)) none
    else if not (is_empty b.placeholder)
    then (if is_true p.placeholder_allowed
        then verdict_on s b true true none
        else verdict_on s b false true (some placeholder_disallowed))
    else if not (is_not_false s.requires_citation)
    then verdict_on s b true false none
    else verdict_on s b false true (some no_citation)

-- `checkWritingClaim`
unfoldable pub check_writing_claim : ClaimSpec → ClaimPolicy → ClaimResult
unfolding judge
check_writing_claim s p =
    if s.id == ""
    then invalid_spec ""
    else if s.text == ""
    then invalid_spec s.id
    else judge s p (bucket p (uniq (get_or s.cited_refs [])))

pub record ClaimBatch : Type 0 where
  pub results : List ClaimResult
  pub total : ℕ
  pub passed : ℕ
  pub failed : ℕ
  pub flagged : ℕ

-- `checkWritingClaimBatch`
unfoldable pub check_writing_claim_batch : List ClaimSpec → ClaimPolicy → ClaimBatch
check_writing_claim_batch specs p =
    let results = map (λ s. check_writing_claim s p) specs in
    let passed = length (filter (λ (r : ClaimResult). r.passed) results) in
    record {
      results = results;
      total = length results;
      passed = passed;
      failed = length results - passed;
      flagged = length (filter (λ (r : ClaimResult). r.flagged) results);
    }

pub data EnforcementMode : Type 0 where
  strict flag : EnforcementMode

pub data EnforcementVerdict : Type 0 where
  verdict_passed verdict_failed : EnforcementVerdict

pub record EnforcementResult : Type 0 where
  pub verdict : EnforcementVerdict
  pub mode : EnforcementMode
  pub batch : ClaimBatch
  pub summary : List ClaimResult

abbrev pub is_strict : EnforcementMode → Bool
is_strict strict = true
is_strict flag = false

-- `enforceCitationPolicy`; the mode defaults to `strict`.
unfoldable pub enforce_citation_policy :
    List ClaimSpec → ClaimPolicy → Option EnforcementMode → EnforcementResult
enforce_citation_policy specs p mode? =
    let mode = get_or mode? strict in
    let batch = check_writing_claim_batch specs p in
    record {
      verdict = if is_strict mode && ltb 0 batch.failed then verdict_failed else verdict_passed;
      mode = mode;
      batch = batch;
      summary = filter (λ (r : ClaimResult). not r.passed || r.flagged) batch.results;
    }
