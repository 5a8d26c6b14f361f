-- ===== src/Content/Issues.antt =====
-- packages/content-sdk/src/validator/issues.ts: issues and reports. Of an issue its severity, its code
-- and what it refers to are kept; a loop that pushes issues is the list of them.
use research_crafters.Prelude.{
  Bool, List, String, [], all, all-congr, any, any-append, arith, codes_eq, false, if◌then◌else◌,
  inl, inr, length, length-append, nat_eq, not, refl, string_eq, true, ◌&&◌, ◌++◌, ◌==◌, ◌∙◌, ◌∷◌,
  ◌≡◌, ◌⊎◌,
}

pub data IssueSeverity : Type 0 where
  error warning info : IssueSeverity

pub record Issue : Type 0 where
  pub severity : IssueSeverity
  pub code : String
  pub ref : String

pub record ValidationReport : Type 0 where
  pub ok : Bool
  pub errors : List Issue
  pub warnings : List Issue
  pub infos : List Issue

abbrev pub is_error : Issue → Bool
is_error i = elim i.severity [ error ↦ true | _ ↦ false ]

abbrev pub empty_report : ValidationReport
empty_report = record { ok = true; errors = []; warnings = []; infos = [] }

-- `pushIssue`
unfoldable pub push_issue : Issue → ValidationReport → ValidationReport
push_issue i r = elim i.severity [
  | error ↦ record r { errors = r.errors ++ i ∷ [] }
  | warning ↦ record r { warnings = r.warnings ++ i ∷ [] }
  | info ↦ record r { infos = r.infos ++ i ∷ [] }
]

unfoldable pub push_issues : List Issue → ValidationReport → ValidationReport
push_issues [] r = r
push_issues (i ∷ is) r = push_issues is (push_issue i r)

-- `finalize`
abbrev pub finalize_report : ValidationReport → ValidationReport
finalize_report r = record r { ok = length r.errors == 0 }

abbrev pub error_unless : Bool → String → String → List Issue
error_unless c code ref = if c then [] else record { severity = error; code = code; ref = ref } ∷ []

abbrev pub warning_unless : Bool → String → String → List Issue
warning_unless c code ref =
    if c then [] else record { severity = warning; code = code; ref = ref } ∷ []

abbrev pub info_issue : String → String → List Issue
info_issue code ref = record { severity = info; code = code; ref = ref } ∷ []

-- A loop that pushes the issues of each element.
abbrev pub each : {A : Type 0} → (A → List Issue) → List A → List Issue
each f [] = []
each f (x ∷ xs) = f x ++ each f xs

-- No issue is an error.
unfoldable pub clean : List Issue → Bool
clean is = not (any is_error is)

pub clean-append : (a b : List Issue) → clean (a ++ b) ≡ (clean a && clean b)
unfolding clean
clean-append a b = ground (arith, any-append is_error a b)

pub clean-append_as :
    (a b : List Issue) {p q : Bool} → clean a ≡ p → clean b ≡ q → clean (a ++ b) ≡ (p && q)
clean-append_as a b {p} {q} is_p is_q = ground (arith, is_p, is_q, clean-append a b)

pub clean-append_harmless :
    (a b : List Issue) {p : Bool} → clean a ≡ p → clean b ≡ true → clean (a ++ b) ≡ p
clean-append_harmless a b {p} is_p harmless = ground (arith, is_p, harmless, clean-append a b)

pub clean-harmless_append :
    (a b : List Issue) {p : Bool} → clean a ≡ true → clean b ≡ p → clean (a ++ b) ≡ p
clean-harmless_append a b {p} harmless is_p = ground (arith, is_p, harmless, clean-append a b)

pub clean-each :
    {A : Type 0} (f : A → List Issue) (xs : List A) → clean (each f xs) ≡ all (λ x. clean (f x)) xs
unfolding clean
clean-each f [] = refl
clean-each f (x ∷ xs) = ground (arith, clean-append (f x) (each f xs), clean-each f xs)

pub clean-each_as :
    {A : Type 0} (f : A → List Issue) (p : A → Bool) (xs : List A)
    → ((x : A) → clean (f x) ≡ p x)
    → clean (each f xs) ≡ all p xs
clean-each_as f p xs h = clean-each f xs ∙ all-congr (λ x. clean (f x)) p xs h

pub clean-none : clean [] ≡ true
unfolding clean
clean-none = refl

pub clean-error : (c : Bool) (code ref : String) → clean (error_unless c code ref) ≡ c
unfolding clean
clean-error true code ref = refl
clean-error false code ref = refl

pub clean-warning : (c : Bool) (code ref : String) → clean (warning_unless c code ref) ≡ true
unfolding clean
clean-warning true code ref = refl
clean-warning false code ref = refl

severity-cases : (s : IssueSeverity) → (s ≡ error) ⊎ (s ≡ warning) ⊎ (s ≡ info)
severity-cases error = inl refl
severity-cases warning = inr (inl refl)
severity-cases info = inr (inr refl)

push_issues-errors :
    (is : List Issue) (r : ValidationReport)
    → (length (push_issues is r).errors == 0) ≡ (length r.errors == 0 && clean is)
unfolding clean push_issues push_issue
push_issues-errors [] r = ground arith
push_issues-errors (i ∷ is) r =
    let rest = push_issues-errors is (push_issue i r) in
    let longer = length-append r.errors (i ∷ []) in
    elim (severity-cases i.severity) [
      | inl e ↦ ground (arith, e, rest, longer)
      | inr (inl e) ↦ ground (arith, e, rest, longer)
      | inr (inr e) ↦ ground (arith, e, rest, longer)
    ]

-- The report of the issues that a layer pushes.
abbrev pub report_of : List Issue → ValidationReport
report_of is = finalize_report (push_issues is empty_report)

pub report_of-ok : (is : List Issue) → (report_of is).ok ≡ clean is
report_of-ok is = push_issues-errors is empty_report

pub report_of-ok_as : (is : List Issue) {p : Bool} → clean is ≡ p → (report_of is).ok ≡ p
report_of-ok_as is e = report_of-ok is ∙ e
