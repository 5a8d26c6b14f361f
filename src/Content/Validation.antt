-- ===== src/Content/Validation.antt =====
-- packages/content-sdk/src/validator/index.ts and issues.ts: the layers one after another. What the
-- structural layer and the sandbox layer report, and what `loadPackage` returns or throws, are
-- arguments.
use research_crafters.Prelude.{
  All, Bool, List, Option, String, [], all, arith, codes_eq, false, if◌then◌else◌, length,
  length-append, nat_eq, none, not, refl, some, string_eq, ◌&&◌, ◌++◌, ◌==◌, ◌∷◌, ◌≡◌,
}
use research_crafters.Content.Issues.{
  ValidationReport, clean-error, empty_report, error_unless, finalize_report, report_of,
  report_of-ok_as,
}
use research_crafters.Content.CrossLink.{LoadedPackage, validate_ara_cross_link}
use research_crafters.Content.CrossLink.Closed.{package_closed, validate_ara_cross_link-ok}
use research_crafters.Content.Pedagogy.{Course, LeakOutcome, Lesson, TextTests, validate_pedagogy}
use research_crafters.Content.Pedagogy.Sound.{course_sound}
use research_crafters.Content.Pedagogy.Clean.{validate_pedagogy-ok}

-- `mergeReports`
unfoldable pub merged : ValidationReport → List ValidationReport → ValidationReport
merged r [] = r
merged r (s ∷ reports) =
    merged
      (record r {
        errors = r.errors ++ s.errors;
        warnings = r.warnings ++ s.warnings;
        infos = r.infos ++ s.infos;
      })
      reports

abbrev pub merge_reports : List ValidationReport → ValidationReport
merge_reports reports = finalize_report (merged empty_report reports)

-- What is loaded: the parts that the cross-link layer and the pedagogy layer read.
pub record Loaded : Type 0 where
  pub linked : LoadedPackage
  pub course : Course

-- The functions that the layers call, and the option of the pedagogy layer.
pub record Layers : Type 0 where
  pub join : String → String → String
  pub texts : TextTests
  pub skip_leak_tests : Bool
  pub leaks : Lesson → LeakOutcome
  pub sandbox : Loaded → ValidationReport

-- `validatePackage`
unfoldable pub validate_package : Layers → ValidationReport → Option Loaded → ValidationReport
validate_package l structural loaded =
    if not structural.ok then finalize_report structural else elim loaded [
      | none ↦ report_of (error_unless false "package.load_failed" "")
      | some p ↦ merge_reports (
          structural
          ∷ validate_ara_cross_link l.join p.linked
          ∷ l.sandbox p
          ∷ validate_pedagogy l.texts l.skip_leak_tests l.leaks p.course
          ∷ [])
    ]

-- A report whose flag is that of its errors.
abbrev pub IsFinal : ValidationReport → Type 0
IsFinal r = r.ok ≡ (length r.errors == 0)

merged-errors :
    (r : ValidationReport) (reports : List ValidationReport)
    → All IsFinal reports
    → (length (merged r reports).errors == 0)
      ≡ (length r.errors == 0 && all (λ (s : ValidationReport). s.ok) reports)
unfolding merged
merged-errors r [] final = ground arith
merged-errors r (s ∷ reports) (here, final) = ground (
  arith,
  here,
  length-append r.errors s.errors,
  merged-errors
      (record r {
        errors = r.errors ++ s.errors;
        warnings = r.warnings ++ s.warnings;
        infos = r.infos ++ s.infos;
      })
      reports final,
)

pub validate_ara_cross_link-IsFinal :
    (join : String → String → String) (pkg : LoadedPackage)
    → IsFinal (validate_ara_cross_link join pkg)
unfolding validate_ara_cross_link
validate_ara_cross_link-IsFinal join pkg = refl

pub validate_pedagogy-IsFinal :
    (texts : TextTests) (skip : Bool) (leaks : Lesson → LeakOutcome) (c : Course)
    → IsFinal (validate_pedagogy texts skip leaks c)
unfolding validate_pedagogy
validate_pedagogy-IsFinal texts skip leaks c = refl

-- All layers pass.
abbrev pub package_valid : Layers → ValidationReport → Option Loaded → Bool
package_valid l structural loaded = structural.ok && elim loaded [
  | none ↦ false
  | some p ↦
      package_closed l.join p.linked
      && ((l.sandbox p).ok && course_sound l.texts l.skip_leak_tests l.leaks p.course)
]

-- Where the flags of the structural and the sandbox report are those of their errors, validatePackage
-- passes a package exactly if the structural layer does, the package can be loaded, it is closed as the
-- cross-link layer asks (`package_closed`: what counts as an error there does not occur, while warnings,
-- as for hints, next nodes and the artifacts of tree nodes, are let pass), the sandbox layer passes, and
-- its stages are sound as the pedagogy layer asks (`course_sound`).
pub validate_package-ok :
    (l : Layers) (structural : ValidationReport) (loaded : Option Loaded)
    → IsFinal structural
    → ((p : Loaded) → IsFinal (l.sandbox p))
    → (validate_package l structural loaded).ok ≡ package_valid l structural loaded
unfolding validate_package
validate_package-ok l structural none final boxed =
    ground (arith, final, report_of-ok_as _ (clean-error false "package.load_failed" ""))
validate_package-ok l structural (some p) final boxed =
    let cross = validate_ara_cross_link l.join p.linked in
    let taught = validate_pedagogy l.texts l.skip_leak_tests l.leaks p.course in
    ground (
      arith,
      final,
      validate_ara_cross_link-ok l.join p.linked,
      validate_pedagogy-ok l.texts l.skip_leak_tests l.leaks p.course,
      merged-errors empty_report (structural ∷ cross ∷ l.sandbox p ∷ taught ∷ []) (
        final,
        (
          validate_ara_cross_link-IsFinal l.join p.linked,
          (boxed p, (validate_pedagogy-IsFinal l.texts l.skip_leak_tests l.leaks p.course, tt)),
        ),
      ),
    )
