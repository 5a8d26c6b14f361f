-- ===== src/Content/Pedagogy/Clean.antt =====
-- When the pedagogy layer finds no error.
use research_crafters.Prelude.{
  Bool, List, Option-cases, String, [], arith, codes_eq, contains, false, get_or, if◌then◌else◌,
  inl, inr, leb, nat_eq, not, refl, string_eq, true, ◌&&◌, ◌==◌, ◌||◌, ◌∷◌, ◌≡◌,
}
use research_crafters.Prelude.Dict.{lookup}
use research_crafters.Content.Issues.{
  Issue, clean, clean-append_as, clean-append_harmless, clean-each_as, clean-error,
  clean-harmless_append, clean-none, clean-warning, each, report_of-ok_as,
}
use research_crafters.Content.Pedagogy.{
  Course, LeakOutcome, Lesson, TextTests, canonical_gated, filled, given,
  has_deterministic_contract, has_guidance, has_revision_signal, has_writing_evidence, hint_issues,
  leak_issues, lesson_issues, math_input_modes, math_issues, mentor_reads_sensitive, outcome_issues,
  ran, skipped, uses_llm_grading, validate_pedagogy, writing_issues, writing_rubric_issues,
}
use research_crafters.Content.Pedagogy.Sound.{
  course_sound, hints_sound, lesson_sound, math_sound, no_leak, rubric_sound, tight, writing_sound,
}

hint_issues-clean : (c : Course) (s : Lesson) → clean (hint_issues c s) ≡ hints_sound c s
unfolding clean hint_issues
hint_issues-clean c s = elim (Option-cases s.progressive) [
  | inl absent ↦ ground (arith, absent)
  | inr (ref, is) ↦ elim (Option-cases (lookup c.hint_entries ref)) [
    | inl missing ↦ ground (arith, is, missing)
    | inr (entries, found) ↦ ground (arith, is, found)
  ]
]

math_issues-clean : (s : Lesson) → clean (math_issues s) ≡ math_sound s
unfolding math_issues
math_issues-clean s = clean-append_as _ _ (clean-error (filled s.artifact_refs) _ _) (
    clean-append_as _ _ (clean-error (filled s.evidence_refs || filled s.source_refs) _ _) (
      clean-harmless_append _ _ (clean-warning (given s.stage_subtype) _ _) (
        clean-append_as _ _
          (clean-error (contains math_input_modes s.input_mode || filled s.steps) _ _)
          (clean-append_harmless _ _
            (clean-error (given s.rubric || has_deterministic_contract s) _ _)
            (clean-warning (not (filled s.steps) || has_guidance s) _ _)))))

writing_rubric_issues-clean :
    (c : Course) (s : Lesson) → clean (writing_rubric_issues c s) ≡ rubric_sound c s
unfolding clean writing_rubric_issues
writing_rubric_issues-clean c s =
    elim (Option-cases (lookup c.rubric_dimensions (get_or s.rubric ""))) [
      | inl missing ↦ ground (arith, missing)
      | inr (dimensions, found) ↦ ground (arith, found)
    ]

writing_issues-clean :
    (texts : TextTests) (c : Course) (s : Lesson)
    → clean (writing_issues texts c s) ≡ writing_sound c s
unfolding writing_issues
writing_issues-clean texts c s = clean-append_as _ _ (clean-error (has_writing_evidence s) _ _) (
    clean-harmless_append _ _
      (clean-warning (texts.speaks_of_citing s.prompt_md || s.has_citation_policy) _ _)
      (clean-append_harmless _ _ (writing_rubric_issues-clean c s)
        (clean-warning (has_revision_signal texts s) _ _)))

clean-if :
    (c : Bool) (is : List Issue) {p : Bool}
    → clean is ≡ p
    → clean (if c then is else []) ≡ (not c || p)
clean-if true is e = e
clean-if false is e = clean-none

clean-unless :
    (c : Bool) (is : List Issue) {p : Bool} → clean is ≡ p → clean (if c then [] else is) ≡ (c || p)
clean-unless true is e = clean-none
clean-unless false is e = e

lesson_issues-clean :
    (texts : TextTests) (c : Course) (s : Lesson)
    → clean (lesson_issues texts c s) ≡ lesson_sound texts c s
unfolding lesson_issues
lesson_issues-clean texts c s =
    clean-append_as _ _
      (clean-error (not (s.prompt_md == "") && leb 10 (texts.trimmed_length s.prompt_md)) _ _)
      (clean-append_as _ _ (hint_issues-clean c s) (
        clean-append_as _ _ (clean-error (not (s.validation_kind == "")) _ _) (
          clean-append_as _ _
            (clean-error
              (not (uses_llm_grading s || mentor_reads_sensitive s) || filled s.leak_tests) _ _)
            (clean-harmless_append _ _
              (clean-warning (not (canonical_gated s) || filled s.redaction_targets) _ _)
              (clean-append_as _ _
                (clean-if (s.stage_type == "math") (math_issues s) (math_issues-clean s))
                (clean-if (s.stage_type == "writing") (writing_issues texts c s)
                  (writing_issues-clean texts c s)))))))

outcome_issues-clean : (id : String) (o : LeakOutcome) → clean (outcome_issues id o) ≡ no_leak o
unfolding clean outcome_issues
outcome_issues-clean id skipped = refl
outcome_issues-clean id (ran []) = refl
outcome_issues-clean id (ran (attack ∷ attacks)) = ground arith

-- The pedagogy layer passes a package exactly if every stage has a task of ten characters or more, hints
-- that are not empty where their file is there, a kind of validation, and leak tests where a language
-- model grades or the mentor reads what is sensitive; a mathematical stage has artifacts, evidence or
-- sources, structured input, and a rubric or another contract to grade by; a writing stage has evidence
-- and is graded by a rubric that is there and has dimensions; and, unless leak tests are skipped, no
-- attack on a stage leaked.
pub validate_pedagogy-ok :
    (texts : TextTests) (skip_leak_tests : Bool) (leaks : Lesson → LeakOutcome) (c : Course)
    → (validate_pedagogy texts skip_leak_tests leaks c).ok
      ≡ course_sound texts skip_leak_tests leaks c
unfolding validate_pedagogy
validate_pedagogy-ok texts skip_leak_tests leaks c = report_of-ok_as _ (
    clean-append_as _ _
      (clean-each_as (lesson_issues texts c) (lesson_sound texts c) c.lessons
        (lesson_issues-clean texts c))
      (clean-unless skip_leak_tests (each (leak_issues leaks) c.lessons) (
        clean-each_as (leak_issues leaks) (tight leaks) c.lessons
          (λ s. outcome_issues-clean s.id (leaks s)))))
