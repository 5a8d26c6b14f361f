-- ===== src/Content/Pedagogy/Sound.antt =====
-- What a package is like that the pedagogy layer passes.
use research_crafters.Prelude.{
  Bool, all, codes_eq, contains, false, get_or, leb, length, nat_eq, none, not, some, string_eq,
  true, ◌&&◌, ◌==◌, ◌||◌,
}
use research_crafters.Prelude.Dict.{lookup}
use research_crafters.Content.Pedagogy.{
  Course, LeakOutcome, Lesson, TextTests, filled, given, has_deterministic_contract,
  has_writing_evidence, math_input_modes, mentor_reads_sensitive, ran, skipped, uses_llm_grading,
}

-- Hints that are there are not empty.
abbrev pub hints_sound : Course → Lesson → Bool
hints_sound c s = elim s.progressive [
  | none ↦ true
  | some ref ↦
      ref == "" || elim (lookup c.hint_entries ref) [ none ↦ true | some entries ↦ filled entries ]
]

-- Grounded in the paper, with structured input and something to grade by.
abbrev pub math_sound : Lesson → Bool
math_sound s =
    filled s.artifact_refs
    && ((filled s.evidence_refs || filled s.source_refs)
        && ((contains math_input_modes s.input_mode || filled s.steps)
            && (given s.rubric || has_deterministic_contract s)))

-- Graded by a rubric that is there and has dimensions.
abbrev pub rubric_sound : Course → Lesson → Bool
rubric_sound c s =
    (uses_llm_grading s && given s.rubric)
    && elim (lookup c.rubric_dimensions (get_or s.rubric "")) [ none ↦ false | some ds ↦ filled ds ]

abbrev pub writing_sound : Course → Lesson → Bool
writing_sound c s = has_writing_evidence s && rubric_sound c s

abbrev pub lesson_sound : TextTests → Course → Lesson → Bool
lesson_sound texts c s =
    (not (s.prompt_md == "") && leb 10 (texts.trimmed_length s.prompt_md))
    && (hints_sound c s
        && (not (s.validation_kind == "")
            && ((not (uses_llm_grading s || mentor_reads_sensitive s) || filled s.leak_tests)
                && ((not (s.stage_type == "math") || math_sound s)
                    && (not (s.stage_type == "writing") || writing_sound c s)))))

-- No attack leaked.
abbrev pub no_leak : LeakOutcome → Bool
no_leak skipped = true
no_leak (ran attacks) = length attacks == 0

abbrev pub tight : (Lesson → LeakOutcome) → Lesson → Bool
tight leaks s = no_leak (leaks s)

abbrev pub course_sound : TextTests → Bool → (Lesson → LeakOutcome) → Course → Bool
course_sound texts skip_leak_tests leaks c =
    all (lesson_sound texts c) c.lessons && (skip_leak_tests || all (tight leaks) c.lessons)
