-- ===== src/Mentor/Redaction/Laws.antt =====
-- About the redactor and the detector.
use research_crafters.Prelude.{
  Bool-cases, List, String, [], ap, arith, false, inl, inr, nat_eq, refl, string_eq, true, ◌++◌,
  ◌==◌, ◌↔◌, ◌∷◌, ◌≡◌, ◌⊎◌,
}
use research_crafters.Mentor.Redaction.{
  Matcher, RedactionResult, find_redaction_evidence, redact, redact_from,
}

nil_cases : (xs : List String) → (xs ≡ []) ⊎ ((x : String) × (ys : List String) × (xs ≡ x ∷ ys))
nil_cases [] = inl refl
nil_cases (x ∷ xs) = inr (x, xs, refl)

module _ (m : Matcher) where
  -- The result once a target has matched.
  abbrev matched_step : RedactionResult → String → RedactionResult
  matched_step r t = record {
    text = m.replace_all t r.text;
    triggered = true;
    matched_targets = r.matched_targets ++ t ∷ [];
  }

  redact_from-triggered :
      (r : RedactionResult) (targets : List String)
      → r.triggered ≡ true
      → (redact_from m r targets).triggered ≡ true
  unfolding redact_from
  redact_from-triggered r [] h = h
  redact_from-triggered r (t ∷ targets) h = ground (
    arith,
    redact_from-triggered r targets h,
    redact_from-triggered (matched_step r t) targets refl,
  )

  redact_from_iff :
      (r : RedactionResult) (targets : List String)
      → r.triggered ≡ false
      → ((redact_from m r targets).triggered ≡ false)
        ↔ (find_redaction_evidence m r.text targets ≡ [])
  unfolding redact_from find_redaction_evidence
  redact_from_iff r [] h = (λ e. refl, λ e. h)
  redact_from_iff r (t ∷ targets) h =
      let later = redact_from-triggered (matched_step r t) targets refl in
      let (to, from) = redact_from_iff r targets h in
      elim (Bool-cases (t == "")) [
        | inl empty ↦ (λ e. ground (arith, to), λ e. ground (arith, from))
        | inr some_text ↦ elim (nil_cases (m.find_all t r.text)) [
          | inl nothing ↦ (λ e. ground (arith, to), λ e. ground (arith, from))
          | inr (x, xs, found) ↦ (λ e. ground arith, λ e. ground arith)
        ]
      ]

  redact_from-untouched :
      (r : RedactionResult) (targets : List String)
      → (redact_from m r targets).triggered ≡ false
      → redact_from m r targets ≡ r
  unfolding redact_from
  redact_from-untouched r [] h = refl
  redact_from-untouched r (t ∷ targets) h = ground (
    arith,
    redact_from-untouched r targets,
    redact_from-triggered (matched_step r t) targets refl,
  )

  -- Redaction acts exactly on evidence: the redactor is triggered by a text if and only if the
  -- detector finds evidence of a target in it, and a text that does not trigger it is left as it is.
  pub redact_iff :
      (input : String) (targets : List String)
      → (((redact m input targets).triggered ≡ false)
          ↔ (find_redaction_evidence m input targets ≡ []))
        × ((redact m input targets).triggered ≡ false → (redact m input targets).text ≡ input)
  unfolding redact
  redact_iff input targets =
      let start : RedactionResult = record {
        text = input;
        triggered = false;
        matched_targets = [];
      } in
      (
        redact_from_iff start targets refl,
        λ h. ap (λ r. r.text) (redact_from-untouched start targets h),
      )
