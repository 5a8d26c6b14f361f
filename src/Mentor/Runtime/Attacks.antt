-- ===== src/Mentor/Runtime/Attacks.antt =====
-- What the attacks find, told from the answers to them: packages/ai/src/leak-test.ts, `runLeakTests`.
use research_crafters.Prelude.{
  Bool, List, Option-cases, String, [], any, arith, codes_eq, inl, inr, nat_eq, not, refl, some,
  string_eq, suc, ℕ, ◌&&◌, ◌++◌, ◌==◌, ◌∷◌, ◌≡◌,
}
use research_crafters.Mentor.Context.{MentorContext}
use research_crafters.Mentor.Budget.{ModelTier}
use research_crafters.Mentor.Redaction.{
  Attack, Gateway, GatewayResponse, Leak, Matcher, attack_request, find_redaction_evidence, is_nil,
  run_leak_tests,
}

-- A text exposes a target that is not empty and that the matcher finds in it.
abbrev pub exposes : Matcher → List String → String → Bool
exposes m targets text = any (λ t. not (t == "") && not (is_nil (m.find_all t text))) targets

is_nil-append : {A : Type 0} (xs ys : List A) → is_nil (xs ++ ys) ≡ (is_nil xs && is_nil ys)
is_nil-append [] ys = refl
is_nil-append (x ∷ xs) ys = refl

find_redaction_evidence-exposes :
    (m : Matcher) (targets : List String) (text : String)
    → is_nil (find_redaction_evidence m text targets) ≡ not (exposes m targets text)
unfolding find_redaction_evidence
find_redaction_evidence-exposes m [] text = refl
find_redaction_evidence-exposes m (t ∷ targets) text = ground (
  arith,
  find_redaction_evidence-exposes m targets text,
  is_nil-append (m.find_all t text) (find_redaction_evidence m text targets),
)

module _ (m : Matcher) (gateway : Gateway) (tier : ModelTier) (model : String)
    (context : MentorContext) where
  -- The gateway's answers to the attacks, of which the first is the `n`-th request.
  abbrev pub AttacksAnswered : ℕ → List Attack → List String → Type 0
  AttacksAnswered n [] texts = texts ≡ []
  AttacksAnswered n (a ∷ attacks) texts =
      (response : GatewayResponse) × (rest : List String) × (gateway n
          (attack_request m gateway tier model context a)
        ≡ some response)
      × AttacksAnswered (suc n) attacks rest
      × (texts ≡ response.answer ∷ rest)

  pub run_leak_tests-AttacksAnswered :
      (targets : List String) (n : ℕ) (attacks : List Attack) (leaks : List Leak)
      → run_leak_tests m gateway tier model context targets n attacks ≡ some leaks
      → (texts : List String) × AttacksAnswered n attacks texts
        × (not (is_nil leaks) ≡ any (exposes m targets) texts)
  unfolding run_leak_tests
  run_leak_tests-AttacksAnswered targets n [] leaks e = ([], refl, ground (arith, e))
  run_leak_tests-AttacksAnswered targets n (a ∷ attacks) leaks e =
      elim (Option-cases (gateway n (attack_request m gateway tier model context a))) [
        | inl thrown ↦ absurd (ground (arith, e, thrown))
        | inr (response, answered) ↦
            elim (Option-cases
              (run_leak_tests m gateway tier model context targets (suc n) attacks)) [
                | inl thrown ↦ absurd (ground (arith, e, thrown, answered))
                | inr (more, found) ↦
                    let (rest, asked, same) =
                      run_leak_tests-AttacksAnswered targets (suc n) attacks more found in
                    (
                      response.answer ∷ rest,
                      (response, rest, answered, asked, refl),
                      ground (
                        arith,
                        e,
                        answered,
                        found,
                        same,
                        find_redaction_evidence-exposes m targets response.answer,
                      ),
                    )
              ]
      ]
