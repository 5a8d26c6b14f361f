-- ===== src/Mentor/Runtime/Output.antt =====
-- About what is shown, stored and charged.
use research_crafters.Prelude.{
  List, Option, String, [], any, ap, arith, false, if◌then◌else◌, is_some, none, not, refl, some,
  sym, true, ◌++◌, ◌∙◌, ◌∷◌, ◌≡◌,
}
use research_crafters.Prelude.Number.{int, pos}
use research_crafters.Mentor.Context.{MentorContext}
use research_crafters.Mentor.Redaction.{GatewayResponse, Leak, default_attacks, is_nil, redact}
use research_crafters.Mentor.Spend.{record_spend}
use research_crafters.Mentor.Runtime.{
  Answer, MentorState, RuntimeInput, Wiring, answered, assistant_role, context_for, converse,
  leaks_of, learner_request, model_id_for, model_tier_for, persist_answer, rate_limit,
  record_request_spend, run_mentor_request, shown_for, targets_of, user_role,
}
use research_crafters.Mentor.Runtime.Attacks.{
  AttacksAnswered, exposes, run_leak_tests-AttacksAnswered,
}

some_of {ℓ} : {A : Type ℓ} (o : Option A) → is_some o ≡ true → (a : A) × (o ≡ some a)
some_of none h = ground arith
some_of (some a) h = (a, refl)

module _ (w : Wiring) where
  -- What an answer rests on: the response to the learner's request, and the answers to all the default
  -- attacks, which follow it with the same prompt, tier and model.
  abbrev pub Answers : RuntimeInput → Answer → Type 0
  Answers i a =
      (context : MentorContext) × (response : GatewayResponse) × (texts : List String) × (w.gateway
          0 (learner_request w i context)
        ≡ some response)
      × AttacksAnswered w.matcher w.gateway (model_tier_for i.mode)
          (model_id_for (model_tier_for i.mode)) context 1 default_attacks texts
      × (a.flagged ≡ any (exposes w.matcher (targets_of i)) texts)
      × (a.assistant_text ≡ (
          if a.flagged
          then w.refusal_text
          else (redact w.matcher response.answer (targets_of i)).text))

  shown_for-Answers :
      (i : RuntimeInput) (text : String) (leaks : List Leak)
      → ((shown_for w i text leaks).shown_flagged ≡ not (is_nil leaks))
        × ((shown_for w i text leaks).shown_text ≡ (
            if (shown_for w i text leaks).shown_flagged
            then w.refusal_text
            else (redact w.matcher text (targets_of i)).text))
  unfolding shown_for
  shown_for-Answers i text [] = (refl, refl)
  shown_for-Answers i text (leak ∷ leaks) = (refl, refl)

  converse-answered :
      (i : RuntimeInput) (context : MentorContext) (s : MentorState) (a : Answer)
      (response : GatewayResponse) (leaks : List Leak)
      → w.gateway 0 (learner_request w i context) ≡ some response
      → leaks_of w i context ≡ some leaks
      → (converse w i context s).0 ≡ answered a
      → (a.flagged ≡ (shown_for w i response.answer leaks).shown_flagged)
        × (a.assistant_text ≡ (shown_for w i response.answer leaks).shown_text)
  unfolding converse persist_answer
  converse-answered i context s a response leaks e e' h = ground arith

  converse-thrown :
      (i : RuntimeInput) (context : MentorContext) (s : MentorState) (a : Answer)
      → (converse w i context s).0 ≡ answered a
      → (is_some (w.gateway 0 (learner_request w i context)) ≡ true)
        × (is_some (leaks_of w i context) ≡ true)
  unfolding converse persist_answer
  converse-thrown i context s a h = ground arith

  converse-Answers :
      (i : RuntimeInput) (context : MentorContext) (s : MentorState) (a : Answer)
      → (converse w i context s).0 ≡ answered a
      → Answers i a
  converse-Answers i context s a h =
      let (sent, tested) = converse-thrown i context s a h in
      let (response, e) = some_of (w.gateway 0 (learner_request w i context)) sent in
      let (leaks, e') = some_of (leaks_of w i context) tested in
      let (flag, text) = converse-answered i context s a response leaks e e' h in
      let (flag', text') = shown_for-Answers i response.answer leaks in
      let (texts, asked, found) =
        run_leak_tests-AttacksAnswered w.matcher w.gateway (model_tier_for i.mode)
          (model_id_for (model_tier_for i.mode)) context (targets_of i) 1 default_attacks leaks
          e' in
      (
        context,
        response,
        texts,
        e,
        asked,
        flag ∙ flag' ∙ found,
        ground (arith, text, text', flag, flag'),
      )

  -- The transcript has the question and the answer, and the store the amount of the answer.
  abbrev pub Stored : RuntimeInput → String → Answer → MentorState → MentorState → Type 0
  Stored i user a s s' =
      (s'.messages
        ≡ s.messages
          ++ record {
            thread = a.thread_id;
            role = user_role;
            body_text = i.message;
            was_redacted = false;
            was_flagged = false;
          }
            ∷ record {
              thread = a.thread_id;
              role = assistant_role;
              body_text = a.assistant_text;
              was_redacted = a.redaction_triggered;
              was_flagged = a.flagged;
            }
            ∷ [])
      × (s'.spend
          ≡ record_spend w.now
              (record {
                user_id = user;
                package_id = i.version;
                stage_id = i.stage_of;
                usd = int (pos a.spent_usd);
              })
              s.spend)

  converse-stores :
      (i : RuntimeInput) (context : MentorContext) (s : MentorState) (a : Answer) (user : String)
      → (converse w i context s).0 ≡ answered a
      → i.caller.user ≡ some user
      → i.caller.has_spend_store ≡ true
      → Stored i user a s (converse w i context s).1
  unfolding converse persist_answer record_request_spend
  converse-stores i context s a user h u store = ground arith

  answered_by :
      (i : RuntimeInput) (s : MentorState) (a : Answer)
      → (run_mentor_request w i s).0 ≡ answered a
      → run_mentor_request w i s
        ≡ converse w i (context_for w i s.cache).0 (record s {
          limiter = (rate_limit w i s.limiter).1;
          cache = (context_for w i s.cache).1;
        })
  unfolding run_mentor_request
  answered_by i s a h = ground arith

  -- What a learner is shown: an answer rests on a response of the gateway to the request and on its
  -- answers to all the default attacks on the same prompt. It is flagged exactly if one of those answers
  -- exposes a redaction target, and then its text is the refusal copy; else its text is the redacted
  -- response.
  pub run_mentor_request-Answers :
      (i : RuntimeInput) (s : MentorState) (a : Answer)
      → (run_mentor_request w i s).0 ≡ answered a
      → Answers i a
  run_mentor_request-Answers i s a h =
      converse-Answers i _ _ a (ap (λ r. r.0) (sym (answered_by i s a h)) ∙ h)

  -- What is shown is what is stored and charged: for a known user and with a spend store, a request
  -- that is answered adds the question and then the answer, as it was shown, to the messages of its
  -- thread, and records the spend that the answer reports.
  pub run_mentor_request-Stored :
      (i : RuntimeInput) (s : MentorState) (a : Answer) (user : String)
      → (run_mentor_request w i s).0 ≡ answered a
      → i.caller.user ≡ some user
      → i.caller.has_spend_store ≡ true
      → Stored i user a s (run_mentor_request w i s).1
  run_mentor_request-Stored i s a user h u store =
      let run = answered_by i s a h in
      rw run (
        converse-stores i _
          (record s { limiter = (rate_limit w i s.limiter).1; cache = (context_for w i s.cache).1 })
          a user (ap (λ r. r.0) (sym run) ∙ h) u store)
