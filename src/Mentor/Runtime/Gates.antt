-- ===== src/Mentor/Runtime/Gates.antt =====
-- About requests that are turned away.
use research_crafters.Prelude.{Bool, arith, false, true, ◌≡◌}
use research_crafters.Mentor.Context.{MentorContext}
use research_crafters.Mentor.Redaction.{Gateway, Matcher}
use research_crafters.Mentor.Runtime.{
  MentorState, RuntimeInput, RuntimeOutcome, Wiring, context_for, converse, persist_answer,
  policy_misconfig, rate_limit, rate_limited, run_mentor_request,
}

-- Whether a request was turned away before its context was built.
abbrev pub is_turned_away : RuntimeOutcome → Bool
is_turned_away (policy_misconfig scope) = true
is_turned_away (rate_limited scope seconds) = true
is_turned_away _ = false

module _ (w : Wiring) where
  converse-not_turned_away :
      (i : RuntimeInput) (context : MentorContext) (s : MentorState)
      → is_turned_away (converse w i context s).0 ≡ false
  unfolding converse persist_answer
  converse-not_turned_away i context s = ground arith

  -- The gates come first: a request that is turned away, by a policy that opens a solution or by
  -- the rate limit, changes nothing but the windows of the limiter, and its outcome and its state
  -- are the same with any other gateway and any other matcher.
  pub run_mentor_request-turned_away :
      (i : RuntimeInput) (s : MentorState) (gateway' : Gateway) (matcher' : Matcher)
      → is_turned_away (run_mentor_request w i s).0 ≡ true
      → ((run_mentor_request w i s).1 ≡ record s { limiter = (run_mentor_request w i s).1.limiter })
        × (run_mentor_request (record w { gateway = gateway'; matcher = matcher' }) i s
            ≡ run_mentor_request w i s)
  unfolding run_mentor_request rate_limit
  run_mentor_request-turned_away i s gateway' matcher' h = ground (
    arith,
    converse-not_turned_away i (context_for w i s.cache).0
        (record s { limiter = (rate_limit w i s.limiter).1; cache = (context_for w i s.cache).1 }),
  )
