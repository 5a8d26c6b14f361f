-- ===== src/Runner/RetryBudget.antt =====
-- apps/web/lib/abuse-budget.ts: how attempts count towards the budget of runner executions.
use research_crafters.Prelude.{
  Bool, Bool-cases, List, Option, String, [], arith, codes_eq, contains, eq_iff, eq_of_==, false,
  filter, if◌then◌else◌, inl, inr, length, nat_eq, none, not, refl, some, string_eq, subst, sym,
  true, ℕ, ◌&&◌, ◌+◌, ◌<◌, ◌==◌, ◌||◌, ◌↔◌, ◌∷◌, ◌≡◌,
}
use research_crafters.Prelude.Number.{Number, int, is_finite, ltb_number, pos}

pub data AttemptClass : Type 0 where
  graded retry pending not_required : AttemptClass

abbrev retry_statuses : List String
retry_statuses = "timeout" ∷ "oom" ∷ "crash" ∷ "exit_nonzero" ∷ []

-- `classifyAttempt`; `none` is null or undefined. The pending statuses, the empty text and unknown
-- texts all end in `pending`.
unfoldable pub classify_attempt : Option String → AttemptClass
classify_attempt none = pending
classify_attempt (some status) =
    if status == "not_required"
    then not_required
    else if status == ""
    then pending
    else if status == "ok"
    then graded
    else if contains retry_statuses status
    then retry
    else pending

pub record Summary : Type 0 where
  pub graded_attempts : ℕ
  pub retry_attempts : ℕ
  pub pending_attempts : ℕ
  pub not_required_attempts : ℕ
  pub retry_budget_used : ℕ

abbrev pub empty_summary : Summary
empty_summary = record {
  graded_attempts = 0;
  retry_attempts = 0;
  pending_attempts = 0;
  not_required_attempts = 0;
  retry_budget_used = 0;
}

-- The four counters of the loop; the budget is set at its end.
abbrev pub count : AttemptClass → Summary → Summary
count graded s = record s { graded_attempts = s.graded_attempts + 1 }
count retry s = record s { retry_attempts = s.retry_attempts + 1 }
count pending s = record s { pending_attempts = s.pending_attempts + 1 }
count not_required s = record s { not_required_attempts = s.not_required_attempts + 1 }

unfoldable pub count_all : List (Option String) → Summary → Summary
count_all [] s = s
count_all (a ∷ attempts) s = count_all attempts (count (classify_attempt a) s)

-- `summarizeAttempts`
unfoldable pub summarize_attempts : List (Option String) → Summary
summarize_attempts attempts =
    let s = count_all attempts empty_summary in
    record s { retry_budget_used = s.graded_attempts + s.retry_attempts }

-- `checkAbuseBudget`, without the text of its reason.
unfoldable pub check_abuse_budget : Summary → Number → Bool
check_abuse_budget s limit =
    if not (is_finite limit) || not (ltb_number (int (pos 0)) limit)
    then true
    else ltb_number (int (pos s.retry_budget_used)) limit

-- Whether an attempt's run went well, or failed by its time, its memory or its exit.
abbrev pub went_well : Option String → Bool
went_well none = false
went_well (some status) = status == "ok"

abbrev pub failed_statuses : List String
failed_statuses = "exit_nonzero" ∷ "crash" ∷ "oom" ∷ "timeout" ∷ []

abbrev pub failed : Option String → Bool
failed none = false
failed (some status) = contains failed_statuses status

-- Whether an attempt used the runner.
abbrev pub used_runner : Option String → Bool
used_runner a = went_well a || failed a

abbrev pub total : Summary → ℕ
total s = s.graded_attempts + s.retry_attempts + s.pending_attempts + s.not_required_attempts

-- Is a text the given one?
by_text :
    (P : String → Type 0) (status known : String)
    → P known
    → (status == known ≡ false → known == status ≡ false → P status)
    → P status
by_text P status known at other = elim (Bool-cases (status == known)) [
  | inl same ↦ subst P (sym (eq_of_== status known same)) at
  | inr ne ↦ other ne (ground (arith, ne, eq_iff status known, eq_iff known status))
]

-- What holds of the texts that the code knows and of any other holds of all.
by_status :
    (P : String → Type 0) (status : String)
    → P "ok" × P "timeout" × P "oom" × P "crash" × P "exit_nonzero"
    → (status == "ok" ≡ false
        → contains retry_statuses status ≡ false
        → contains failed_statuses status ≡ false
        → P status)
    → P status
by_status P status (ok, timeout, oom, crash, exit) other = by_text P status "ok" ok (λ a _.
    by_text P status "timeout" timeout (λ _ b. by_text P status "oom" oom (λ _ c.
      by_text P status "crash" crash (λ _ d.
        by_text P status "exit_nonzero" exit
          (λ _ e. other a (ground (arith, b, c, d, e)) (ground (arith, b, c, d, e)))))))

count-classify :
    (a : Option String) (s : Summary)
    → ((count (classify_attempt a) s).graded_attempts
        ≡ s.graded_attempts + (if went_well a then 1 else 0))
      × ((count (classify_attempt a) s).retry_attempts
          ≡ s.retry_attempts + (if failed a then 1 else 0))
unfolding classify_attempt
count-classify none s = (omega arith, omega arith)
count-classify (some status) s =
    by_status
      (λ t.
        ((count (classify_attempt (some t)) s).graded_attempts
          ≡ s.graded_attempts + (if went_well (some t) then 1 else 0))
        × ((count (classify_attempt (some t)) s).retry_attempts
            ≡ s.retry_attempts + (if failed (some t) then 1 else 0)))
      status
      (
        (omega arith, omega arith),
        (omega arith, omega arith),
        (omega arith, omega arith),
        (omega arith, omega arith),
        (omega arith, omega arith),
      )
      (λ well known ill. (ground (arith, well, known, ill), ground (arith, well, known, ill)))

count_all-classify :
    (attempts : List (Option String)) (s : Summary)
    → ((count_all attempts s).graded_attempts
        ≡ s.graded_attempts + length (filter went_well attempts))
      × ((count_all attempts s).retry_attempts ≡ s.retry_attempts + length (filter failed attempts))
unfolding count_all
count_all-classify [] s = (omega arith, omega arith)
count_all-classify (a ∷ attempts) s =
    let (well, ill) = count-classify a s in
    let (well', ill') = count_all-classify attempts (count (classify_attempt a) s) in
    (ground (arith, well, well'), ground (arith, ill, ill'))

went_well-failed : (status : String) → (went_well (some status) && failed (some status)) ≡ false
went_well-failed status =
    by_status (λ t. (went_well (some t) && failed (some t)) ≡ false) status
      (refl, refl, refl, refl, refl) (λ well known ill. ground (arith, well))

used-split :
    (attempts : List (Option String))
    → length (filter used_runner attempts)
      ≡ length (filter went_well attempts) + length (filter failed attempts)
used-split [] = refl
used-split (none ∷ attempts) = used-split attempts
used-split (some status ∷ attempts) = ground (arith, used-split attempts, went_well-failed status)

count_all-total :
    (attempts : List (Option String)) (s : Summary)
    → total (count_all attempts s) ≡ total s + length attempts
unfolding count_all
count_all-total [] s = omega arith
count_all-total (a ∷ attempts) s =
    ground (arith, count_all-total attempts (count (classify_attempt a) s))

-- Failed runs are charged, and never as graded attempts: the graded attempts are those with the status
-- `ok`, the retries are those with `timeout`, `oom`, `crash` or `exit_nonzero`, the budget used is the
-- number of both, and every attempt is counted once.
pub summarize_attempts-budget :
    (attempts : List (Option String))
    → let s = summarize_attempts attempts in
      (s.graded_attempts ≡ length (filter went_well attempts))
      × (s.retry_attempts ≡ length (filter failed attempts))
      × (s.retry_budget_used ≡ length (filter used_runner attempts))
      × (total s ≡ length attempts)
unfolding summarize_attempts
summarize_attempts-budget attempts =
    let (well, ill) = count_all-classify attempts empty_summary in
    (
      omega (arith, well),
      omega (arith, ill),
      omega (arith, well, ill, used-split attempts),
      omega (arith, count_all-total attempts empty_summary),
    )

-- The retry budget is a hard cap under any limit above zero: after the attempts so far, another run
-- is allowed exactly if fewer of them than the limit used the runner.
pub check_abuse_budget_iff :
    (attempts : List (Option String)) (limit : ℕ)
    → 0 < limit
    → (check_abuse_budget (summarize_attempts attempts) (int (pos limit)) ≡ true)
      ↔ (length (filter used_runner attempts) < limit)
unfolding check_abuse_budget
check_abuse_budget_iff attempts limit some_limit =
    let (_, _, used, _) = summarize_attempts-budget attempts in
    (λ h. ground arith, λ h. ground arith)
