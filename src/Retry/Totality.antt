-- ===== src/Retry/Totality.antt =====
-- The recursion of retry.ts ends: what every call of it leads to, as one rule.
use pureq.Prelude.{
  ℕ, zero, suc, ◌+◌, ◌-◌, ◌≤◌, ◌<◌, ◌≡◌, refl, Bool, true, false, Option, none, some, ltb, arith,
  ltb→lt, Bool-cases, inl, inr,
}
use pureq.Retry.{
  Policy, World, Reply, response, network_error, RetryAfter, Trace, skip_method, give_up_budget,
  skip_budget, retry_network, retry_status, Progress, Outcome, returned, threw_network, threw_abort,
  is_retryable_status, network_wait, status_wait, exceeds_budget, log, waited, sleep_rejected,
  Result, retry_caught, caught, retry_replied, replied, execute_with_retry,
}

-- The recursion has come to an end, with `Q` of the outcome and the progress.
abbrev pub Ensures : (Outcome → Progress → Type 0) → Result → Type 0
Ensures Q none = ⊥
Ensures Q (some (o, s)) = Q o s

-- The time waited is within a budget that counts, a positive one.
abbrev pub Within : Option ℕ → ℕ → Type 0
Within none total = Unit
Within (some budget) total = 0 < budget → total ≤ budget

-- Progress between one call of `next` and the end of its `try`.
pub record Grows (p : Policy) (s s' : Progress) : Type 0 where
  pub attempts_le : s.attempts ≤ s'.attempts
  pub capped : s'.attempts ≤ p.max_retries
  pub same_calls : s'.calls ≡ s.calls
  pub budget : Within p.retry_budget_ms s.total_wait_ms → Within p.retry_budget_ms s'.total_wait_ms

exceeds_budget-Within :
    (p : Policy) (total wait : ℕ)
    → exceeds_budget p total wait ≡ false
    → Within p.retry_budget_ms total
    → Within p.retry_budget_ms (total + wait)
unfolding exceeds_budget
exceeds_budget-Within p total wait h b = ground arith

Grows-trans : (p : Policy) (a b c : Progress) → Grows p a b → Grows p b c → Grows p a c
Grows-trans p a b c g h = record {
  attempts_le = omega arith;
  capped = h.capped;
  same_calls = omega arith;
  budget = λ k. h.budget (g.budget k);
}

-- Why a response is handed back: its status is not one to retry, the attempts are used up, the
-- method is not one to retry, or the wait before the next attempt, for this reply and after the time
-- waited so far, would exceed the budget.
pub data Settled (p : Policy) (w : World) (safe : Bool) (status attempts total : ℕ) : Type 0 where
  fine :
      is_retryable_status status p.retry_on_status ≡ false → Settled p w safe status attempts total
  spent : attempts ≡ p.max_retries → Settled p w safe status attempts total
  unsafe_method : safe ≡ false → Settled p w safe status attempts total
  over_budget :
      (after : RetryAfter)
      → w.reply attempts ≡ response status after
      → exceeds_budget p total (status_wait p w after (attempts + 1)) ≡ true
      → Settled p w safe status attempts total

module _ (p : Policy) (w : World) (again : Progress → Result)
    (Q : Outcome → Progress → Type 0) where
  -- A wait at `n` attempts that the budget allows.
  step-Grows :
      (s : Progress) (wait : ℕ) (t : Trace)
      → s.attempts < p.max_retries
      → exceeds_budget p s.total_wait_ms wait ≡ false
      → Grows p s (waited (log (record s { attempts = s.attempts + 1 }) t) wait)
  step-Grows s wait t small fits = record {
    attempts_le = omega arith;
    capped = omega arith;
    same_calls = refl;
    budget = exceeds_budget-Within p s.total_wait_ms wait fits;
  }

  stop-Grows :
      (s : Progress) (t : Trace)
      → s.attempts < p.max_retries
      → Grows p s (log (record s { attempts = s.attempts + 1 }) t)
  stop-Grows s t small = record {
    attempts_le = omega arith;
    capped = omega arith;
    same_calls = refl;
    budget = λ b. b;
  }

  retry_caught_rule :
      (thrown : Outcome) (s : Progress)
      → s.attempts < p.max_retries
      → ((s' : Progress) → Grows p s s' → Q thrown s')
      → ((s' : Progress) → Grows p s s' → Q threw_abort s')
      → ((s' : Progress) → Grows p s s' → s.attempts < s'.attempts → Ensures Q (again s'))
      → Ensures Q (retry_caught p w again thrown s)
  unfolding retry_caught
  retry_caught_rule thrown s small ends aborts goes =
      let n = s.attempts + 1 in
      let wait = network_wait p w n in
      elim (Bool-cases (exceeds_budget p s.total_wait_ms wait)) [
        | inl over ↦ rw over (ends _ (stop-Grows s (give_up_budget n wait) small))
        | inr fits ↦
            let g = step-Grows s wait (retry_network n wait) small fits in
            elim (Bool-cases (sleep_rejected w n wait)) [
              | inl rejected ↦ rw (fits, rejected) (aborts _ g)
              | inr slept ↦ rw (fits, slept) (goes _ g (omega arith))
            ]
      ]

  -- `catch` ends with what was thrown or with the abort of its wait, or goes on.
  pub caught_rule :
      (safe : Bool) (thrown : Outcome) (s : Progress)
      → s.attempts ≤ p.max_retries
      → ((s' : Progress) → Grows p s s' → Q thrown s')
      → ((s' : Progress) → Grows p s s' → Q threw_abort s')
      → ((s' : Progress) → Grows p s s' → s.attempts < s'.attempts → Ensures Q (again s'))
      → Ensures Q (caught p w again safe thrown s)
  unfolding caught
  caught_rule safe thrown s small ends aborts goes = ground (
    arith,
    ends s
        (record { attempts_le = omega arith; capped = small; same_calls = refl; budget = λ b. b }),
    ends (log s skip_method)
        (record { attempts_le = omega arith; capped = small; same_calls = refl; budget = λ b. b }),
    λ (more : s.attempts < p.max_retries). retry_caught_rule thrown s more ends aborts goes,
  )

  retry_replied_rule :
      (safe : Bool) (status : ℕ) (after : RetryAfter) (s : Progress)
      → w.reply s.attempts ≡ response status after
      → s.attempts < p.max_retries
      → ((s' : Progress)
          → Grows p s s'
          → Settled p w safe status s.attempts s'.total_wait_ms
          → Q (returned status s.attempts) s')
      → ((s' : Progress) → Grows p s s' → Q threw_abort s')
      → ((s' : Progress) → Grows p s s' → s.attempts < s'.attempts → Ensures Q (again s'))
      → Ensures Q (retry_replied p w again safe status after s)
  unfolding retry_replied
  retry_replied_rule safe status after s r small answers aborts goes =
      let n = s.attempts + 1 in
      let wait = status_wait p w after n in
      elim (Bool-cases (exceeds_budget p s.total_wait_ms wait)) [
        | inl over ↦
            let k : s.attempts + 1 - 1 ≡ s.attempts = omega arith in
            rw (over, k)
              (answers _ (stop-Grows s (skip_budget n wait) small) (over_budget after r over))
        | inr fits ↦
            let g = step-Grows s wait (retry_status n wait) small fits in
            elim (Bool-cases (sleep_rejected w n wait)) [
              | inl rejected ↦
                  rw (fits, rejected)
                    (caught_rule safe threw_abort _ g.capped
                      (λ s' h. aborts s' (Grows-trans p s _ s' g h))
                      (λ s' h. aborts s' (Grows-trans p s _ s' g h))
                      (λ s' h more. goes s' (Grows-trans p s _ s' g h) (omega arith)))
              | inr slept ↦ rw (fits, slept) (goes _ g (omega arith))
            ]
      ]

  pub replied_rule :
      (safe : Bool) (r : Reply) (s : Progress)
      → w.reply s.attempts ≡ r
      → s.attempts ≤ p.max_retries
      → ((status : ℕ) (s' : Progress)
          → Grows p s s'
          → Settled p w safe status s.attempts s'.total_wait_ms
          → Q (returned status s.attempts) s')
      → ((s' : Progress) → Grows p s s' → Q threw_network s')
      → ((s' : Progress) → Grows p s s' → Q threw_abort s')
      → ((s' : Progress) → Grows p s s' → s.attempts < s'.attempts → Ensures Q (again s'))
      → Ensures Q (replied p w again safe r s)
  unfolding replied retry_replied
  replied_rule safe network_error s e small answers throws aborts goes =
      caught_rule safe threw_network s small throws aborts goes
  replied_rule safe (response status after) s e small answers throws aborts goes =
      let same : Grows p s s = record {
        attempts_le = omega arith;
        capped = small;
        same_calls = refl;
        budget = λ b. b;
      } in
      elim (Bool-cases (is_retryable_status status p.retry_on_status)) [
        | inr good ↦ simp good (answers status s same (fine good))
        | inl bad ↦ elim (Bool-cases (ltb s.attempts p.max_retries)) [
          | inr last ↦ simp (bad, last) (answers status s same (spent (ground arith)))
          | inl more ↦ elim (Bool-cases safe) [
            | inr unsafe ↦
                simp (bad, more, unsafe)
                  (answers status (log s skip_method)
                    (record {
                      attempts_le = omega arith;
                      capped = small;
                      same_calls = refl;
                      budget = λ b. b;
                    })
                    (unsafe_method unsafe))
            | inl is_safe ↦
                simp (bad, more, is_safe)
                  (retry_replied_rule safe status after s e (ltb→lt _ _ more) (answers status)
                    aborts goes)
          ]
        ]
      ]

-- Before a call of `next`: the attempts are within `maxRetries`, there were no more calls than
-- attempts, and the time waited is within the budget.
pub record Entry (p : Policy) (s : Progress) : Type 0 where
  pub small : s.attempts ≤ p.max_retries
  pub calls_le : s.calls ≤ s.attempts
  pub within : Within p.retry_budget_ms s.total_wait_ms

abbrev pub called : Progress → Progress
called s = record s { calls = s.calls + 1 }

module _ (p : Policy) (w : World) (safe : Bool) (Q : Outcome → Progress → Type 0) where
  pub execute_rule :
      ((s s' : Progress) (status : ℕ)
        → Entry p s
        → Grows p (called s) s'
        → Settled p w safe status s.attempts s'.total_wait_ms
        → Q (returned status s.attempts) s')
      → ((s s' : Progress) → Entry p s → Grows p (called s) s' → Q threw_network s')
      → ((s s' : Progress) → Entry p s → Grows p (called s) s' → Q threw_abort s')
      → (fuel : ℕ) (s : Progress) → Entry p s
      → p.max_retries - s.attempts < fuel
      → Ensures Q (execute_with_retry p w safe fuel s)
  unfolding execute_with_retry
  execute_rule answers throws aborts zero s e h = absurd (omega arith)
  execute_rule answers throws aborts (suc fuel) s e h =
      replied_rule p w (execute_with_retry p w safe fuel) Q safe (w.reply s.attempts) (called s)
        refl e.small (λ status s' g settled. answers s s' status e g settled)
        (λ s' g. throws s s' e g) (λ s' g. aborts s s' e g)
        (λ s' g more.
          execute_rule answers throws aborts fuel s'
            (record { small = g.capped; calls_le = omega arith; within = g.budget e.within })
            (omega arith))
