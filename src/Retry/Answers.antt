-- ===== src/Retry/Answers.antt =====
-- Which responses retry.ts hands back, and what an aborted wait leads to.
use pureq.Http.{HttpMethod, has_method}
use pureq.Prelude.{
  ℕ, ◌+◌, ◌≤◌, ◌<◌, ◌≡◌, Bool, true, false, none, ltb, arith, Bool-cases, inl, inr, lt→ltb,
}
use pureq.Retry.{
  Policy, World, response, RetryAfter, Progress, Outcome, returned, threw_network, threw_abort,
  is_retryable_status, Result, jittered, base_wait, status_wait, network_wait, exceeds_budget,
  Trace, retry_status, retry_network, log, waited, retry_caught, retry_replied, caught, replied,
  at_start, retry,
}
use pureq.Retry.Totality.{Ensures, Settled, execute_rule}
use pureq.Retry.Bounds.{at_start-Entry}

-- A response carries the number of attempts spent before its call of `next`, which bounds the
-- calls, and there was a reason not to try again, given the time waited so far. An error that is thrown needs none.
abbrev pub Justified : Policy → World → Bool → Outcome → Progress → Type 0
Justified p w safe (returned status count) s =
    Settled p w safe status count s.total_wait_ms × (s.calls ≤ count + 1) × (count ≤ s.attempts)
Justified p w safe threw_network s = Unit
Justified p w safe threw_abort s = Unit

-- Whatever happens, a response that is handed back carries a retry count that bounds the calls, and
-- is one not to retry, or came with the last attempt, or for a method not to retry, or before a wait
-- that, with the time waited so far, exceeds the budget.
pub retry-Justified :
    (p : Policy) (w : World) (m : HttpMethod)
    → Ensures (Justified p w (has_method p.methods m)) (retry p w m)
unfolding retry
retry-Justified p w m =
    execute_rule p w (has_method p.methods m) (Justified p w (has_method p.methods m))
      (λ s s' status e g settled. (settled, omega arith, g.attempts_le)) (λ s s' e g. tt)
      (λ s s' e g. tt) (p.max_retries + 1) at_start (at_start-Entry p) (omega arith)

no_budget :
    (p : Policy) (total wait : ℕ) → p.retry_budget_ms ≡ none → exceeds_budget p total wait ≡ false
unfolding exceeds_budget
no_budget p total wait h = ground arith

base_wait_zero : (p : Policy) (n : ℕ) → p.delay ≡ 0 → base_wait p n ≡ 0
unfolding base_wait
base_wait_zero p n h = elim (Bool-cases p.backoff) [
  | inl on ↦ simp (on, h) (omega arith)
  | inr off ↦ simp (off, h)
]

no_delay : (p : Policy) (w : World) (n : ℕ) → p.delay ≡ 0 → network_wait p w n ≡ 0
unfolding network_wait jittered
no_delay p w n h = ground (arith, base_wait_zero p n h)

-- The progress after a wait.
abbrev paused : Progress → ℕ → Trace → Progress
paused s wait t = waited (log (record s { attempts = s.attempts + 1 }) t) wait

rejected_wait :
    (p : Policy) (w : World) (again : Progress → Result) (status : ℕ) (after : RetryAfter)
    (s : Progress)
    → p.retry_budget_ms ≡ none
    → 0 < status_wait p w after (s.attempts + 1)
    → w.rejects (s.attempts + 1) ≡ true
    → let n = s.attempts + 1 in
      let wait = status_wait p w after n in
      retry_replied p w again true status after s
      ≡ caught p w again true threw_abort (paused s wait (retry_status n wait))
unfolding retry_replied
rejected_wait p w again status after s b z a =
    let wait = status_wait p w after (s.attempts + 1) in
    rw (no_budget p s.total_wait_ms wait b, lt→ltb 0 wait z, a)

no_wait :
    (p : Policy) (w : World) (again : Progress → Result) (s : Progress)
    → p.delay ≡ 0
    → p.retry_budget_ms ≡ none
    → let n = s.attempts + 1 in
      let wait = network_wait p w n in
      retry_caught p w again threw_abort s ≡ again (paused s wait (retry_network n wait))
unfolding retry_caught
no_wait p w again s d b =
    let wait = network_wait p w (s.attempts + 1) in
    let none_left : ltb 0 wait ≡ false = ground (arith, no_delay p w (s.attempts + 1) d) in
    rw (no_budget p s.total_wait_ms wait b, none_left)

-- An abort is taken for a network failure: with `delay: 0` and no budget, a wait for
-- `Retry-After` that the signal aborts is followed by one more call of `next`.
pub aborted_wait_goes_on :
    (p : Policy) (w : World) (again : Progress → Result) (status : ℕ) (after : RetryAfter)
    (s : Progress)
    → p.delay ≡ 0
    → p.retry_budget_ms ≡ none
    → p.retry_on_network_error ≡ true
    → is_retryable_status status p.retry_on_status ≡ true
    → s.attempts + 1 < p.max_retries
    → 0 < status_wait p w after (s.attempts + 1)
    → w.rejects (s.attempts + 1) ≡ true
    → (s' : Progress) × (replied p w again true (response status after) s ≡ again s')
      × (s'.attempts ≡ s.attempts + 2)
unfolding replied caught
aborted_wait_goes_on p w again status after s d b n r h z a =
    let wait = status_wait p w after (s.attempts + 1) in
    let s1 = paused s wait (retry_status (s.attempts + 1) wait) in
    let wait' = network_wait p w (s1.attempts + 1) in
    (
      paused s1 wait' (retry_network (s1.attempts + 1) wait'),
      ground (arith, rejected_wait p w again status after s b z a, no_wait p w again s1 d b),
      omega arith,
    )
