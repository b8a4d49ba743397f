-- ===== src/Retry/Bounds.antt =====
-- How often retry.ts calls `next`, and how long it waits.
use pureq.Http.{HttpMethod, has_method}
use pureq.Prelude.{
  ℕ, suc, ◌+◌, ◌≤◌, max, ◌≡◌, refl, Bool, true, false, Option, none, some, arith, or_else,
  Bool-cases, inl, inr, subst, sym, not, ◌&&◌, is_some,
}
use pureq.Retry.{
  Policy, World, Reply, response, network_error, RetryAfter, parse_retry_after, Progress, Outcome,
  threw_network, retry_after_ms, should_jitter, jittered, base_wait, status_wait, network_wait,
  caught, replied, execute_with_retry, at_start, retry,
}
use pureq.Retry.Totality.{Ensures, Within, Entry, called, execute_rule}

Within-zero : (budget : Option ℕ) → Within budget 0
Within-zero none = tt
Within-zero (some b) = λ h. omega arith

pub at_start-Entry : (p : Policy) → Entry p at_start
at_start-Entry p = record {
  small = omega arith;
  calls_le = omega arith;
  within = Within-zero p.retry_budget_ms;
}

abbrev pub Bounded : Policy → Outcome → Progress → Type 0
Bounded p o s =
    (s.calls ≤ p.max_retries + 1)
    × (s.attempts ≤ p.max_retries)
    × Within p.retry_budget_ms s.total_wait_ms

-- Whatever `next`, the clock, the random numbers and the signal do, a request ends after at
-- most `maxRetries + 1` calls of `next`, and the waits between them stay within a positive budget.
pub retry-Bounded : (p : Policy) (w : World) (m : HttpMethod) → Ensures (Bounded p) (retry p w m)
unfolding retry
retry-Bounded p w m =
    execute_rule p w (has_method p.methods m) (Bounded p)
      (λ s s' status e g settled. (omega arith, g.capped, g.budget e.within))
      (λ s s' e g. (omega arith, g.capped, g.budget e.within))
      (λ s s' e g. (omega arith, g.capped, g.budget e.within)) (p.max_retries + 1) at_start
      (at_start-Entry p) (omega arith)

abbrev pub Untried : Outcome → Progress → Type 0
Untried o s = (s.calls ≡ 1) × (s.attempts ≡ 0) × (s.total_wait_ms ≡ 0)

replied-Untried :
    (p : Policy) (w : World) (again : Progress → Option (Outcome × Progress)) (r : Reply)
    (s : Progress)
    → Untried threw_network s
    → Ensures Untried (replied p w again false r s)
unfolding replied caught
replied-Untried p w again (response status after) s h = ground arith
replied-Untried p w again network_error s h = ground arith

-- A request whose method is not in the list is never repeated: one call of `next`, no wait.
pub retry_unlisted_method :
    (p : Policy) (w : World) (m : HttpMethod)
    → has_method p.methods m ≡ false
    → Ensures Untried (retry p w m)
unfolding retry execute_with_retry
retry_unlisted_method p w m h =
    let e : p.max_retries + 1 ≡ suc p.max_retries = omega arith in
    subst (λ safe. Ensures Untried (execute_with_retry p w safe (p.max_retries + 1) at_start))
      (sym h)
      (rw e (
        replied-Untried p w (execute_with_retry p w false p.max_retries) (w.reply 0)
          (called at_start) (refl, refl, refl)))

-- The wait before a further attempt, by backoff.
base_wait-le : (p : Policy) (n : ℕ) → p.backoff ≡ true → base_wait p n ≤ p.max_delay
unfolding base_wait
base_wait-le p n h = ground arith

retry_after_ms-le :
    (p : Policy) (after : RetryAfter) (now : ℕ)
    → or_else (retry_after_ms p after now) 0 ≤ or_else (parse_retry_after after now) 0
retry_after_ms-le p after now = elim (Bool-cases p.respect_retry_after) [
  | inl on ↦ simp on (omega arith)
  | inr off ↦ simp off (omega arith)
]

jittered-le :
    (w : World) (on : Bool) (n wait : ℕ)
    → ((n v : ℕ) → w.random_wait n v ≤ v)
    → jittered w on n wait ≤ wait
unfolding jittered
jittered-le w on n wait fair = ground (arith, fair n wait)

-- With backoff, and `Math.random` below 1, no wait is longer than `maxDelay`, unless the
-- server asks for more; then it is no longer than that.
pub wait_bounds :
    (p : Policy) (w : World) (after : RetryAfter) (n : ℕ)
    → ((n v : ℕ) → w.random_wait n v ≤ v)
    → p.backoff ≡ true
    → (network_wait p w n ≤ p.max_delay)
      × (status_wait p w after n
          ≤ max p.max_delay (or_else (parse_retry_after after (w.clock n)) 0))
unfolding network_wait status_wait
wait_bounds p w after n fair h =
    let base = base_wait-le p n h in
    let ra = retry_after_ms p after (w.clock n) in
    let small : or_else ra 0 ≤ or_else (parse_retry_after after (w.clock n)) 0 =
      retry_after_ms-le p after (w.clock n) in
    (
      omega (arith, jittered-le w (should_jitter p) n (base_wait p n) fair),
      omega (
        arith,
        jittered-le w (should_jitter p && not (is_some ra)) n (max (base_wait p n) (or_else ra 0))
            fair,
      ),
    )

-- A `Retry-After` that is respected is waited out, with no jitter.
pub status_wait_respects :
    (p : Policy) (w : World) (after : RetryAfter) (n ms : ℕ)
    → p.respect_retry_after ≡ true
    → parse_retry_after after (w.clock n) ≡ some ms
    → status_wait p w after n ≡ max (base_wait p n) ms
unfolding status_wait jittered
status_wait_respects p w after n ms h e =
    let ra : retry_after_ms p after (w.clock n) ≡ some ms = simp (h, e) in ground (arith, ra)
