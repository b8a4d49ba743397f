-- ===== src/Retry.antt =====
-- packages/pureq/src/middleware/retry.ts: the recursion `executeWithRetry` with its state, the
-- count of attempts and the time waited. What the code takes from outside is the record `World`.
-- `attempts` grows before every wait and between any two calls of `next`, so it numbers both.
-- Times are milliseconds in ℕ, where the powers of two do not run into Infinity; `min` with
-- `maxDelay` gives the same there.
pub mod Totality
pub mod Bounds
pub mod Answers
mod Examples
use pureq.Http.{HttpMethod, get, head, put, delete, options, has_method}
use pureq.Prelude.JsNumber.{JsNumber, whole, is_integer, is_negative}
use pureq.Prelude.{
  ℕ, zero, suc, ◌+◌, ◌-◌, ◌*◌, ◌^◌, min, max, Bool, true, false, not, ◌&&◌, ◌||◌, Option, none,
  some, List, [], ◌∷◌, ◌++◌, ltb, leb, ◌==◌, if◌then◌else◌, number_key, or_else, some_of, is_some,
}

pub record Policy : Type 0 where
  pub max_retries : ℕ
  pub delay : ℕ
  pub backoff : Bool
  pub max_delay : ℕ
  pub retry_budget_ms : Option ℕ  -- `none` also stands for a budget that is not finite
  pub retry_on_status : Option (List ℕ)
  pub retry_on_network_error : Bool
  pub methods : List HttpMethod
  pub respect_retry_after : Bool
  pub jitter : Option Bool

abbrev pub default_policy : ℕ → Policy
default_policy n = record {
  max_retries = n;
  delay = 300;
  backoff = true;
  max_delay = 5000;
  retry_budget_ms = none;
  retry_on_status = none;
  retry_on_network_error = true;
  methods = get ∷ head ∷ put ∷ delete ∷ options ∷ [];
  respect_retry_after = true;
  jitter = none;
}

-- The test at the top of `retry`; `false` is the error.
pub accepts_max_retries : JsNumber → Bool
accepts_max_retries n = not (not (is_integer n) || is_negative n)

-- The header `retry-after`, as `Number` and `Date.parse` read it: seconds (in milliseconds,
-- rounded), negative seconds, a date (in milliseconds), or neither.
pub data RetryAfter : Type 0 where
  missing negative unreadable : RetryAfter
  seconds date : ℕ → RetryAfter

-- Truncated subtraction is the `Math.max(0, …)`.
unfoldable pub parse_retry_after : RetryAfter → ℕ → Option ℕ
parse_retry_after missing now = none
parse_retry_after negative now = some 0
parse_retry_after (seconds ms) now = some ms
parse_retry_after (date at) now = some (at - now)
parse_retry_after unreadable now = none

-- What a call of `next` does.
pub data Reply : Type 0 where
  response : ℕ → RetryAfter → Reply
  network_error : Reply

-- By the value of `attempts`: the reply of `next`, `Math.round(Math.random() * w)`, the clock,
-- and whether a `sleep` that really waits is rejected by the request's signal.
pub record World : Type 0 where
  pub reply : ℕ → Reply
  pub random_wait : ℕ → ℕ → ℕ
  pub clock : ℕ → ℕ
  pub rejects : ℕ → Bool

-- The entries that are appended to the policy trace.
pub data Trace : Type 0 where
  skip_method : Trace
  skip_budget give_up_budget : ℕ → ℕ → Trace
  retry_status retry_network : ℕ → ℕ → Trace

pub record Progress : Type 0 where
  pub attempts : ℕ
  pub total_wait_ms : ℕ
  pub calls : ℕ  -- how often `next` was called
  pub trace : List Trace

-- A response with the retry count set on it, or an error that is thrown: the one of `next`, or
-- the abort of a wait.
pub data Outcome : Type 0 where
  returned : ℕ → ℕ → Outcome
  threw_network threw_abort : Outcome

unfoldable pub is_retryable_status : ℕ → Option (List ℕ) → Bool
is_retryable_status status none = leb 500 status
is_retryable_status status (some []) = leb 500 status
is_retryable_status status (some (x ∷ xs)) = some_of (λ y. y == status) (x ∷ xs)

abbrev pub should_jitter : Policy → Bool
should_jitter p = or_else p.jitter p.backoff

-- `backoff ? Math.min(delay * 2 ** (attempts - 1), maxDelay) : delay`
unfoldable pub base_wait : Policy → ℕ → ℕ
base_wait p attempts = if p.backoff then min (p.delay * 2 ^ (attempts - 1)) p.max_delay else p.delay

abbrev retry_after_ms : Policy → RetryAfter → ℕ → Option ℕ
retry_after_ms p h now = if p.respect_retry_after then parse_retry_after h now else none

-- Full jitter, where it is on.
unfoldable pub jittered : World → Bool → ℕ → ℕ → ℕ
jittered w on attempts wait = if on && ltb 0 wait then w.random_wait attempts wait else wait

unfoldable pub status_wait : Policy → World → RetryAfter → ℕ → ℕ
unfolding parse_retry_after
status_wait p w h attempts =
    let after = retry_after_ms p h (w.clock attempts) in
    jittered w (should_jitter p && not (is_some after)) attempts
      (max (base_wait p attempts) (or_else after 0))

pub network_wait : Policy → World → ℕ → ℕ
network_wait p w attempts = jittered w (should_jitter p) attempts (base_wait p attempts)

-- `budgetRemainingMs !== undefined && waitTime > budgetRemainingMs`; a budget of 0 is none.
pub exceeds_budget : Policy → ℕ → ℕ → Bool
exceeds_budget p total wait = elim p.retry_budget_ms [
  | none ↦ false
  | some budget ↦ ltb 0 budget && ltb (budget - total) wait
]

abbrev log : Progress → Trace → Progress
log s t = record s { trace = s.trace ++ t ∷ [] }

-- `totalWaitMs += waitTime` and `sleep`, which is rejected only if it waits at all.
abbrev pub waited : Progress → ℕ → Progress
waited s wait = record s { total_wait_ms = s.total_wait_ms + wait }

abbrev pub sleep_rejected : World → ℕ → ℕ → Bool
sleep_rejected w attempts wait = ltb 0 wait && w.rejects attempts

abbrev pub Result : Type 0
Result = Option (Outcome × Progress)

module _ (p : Policy) (w : World) (again : Progress → Result) where
  -- The `catch` behind its tests: a further attempt, unless the budget is exhausted. An abort of
  -- its `sleep` is thrown on.
  pub retry_caught : Outcome → Progress → Result
  retry_caught thrown s =
      let n = s.attempts + 1 in
      let s1 = record s { attempts = n } in
      let wait = network_wait p w n in
      let s2 = waited (log s1 (retry_network n wait)) wait in
      if exceeds_budget p s1.total_wait_ms wait
      then some (thrown, log s1 (give_up_budget n wait))
      else elim (sleep_rejected w n wait) [ true ↦ some (threw_abort, s2) | false ↦ again s2 ]

  -- The `catch`: `thrown` is what was caught.
  pub caught : Bool → Outcome → Progress → Result
  caught safe thrown s =
      if not p.retry_on_network_error
      then some (thrown, s)
      else if not (ltb s.attempts p.max_retries)
      then some (thrown, s)
      else if not safe
      then some (thrown, log s skip_method)
      else retry_caught thrown s

  -- The `try` behind its tests; an abort of its `sleep` is caught by the `catch` below it.
  pub retry_replied : Bool → ℕ → RetryAfter → Progress → Result
  retry_replied safe status after s =
      let n = s.attempts + 1 in
      let s1 = record s { attempts = n } in
      let wait = status_wait p w after n in
      let s2 = waited (log s1 (retry_status n wait)) wait in
      if exceeds_budget p s1.total_wait_ms wait
      then some (returned status (n - 1), log s1 (skip_budget n wait))
      else elim (sleep_rejected w n wait) [ true ↦ caught safe threw_abort s2 | false ↦ again s2 ]

  -- The `try` after the call of `next`.
  pub replied : Bool → Reply → Progress → Result
  replied safe network_error s = caught safe threw_network s
  replied safe (response status after) s =
      if not (is_retryable_status status p.retry_on_status && ltb s.attempts p.max_retries)
      then some (returned status s.attempts, s)
      else if not safe
      then some (returned status s.attempts, log s skip_method)
      else retry_replied safe status after s

-- `executeWithRetry`; `none` is fuel that ran out.
pub execute_with_retry : Policy → World → Bool → ℕ → Progress → Result
execute_with_retry p w safe zero s = none
execute_with_retry p w safe (suc fuel) s =
    replied p w (execute_with_retry p w safe fuel) safe (w.reply s.attempts)
      (record s { calls = s.calls + 1 })

abbrev pub at_start : Progress
at_start = record { attempts = 0; total_wait_ms = 0; calls = 0; trace = [] }

-- The middleware.
pub retry : Policy → World → HttpMethod → Result
retry p w m = execute_with_retry p w (has_method p.methods m) (p.max_retries + 1) at_start
