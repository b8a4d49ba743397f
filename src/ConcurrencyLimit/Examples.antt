-- ===== src/ConcurrencyLimit/Examples.antt =====
-- Runs of concurrencyLimit.ts at concrete limits.
use pureq.Prelude.JsMap.{get}
use pureq.Prelude.{List, ◌++◌, ◌≡◌, refl, some, [], ◌∷◌, text_key}
use pureq.ConcurrencyLimit.{Limits, Limiter, no_signal, arrives, finishes, run, idle}
use pureq.ConcurrencyLimit.Buckets.{bucket_at}
use pureq.ConcurrencyLimit.Admission.{Fits, running_count, run-Fits}
use pureq.ConcurrencyLimit.Fifo.{
  Call, acquires, aborts, releases, calls, queue_at, IsServed, calls-IsServed,
}

abbrev one_slot : Limits
one_slot = record { max_concurrent = 1; max_queue = some 2 }

abbrev busy : Limiter
busy = record {
  buckets = ("a", record { active = 1; queue = 4 ∷ 5 ∷ [] }) ∷ [];
  next_ticket_id = 6;
}

run-Fits_example :
    Fits one_slot
      (running_count "a"
        (run one_slot idle
          (arrives "a" no_signal ∷ arrives "a" no_signal ∷ finishes 0 ∷ [])).running)
      (bucket_at "a"
        (run one_slot idle
          (arrives "a" no_signal ∷ arrives "a" no_signal ∷ finishes 0 ∷ [])).limiter.buckets)
run-Fits_example =
    run-Fits one_slot (arrives "a" no_signal ∷ arrives "a" no_signal ∷ finishes 0 ∷ []) "a"

-- The ticket 5 gives up, a request comes, and one is done.
abbrev visits : List Call
visits = aborts "a" 5 ∷ acquires "a" no_signal ∷ releases "a" ∷ []

calls-IsServed_example :
    IsServed
      (λ t. t ≡ 5)
      ((calls one_slot "a" visits busy).2 ++ queue_at "a" (calls one_slot "a" visits busy).0)
      (4 ∷ 5 ∷ [] ++ (calls one_slot "a" visits busy).1)
unfolding get
calls-IsServed_example =
    calls-IsServed one_slot "a" (λ t. t ≡ 5) visits busy (refl, tt) ((λ e. refl), (tt, (tt, tt)))
