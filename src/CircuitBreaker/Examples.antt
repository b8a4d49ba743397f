-- ===== src/CircuitBreaker/Examples.antt =====
-- Runs of circuitBreaker.ts at concrete configurations.
use pureq.Prelude.{
  ℕ, ◌+◌, ◌≤◌, ◌≡◌, refl, ◌↔◌, ◌⊎◌, true, false, none, some, [], ◌∷◌, arith, text_key,
}
use pureq.CircuitBreaker.{
  closed, opened, half_opened, Entry, responded, threw, Config, Request, create_entry, admitted,
  probe_busy, gate, serve_all, starts, ends, run, default_should_trip,
}
use pureq.CircuitBreaker.Counters.{
  IsValid, run-create_entry-IsValid, gate-admitted_iff, gate_refused,
}
use pureq.CircuitBreaker.Trace.{failures_open, recovers}
use pureq.CircuitBreaker.Probe.{start_all, probe_exclusive}
use pureq.CircuitBreaker.Store.{Store, empty, enter, act, act_all, enters, snapshot}
use pureq.CircuitBreaker.Store.Isolation.{Unchanged}
use pureq.CircuitBreaker.Store.Invariant.{enter-KeysDistinct}
use pureq.CircuitBreaker.Store.Bounds.{AtMost, enter-AtMost, snapshot-counts}
use pureq.CircuitBreaker.Store.Runs.{idle, history_isolated}

abbrev two_two : Config
two_two = record {
  failure_threshold = 2;
  success_threshold = 2;
  cooldown_ms = 10;
  max_entries = some 1;
  entry_ttl_ms = none;
  should_trip = default_should_trip;
}

abbrev failed : ℕ → Request
failed t = record { start = t; outcome = responded 503; finish = t + 1 }

abbrev fine : ℕ → Request
fine t = record { start = t; outcome = responded 200; finish = t + 1 }

abbrev fresh : Entry
fresh = record {
  state = closed;
  failure_count = 0;
  success_count = 0;
  opened_at = 0;
  probe_in_flight = false;
  last_changed_at = 0;
  last_accessed_at = 0;
}

abbrev tripped : Entry
tripped = record fresh { state = opened; opened_at = 3 }

abbrev probing : Entry
probing = record fresh { state = half_opened; probe_in_flight = true }

run-create_entry-IsValid_example :
    IsValid two_two (run two_two (create_entry 0) (starts 1 ∷ ends 2 (threw true) ∷ []))
run-create_entry-IsValid_example =
    run-create_entry-IsValid two_two (omega arith) (omega arith) 0
      (starts 1 ∷ ends 2 (threw true) ∷ [])

gate-admitted_iff_example :
    ((gate two_two 5 tripped).0 ≡ admitted)
    ↔ ((opened ≡ closed) ⊎ (opened ≡ opened) × (13 ≤ 5) ⊎ (opened ≡ half_opened) × (false ≡ false))
gate-admitted_iff_example = gate-admitted_iff two_two 5 tripped

gate_refused_example : ((gate two_two 5 tripped).1 ≡ tripped) × ((gate two_two 5 tripped).2 ≡ [])
unfolding gate
gate_refused_example = gate_refused two_two 5 tripped (λ e. cc)

failures_open_example :
    ((serve_all two_two fresh (failed 1 ∷ failed 3 ∷ [])).state ≡ opened)
    × ((serve_all two_two fresh (failed 1 ∷ failed 3 ∷ [])).opened_at ≡ 4)
unfolding default_should_trip
failures_open_example =
    failures_open two_two (failed 1 ∷ []) (failed 3) fresh refl (refl, tt) refl (omega arith)

recovers_example : (serve_all two_two tripped (fine 20 ∷ fine 22 ∷ [])).state ≡ closed
unfolding default_should_trip
recovers_example =
    recovers two_two (fine 20) (fine 22 ∷ []) tripped refl (omega arith)
      ((200, refl, refl), ((200, refl, refl), tt)) (omega arith)

probe_exclusive_example :
    start_all two_two (gate two_two 20 tripped).1 (21 ∷ 22 ∷ [])
    ≡ (probe_busy ∷ probe_busy ∷ [], (gate two_two 20 tripped).1)
unfolding gate
probe_exclusive_example = probe_exclusive two_two 20 tripped (21 ∷ 22 ∷ []) (λ e. cc) refl

enter-AtMost_example : AtMost 1 (enter two_two "b" 5 (enter two_two "a" 1 empty).3).3
enter-AtMost_example =
    enter-AtMost two_two 1 refl "b" 5 (enter two_two "a" 1 empty).3
      (enter-KeysDistinct two_two "a" 1 empty tt)
      (enter-AtMost two_two 1 refl "a" 1 empty tt (omega arith))

abbrev one_circuit : Store
one_circuit = record { cells = λ _. fresh; next = 2; table = ("b", 1) ∷ [] }

-- "a" was evicted while its request was in flight: its end makes two circuits of one.

snapshot-counts_example :
    ((snapshot two_two 9 one_circuit).0.closed_count
        + (snapshot two_two 9 one_circuit).0.open_count
        + (snapshot two_two 9 one_circuit).0.half_open_count
      ≡ (snapshot two_two 9 one_circuit).0.size)
    × ((snapshot two_two 9 one_circuit).0.size ≤ 1)
snapshot-counts_example = snapshot-counts two_two 9 one_circuit

history_isolated_example :
    Unchanged "b"
      (act_all two_two idle (enters "a" 1 ∷ enters "b" 2 ∷ [])).store
      (act two_two (act_all two_two idle (enters "a" 1 ∷ enters "b" 2 ∷ [])) (enters "a" 3)).store
history_isolated_example =
    history_isolated two_two (enters "a" 1 ∷ enters "b" 2 ∷ []) (enters "a" 3) "b"
      (λ e. ground (arith, text_key.same_iff "a" "b"))
