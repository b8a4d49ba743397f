-- ===== src/CircuitBreaker/Counters.antt =====
-- One circuit of circuitBreaker.ts: the invariant of its counters, and what each state lets pass.
use pureq.Prelude.{
  ℕ, ◌+◌, ◌≤◌, ◌<◌, ◌≡◌, ◌↔◌, ◌⊎◌, true, false, List, [], ◌∷◌, arith, Bool-cases, inl, inr, ◌≢◌,
}
use pureq.CircuitBreaker.{
  closed, opened, half_opened, Entry, Outcome, responded, threw, Config, create_entry, admitted,
  gate, count_failure, count_success, record_outcome, settle, release_probe, Op, starts, ends,
  apply, run,
}

-- The counters stay below their thresholds, and the probe flag is set in "half-open" only.
pub record IsValid (cfg : Config) (e : Entry) : Type 0 where
  pub failures_below : e.failure_count < cfg.failure_threshold
  pub successes_below : e.success_count < cfg.success_threshold
  pub probing : e.probe_in_flight ≡ true → e.state ≡ half_opened

module _ (cfg : Config) (f_pos : 0 < cfg.failure_threshold)
    (s_pos : 0 < cfg.success_threshold) where
  pub create_entry-IsValid : (now : ℕ) → IsValid cfg (create_entry now)
  unfolding create_entry
  create_entry-IsValid now = ground arith

  pub gate-IsValid : (now : ℕ) (e : Entry) → IsValid cfg e → IsValid cfg (gate cfg now e).1
  unfolding gate
  gate-IsValid now e v = ground arith

  count_failure-IsValid :
      (now : ℕ) (e : Entry) → IsValid cfg e → IsValid cfg (count_failure cfg now e).0
  unfolding count_failure
  count_failure-IsValid now e v = ground arith

  count_success-IsValid :
      (now : ℕ) (e : Entry) → IsValid cfg e → IsValid cfg (count_success cfg now e).0
  unfolding count_success
  count_success-IsValid now e v = ground arith

  record_outcome-IsValid :
      (now : ℕ) (o : Outcome) (e : Entry)
      → IsValid cfg e
      → IsValid cfg (record_outcome cfg now o e).0
  record_outcome-IsValid now (responded status) e v =
      elim (Bool-cases (cfg.should_trip (responded status))) [
        | inl t ↦ unfold record_outcome in rw t (count_failure-IsValid now e v)
        | inr t ↦ unfold record_outcome in rw t (count_success-IsValid now e v)
      ]
  record_outcome-IsValid now (threw truthy) e v =
      elim (Bool-cases (cfg.should_trip (threw truthy))) [
        | inl t ↦ unfold record_outcome in rw t (count_failure-IsValid now e v)
        | inr t ↦ unfold record_outcome in rw t v
      ]

  release_probe-IsValid : (e : Entry) → IsValid cfg e → IsValid cfg (release_probe e)
  unfolding release_probe
  release_probe-IsValid e v = ground arith

  pub settle-IsValid :
      (now : ℕ) (o : Outcome) (e : Entry) → IsValid cfg e → IsValid cfg (settle cfg now o e).0
  unfolding settle
  settle-IsValid now o e v = release_probe-IsValid _ (record_outcome-IsValid now o e v)

  apply-IsValid : (e : Entry) (op : Op) → IsValid cfg e → IsValid cfg (apply cfg e op)
  unfolding apply
  apply-IsValid e (starts now) v = gate-IsValid now e v
  apply-IsValid e (ends now o) v = settle-IsValid now o e v

  run-IsValid : (ops : List Op) (e : Entry) → IsValid cfg e → IsValid cfg (run cfg e ops)
  unfolding run
  run-IsValid [] e v = v
  run-IsValid (op ∷ ops) e v = run-IsValid ops (apply cfg e op) (apply-IsValid e op v)

  -- Starts and ends of requests in any order, as the event loop interleaves them: from a new
  -- entry on, the counters stay below their thresholds and the probe flag implies "half-open".
  pub run-create_entry-IsValid :
      (t : ℕ) (ops : List Op) → IsValid cfg (run cfg (create_entry t) ops)
  run-create_entry-IsValid t ops = run-IsValid ops (create_entry t) (create_entry-IsValid t)

-- A request is let through exactly when the circuit is closed, when it is open and the cooldown
-- is over, or when it is half-open with no probe in flight.
pub gate-admitted_iff :
    (cfg : Config) (now : ℕ) (e : Entry)
    → ((gate cfg now e).0 ≡ admitted) ↔ (
        (e.state ≡ closed)
        ⊎ (e.state ≡ opened) × (e.opened_at + cfg.cooldown_ms ≤ now)
        ⊎ (e.state ≡ half_opened) × (e.probe_in_flight ≡ false))
unfolding gate
gate-admitted_iff cfg now e = (λ h. ground arith, λ h. ground arith)

-- A request that is refused leaves the circuit as it was and calls no hook.
pub gate_refused :
    (cfg : Config) (now : ℕ) (e : Entry)
    → (gate cfg now e).0 ≢ admitted
    → ((gate cfg now e).1 ≡ e) × ((gate cfg now e).2 ≡ [])
unfolding gate
gate_refused cfg now e h = (ground arith, ground arith)
