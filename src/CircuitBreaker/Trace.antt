-- ===== src/CircuitBreaker/Trace.antt =====
-- Sequences of requests on one circuit: how many failures open it, how many successes close it.
use pureq.Prelude.{
  ℕ, ◌+◌, ◌≤◌, ◌<◌, ◌≡◌, refl, ap, ◌∙◌, true, false, List, [], ◌∷◌, ◌++◌, All, length, arith,
}
use pureq.CircuitBreaker.{
  closed, opened, half_opened, Entry, Outcome, responded, threw, Config, gate, count_failure,
  count_success, record_outcome, settle, move_to_half_open, Request, serve, serve_all,
}

abbrev Trips : Config → Request → Type 0
Trips cfg q = cfg.should_trip q.outcome ≡ true

-- A response that counts as a success.
abbrev Succeeds : Config → Request → Type 0
Succeeds cfg q =
    (status : ℕ) × (q.outcome ≡ responded status) × (cfg.should_trip (responded status) ≡ false)

record_outcome_trips :
    (cfg : Config) (now : ℕ) (o : Outcome) (e : Entry)
    → cfg.should_trip o ≡ true
    → record_outcome cfg now o e ≡ count_failure cfg now e
unfolding record_outcome
record_outcome_trips cfg now (responded s) e h = rw h
record_outcome_trips cfg now (threw t) e h = rw h

record_outcome_succeeds :
    (cfg : Config) (now : ℕ) (o : Outcome) (e : Entry) (status : ℕ)
    → o ≡ responded status
    → cfg.should_trip (responded status) ≡ false
    → record_outcome cfg now o e ≡ count_success cfg now e
unfolding record_outcome
record_outcome_succeeds cfg now o e status p h = rw p (rw h)

serve_failure :
    (cfg : Config) (e : Entry) (q : Request)
    → e.state ≡ closed
    → Trips cfg q
    → e.failure_count + 1 < cfg.failure_threshold
    → ((serve cfg e q).state ≡ closed) × ((serve cfg e q).failure_count ≡ e.failure_count + 1)
unfolding serve gate settle count_failure
serve_failure cfg e q c t h = ground (arith, record_outcome_trips cfg q.finish q.outcome e t)

serve_last_failure :
    (cfg : Config) (e : Entry) (q : Request)
    → e.state ≡ closed
    → Trips cfg q
    → cfg.failure_threshold ≤ e.failure_count + 1
    → ((serve cfg e q).state ≡ opened) × ((serve cfg e q).opened_at ≡ q.finish)
unfolding serve gate settle count_failure
serve_last_failure cfg e q c t h = ground (arith, record_outcome_trips cfg q.finish q.outcome e t)

serve_success :
    (cfg : Config) (e : Entry) (q : Request)
    → e.state ≡ half_opened
    → e.probe_in_flight ≡ false
    → Succeeds cfg q
    → e.success_count + 1 < cfg.success_threshold
    → ((serve cfg e q).state ≡ half_opened)
      × ((serve cfg e q).probe_in_flight ≡ false)
      × ((serve cfg e q).success_count ≡ e.success_count + 1)
unfolding serve gate settle count_success
serve_success cfg e q c p (status, is, ok) h = ground (
  arith,
  record_outcome_succeeds cfg q.finish q.outcome (record e { probe_in_flight = true }) status is ok,
)

serve_last_success :
    (cfg : Config) (e : Entry) (q : Request)
    → e.state ≡ half_opened
    → e.probe_in_flight ≡ false
    → Succeeds cfg q
    → cfg.success_threshold ≤ e.success_count + 1
    → (serve cfg e q).state ≡ closed
unfolding serve gate settle count_success
serve_last_success cfg e q c p (status, is, ok) h = ground (
  arith,
  record_outcome_succeeds cfg q.finish q.outcome (record e { probe_in_flight = true }) status is ok,
)

-- Requests one after the other on a closed circuit that all count as failures: the last of
-- them, the one that brings the count to the threshold, opens it at its own finish time.
pub failures_open :
    (cfg : Config) (qs : List Request) (q : Request) (e : Entry)
    → e.state ≡ closed
    → All (Trips cfg) qs
    → Trips cfg q
    → e.failure_count + length qs + 1 ≡ cfg.failure_threshold
    → ((serve_all cfg e (qs ++ q ∷ [])).state ≡ opened)
      × ((serve_all cfg e (qs ++ q ∷ [])).opened_at ≡ q.finish)
unfolding serve_all
failures_open cfg [] q e c ts t h = serve_last_failure cfg e q c t (omega arith)
failures_open cfg (r ∷ qs) q e c (t', ts) t h =
    let (c', f) = serve_failure cfg e r c t' (omega arith) in
    failures_open cfg qs q (serve cfg e r) c' ts t (omega arith)

-- Fewer failures than the threshold leave it closed, and every one of them is counted.
pub failures_below :
    (cfg : Config) (qs : List Request) (e : Entry)
    → e.state ≡ closed
    → All (Trips cfg) qs
    → e.failure_count + length qs < cfg.failure_threshold
    → ((serve_all cfg e qs).state ≡ closed)
      × ((serve_all cfg e qs).failure_count ≡ e.failure_count + length qs)
unfolding serve_all
failures_below cfg [] e c ts h = (c, omega arith)
failures_below cfg (r ∷ qs) e c (t', ts) h =
    let (c', f) = serve_failure cfg e r c t' (omega arith) in
    let (c'', g) = failures_below cfg qs (serve cfg e r) c' ts (omega arith) in (c'', omega arith)

successes_close :
    (cfg : Config) (q : Request) (qs : List Request) (e : Entry)
    → e.state ≡ half_opened
    → e.probe_in_flight ≡ false
    → All (Succeeds cfg) (q ∷ qs)
    → e.success_count + length (q ∷ qs) ≡ cfg.success_threshold
    → (serve_all cfg e (q ∷ qs)).state ≡ closed
unfolding serve_all
successes_close cfg q [] e c p (t, ts) h = serve_last_success cfg e q c p t (omega arith)
successes_close cfg q (r ∷ rs) e c p (t, ts) h =
    let (c', p', f) = serve_success cfg e q c p t (omega arith) in
    successes_close cfg r rs (serve cfg e q) c' p' ts (omega arith)

-- After the cooldown a request meets a half-open circuit whose counters start at zero.
serve_after_cooldown :
    (cfg : Config) (e : Entry) (q : Request)
    → e.state ≡ opened
    → e.opened_at + cfg.cooldown_ms ≤ q.start
    → serve cfg e q ≡ serve cfg (move_to_half_open q.start e).0 q
unfolding serve gate move_to_half_open
serve_after_cooldown cfg e q o h = ground arith

half_open_fresh :
    (now : ℕ) (e : Entry)
    → ((move_to_half_open now e).0.state ≡ half_opened)
      × ((move_to_half_open now e).0.probe_in_flight ≡ false)
      × ((move_to_half_open now e).0.success_count ≡ 0)
unfolding move_to_half_open
half_open_fresh now e = (refl, refl, refl)

-- Recovery: requests one after the other on an open circuit, the first of them after the
-- cooldown, all successes and as many as the success threshold, close it.
pub recovers :
    (cfg : Config) (q : Request) (qs : List Request) (e : Entry)
    → e.state ≡ opened
    → e.opened_at + cfg.cooldown_ms ≤ q.start
    → All (Succeeds cfg) (q ∷ qs)
    → length (q ∷ qs) ≡ cfg.success_threshold
    → (serve_all cfg e (q ∷ qs)).state ≡ closed
unfolding serve_all
recovers cfg q qs e o h s n =
    let (c, p, z) = half_open_fresh q.start e in
    ap (λ x. (serve_all cfg x qs).state) (serve_after_cooldown cfg e q o h)
    ∙ successes_close cfg q qs _ c p s (omega arith)
