-- ===== src/CircuitBreaker/Probe.antt =====
-- The probe of a half-open circuit: one at a time, unless a request that started before the
-- circuit opened ends while a probe is running.
use pureq.Prelude.{ℕ, ◌+◌, ◌<◌, ◌≡◌, refl, ◌≢◌, true, false, List, [], ◌∷◌, map, arith}
use pureq.CircuitBreaker.{
  closed, half_opened, Entry, responded, Config, Verdict, admitted, probe_busy, gate, settle,
}

-- Starts of requests with no end between them: the verdicts, and the circuit after them.
pub start_all : Config → Entry → List ℕ → List Verdict × Entry
start_all cfg e [] = ([], e)
start_all cfg e (now ∷ nows) =
    let (verdict, e', notices) = gate cfg now e in
    let (verdicts, e'') = start_all cfg e' nows in (verdict ∷ verdicts, e'')

gate_busy :
    (cfg : Config) (now : ℕ) (e : Entry)
    → e.state ≡ half_opened
    → e.probe_in_flight ≡ true
    → gate cfg now e ≡ (probe_busy, e, [])
unfolding gate
gate_busy cfg now e s p = ground arith

gate_not_closed :
    (cfg : Config) (now : ℕ) (e : Entry)
    → e.state ≢ closed
    → (gate cfg now e).0 ≡ admitted
    → ((gate cfg now e).1.state ≡ half_opened) × ((gate cfg now e).1.probe_in_flight ≡ true)
unfolding gate
gate_not_closed cfg now e s a = ground arith

start_all_busy :
    (cfg : Config) (e : Entry) (nows : List ℕ)
    → e.state ≡ half_opened
    → e.probe_in_flight ≡ true
    → start_all cfg e nows ≡ (map (λ _. probe_busy) nows, e)
unfolding start_all
start_all_busy cfg e [] s p = refl
start_all_busy cfg e (now ∷ nows) s p = rw (gate_busy cfg now e s p, start_all_busy cfg e nows s p)

-- A request let through by a circuit that is not closed is the probe: every further request
-- that starts before one of the circuit's requests ends is refused and changes nothing.
pub probe_exclusive :
    (cfg : Config) (now : ℕ) (e : Entry) (nows : List ℕ)
    → e.state ≢ closed
    → (gate cfg now e).0 ≡ admitted
    → start_all cfg (gate cfg now e).1 nows ≡ (map (λ _. probe_busy) nows, (gate cfg now e).1)
probe_exclusive cfg now e nows s a =
    let (half, busy) = gate_not_closed cfg now e s a in start_all_busy cfg _ nows half busy

-- A success that ends while the circuit is half-open, and is not the one that closes it, makes
-- the circuit let the next request through, whether or not it was the probe that ended: the
-- entry does not remember which request is the probe.
pub late_success_frees_probe :
    (cfg : Config) (t now : ℕ) (status : ℕ) (e : Entry)
    → e.state ≡ half_opened
    → e.probe_in_flight ≡ true
    → cfg.should_trip (responded status) ≡ false
    → e.success_count + 1 < cfg.success_threshold
    → (gate cfg now (settle cfg t (responded status) e).0).0 ≡ admitted
unfolding gate settle
late_success_frees_probe cfg t now status e s p ok h = ground arith
