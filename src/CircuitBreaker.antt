-- ===== src/CircuitBreaker.antt =====
-- packages/pureq/src/middleware/circuitBreaker.ts: one circuit (a `CircuitEntry`), what the
-- middleware does to it before it calls `next` (`gate`) and after the call (`settle`).
-- Times are milliseconds in ℕ; `now - t < d` is written `now < t + d`, which agrees also for a
-- clock that runs backwards, where the difference would be negative.
-- The hooks are the list of notices that an operation emits. The thresholds are natural numbers.
pub mod Counters
pub mod Trace
pub mod Probe
pub mod Store
mod Examples
use pureq.Prelude.{
  ℕ, ◌+◌, ◌≤◌, Bool, true, false, Option, none, some, List, [], ◌∷◌, ◌++◌, String, ltb, leb,
  if◌then◌else◌,
}

pub data State : Type 0 where
  closed opened half_opened : State

pub record Entry : Type 0 where
  pub state : State
  pub failure_count : ℕ
  pub success_count : ℕ
  pub opened_at : ℕ
  pub probe_in_flight : Bool
  pub last_changed_at : ℕ
  pub last_accessed_at : ℕ

-- What `next` did: a response with its status, or a thrown value and whether it is truthy.
pub data Outcome : Type 0 where
  responded : ℕ → Outcome
  threw : Bool → Outcome

pub record Config : Type 0 where
  pub failure_threshold : ℕ
  pub success_threshold : ℕ
  pub cooldown_ms : ℕ
  pub max_entries : Option ℕ  -- `none` is Infinity
  pub entry_ttl_ms : Option ℕ
  pub should_trip : Outcome → Bool

-- The calls of the hooks.
pub data Notice : Type 0 where
  on_state_change : State → State → ℕ → Notice
  on_open : ℕ → ℕ → Notice
  on_half_open : ℕ → Notice
  on_close : ℕ → Notice

unfoldable pub default_should_trip : Outcome → Bool
default_should_trip (threw truthy) = truthy
default_should_trip (responded status) = leb 500 status

abbrev pub default_config : Config
default_config = record {
  failure_threshold = 5;
  success_threshold = 1;
  cooldown_ms = 30000;
  max_entries = none;
  entry_ttl_ms = none;
  should_trip = default_should_trip;
}

unfoldable pub create_entry : ℕ → Entry
create_entry now = record {
  state = closed;
  failure_count = 0;
  success_count = 0;
  opened_at = 0;
  probe_in_flight = false;
  last_changed_at = now;
  last_accessed_at = now;
}

abbrev pub is_half_open : State → Bool
is_half_open half_opened = true
is_half_open _ = false

-- `if (previousState !== entry.state) options.hooks?.onStateChange?.(…)`
unfoldable pub changed : State → State → ℕ → List Notice
changed closed closed now = []
changed opened opened now = []
changed half_opened half_opened now = []
changed from to now = on_state_change from to now ∷ []

unfoldable pub open_circuit : Config → ℕ → Entry → Entry × List Notice
unfolding changed
open_circuit cfg now e = (
  record e {
    state = opened;
    opened_at = now;
    failure_count = 0;
    success_count = 0;
    probe_in_flight = false;
    last_changed_at = now;
    last_accessed_at = now;
  },
  changed e.state opened now ++ on_open now cfg.failure_threshold ∷ [],
)

unfoldable pub close_circuit : ℕ → Entry → Entry × List Notice
unfolding changed
close_circuit now e = (
  record e {
    state = closed;
    failure_count = 0;
    success_count = 0;
    probe_in_flight = false;
    last_changed_at = now;
    last_accessed_at = now;
  },
  changed e.state closed now ++ on_close now ∷ [],
)

unfoldable pub move_to_half_open : ℕ → Entry → Entry × List Notice
unfolding changed
move_to_half_open now e = (
  record e {
    state = half_opened;
    success_count = 0;
    probe_in_flight = false;
    last_changed_at = now;
    last_accessed_at = now;
  },
  changed e.state half_opened now ++ on_half_open now ∷ [],
)

-- What the request meets: it goes on to `next`, or one of the two errors is thrown.
pub data Verdict : Type 0 where
  admitted circuit_open probe_busy : Verdict

-- `if (entry.state === "half-open") …` in front of the `try`
unfoldable pub claim_probe : Entry → Verdict × Entry
claim_probe e =
    if is_half_open e.state
    then (if e.probe_in_flight
        then (probe_busy, e)
        else (admitted, record e { probe_in_flight = true }))
    else (admitted, e)

abbrev claim_after : Entry × List Notice → Verdict × Entry × List Notice
claim_after (e, notices) = let (v, e') = claim_probe e in (v, e', notices)

gate_at : State → Config → ℕ → Entry → Verdict × Entry × List Notice
unfolding claim_probe move_to_half_open
gate_at opened cfg now e =
    if ltb now (e.opened_at + cfg.cooldown_ms)
    then (circuit_open, e, [])
    else claim_after (move_to_half_open now e)
gate_at _ cfg now e = claim_after (e, [])

-- From the test for "open" to the `try`.
unfoldable pub gate : Config → ℕ → Entry → Verdict × Entry × List Notice
unfolding gate_at
gate cfg now e = gate_at e.state cfg now e

-- A failure that counts, in the `try` and in the `catch` alike.
unfoldable pub count_failure : Config → ℕ → Entry → Entry × List Notice
unfolding open_circuit
count_failure cfg now e =
    if is_half_open e.state
    then open_circuit cfg now e
    else (let e' = record e { failure_count = e.failure_count + 1 } in
        if leb cfg.failure_threshold e'.failure_count then open_circuit cfg now e' else (e', []))

-- A response that does not count as a failure.
unfoldable pub count_success : Config → ℕ → Entry → Entry × List Notice
unfolding close_circuit
count_success cfg now e =
    if is_half_open e.state
    then (let e' = record e { success_count = e.success_count + 1 } in
        if leb cfg.success_threshold e'.success_count then close_circuit now e' else (e', []))
    else (record e { failure_count = 0 }, [])

-- A thrown value that does not count is thrown on, and the entry stays as it is.
unfoldable pub record_outcome : Config → ℕ → Outcome → Entry → Entry × List Notice
unfolding count_failure count_success
record_outcome cfg now (responded status) e =
    if cfg.should_trip (responded status) then count_failure cfg now e else count_success cfg now e
record_outcome cfg now (threw truthy) e =
    if cfg.should_trip (threw truthy) then count_failure cfg now e else (e, [])

-- The test of the `finally`.
unfoldable pub release_probe : Entry → Entry
release_probe e = if is_half_open e.state then record e { probe_in_flight = false } else e

-- After `next`: the `try` or the `catch`, then the `finally` up to its touch.
unfoldable pub settle : Config → ℕ → Outcome → Entry → Entry × List Notice
unfolding record_outcome release_probe
settle cfg now o e = let (e', notices) = record_outcome cfg now o e in (release_probe e', notices)

-- One request from the start of its `gate` to the end of its `finally`, the next one after it.
pub record Request : Type 0 where
  pub start : ℕ
  pub outcome : Outcome
  pub finish : ℕ

pub serve : Config → Entry → Request → Entry
serve cfg e q =
    let (verdict, e', notices) = gate cfg q.start e in
    elim verdict [ admitted ↦ (settle cfg q.finish q.outcome e').0 | _ ↦ e' ]

pub serve_all : Config → Entry → List Request → Entry
serve_all cfg e [] = e
serve_all cfg e (q ∷ qs) = serve_all cfg (serve cfg e q) qs

-- Starts and ends of requests as the event loop interleaves them.
pub data Op : Type 0 where
  starts : ℕ → Op
  ends : ℕ → Outcome → Op

pub apply : Config → Entry → Op → Entry
apply cfg e (starts now) = (gate cfg now e).1
apply cfg e (ends now o) = (settle cfg now o e).0

pub run : Config → Entry → List Op → Entry
run cfg e [] = e
run cfg e (op ∷ ops) = run cfg (apply cfg e op) ops
