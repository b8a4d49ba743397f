-- ===== src/Dedupe.antt =====
-- packages/pureq/src/middleware/dedupe.ts: requests with the same key share one run of `next`. A
-- request is a ticket, and so is its run of `next`. The key is what the key builder gives;
-- `none` stands for a builder that throws. `next` is taken to suspend before it fails, as that of
-- compose.ts does.
pub mod Flights
mod Examples
use pureq.Http.{HttpMethod, has_method}
use pureq.Prelude.{
  ℕ, ◌+◌, ◌≡◌, Bool, true, false, not, Option, none, some, List, [], ◌∷◌, ◌++◌, map, ◌==◌,
  number_key, if◌then◌else◌, Key, keep_if, some_of,
}
use pureq.Prelude.JsMap.{get, set, delete}

-- The key of a request, if it takes part.
abbrev pub signature_of : {K : Type 0} → List HttpMethod → HttpMethod → Option K → Option K
signature_of methods method built = if has_method methods method then built else none

-- `flights` are the runs of `next` in progress, `waiting` the requests with the run they await.
pub record State (K O : Type 0) : Type 0 where
  pub next_ticket : ℕ
  pub inflight : List (K × ℕ)
  pub flights : List (ℕ × Option K)
  pub waiting : List (ℕ × ℕ)
  pub answers : List (ℕ × O)

abbrev pub idle : {K O : Type 0} → State K O
idle = record { next_ticket = 0; inflight = []; flights = []; waiting = []; answers = [] }

-- A request arrives, or a run of `next` ends with a response or an error.
pub data Event (K O : Type 0) : Type 0 where
  arrives : HttpMethod → Option K → Event K O
  settles : ℕ → O → Event K O

abbrev pub awaits : ℕ → ℕ × ℕ → Bool
awaits flight w = w.1 == flight

-- the `finally`
abbrev pub forget : {K : Type 0} ⦃key : Key K⦄ → Option K → List (K × ℕ) → List (K × ℕ)
forget none inflight = inflight
forget (some k) inflight = delete k inflight

module _ {K O : Type 0} ⦃key : Key K⦄ where
  -- `next(req)`, awaited by the request itself.
  abbrev pub start : Option K → State K O → State K O
  start k s = record s {
    next_ticket = s.next_ticket + 1;
    flights = s.flights ++ (s.next_ticket, k) ∷ [];
    waiting = (s.next_ticket, s.next_ticket) ∷ s.waiting;
  }

  abbrev pub share : ℕ → State K O → State K O
  share flight s = record s {
    next_ticket = s.next_ticket + 1;
    waiting = (s.next_ticket, flight) ∷ s.waiting;
  }

  unfoldable pub arrive_at : K → Option ℕ → State K O → State K O
  arrive_at k (some flight) s = share flight s
  arrive_at k none s = record (start (some k) s) { inflight = set k s.next_ticket s.inflight }

  unfoldable pub arrive : Option K → State K O → State K O
  unfolding arrive_at
  arrive none s = start none s
  arrive (some k) s = arrive_at k (get k s.inflight) s

  unfoldable pub finish : ℕ → O → Option (Option K) → State K O → State K O
  finish flight outcome none s = s
  finish flight outcome (some k) s = record s {
    inflight = forget k s.inflight;
    flights = delete flight s.flights;
    waiting = keep_if (λ w. not (awaits flight w)) s.waiting;
    answers = map (λ w. (w.0, outcome)) (keep_if (awaits flight) s.waiting) ++ s.answers;
  }

  unfoldable pub settle : ℕ → O → State K O → State K O
  unfolding finish
  settle flight outcome s = finish flight outcome (get flight s.flights) s

  module _ (methods : List HttpMethod) where
    unfoldable pub step : Event K O → State K O → State K O
    unfolding arrive settle
    step (arrives method built) s = arrive (signature_of methods method built) s
    step (settles flight outcome) s = settle flight outcome s

    unfoldable pub run : List (Event K O) → State K O → State K O
    unfolding step
    run [] s = s
    run (e ∷ es) s = run es (step e s)
