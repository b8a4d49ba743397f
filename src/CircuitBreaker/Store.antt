-- ===== src/CircuitBreaker/Store.antt =====
-- The in-memory store of circuitBreaker.ts (`options.store` is absent): the `Map` from keys to
-- entries. An entry is an object that the map and the requests in flight share, so it lives in a
-- heap and the map holds its address. Each function is the code between two points where
-- other tasks may run, or a composition of such steps.
pub mod Invariant
pub mod Bounds
pub mod Isolation
pub mod Ownership
pub mod Runs
use pureq.Prelude.JsMap.{get, set, delete}
use pureq.Prelude.{
  ℕ, suc, ◌+◌, ◌-◌, ◌≤◌, Bool, true, false, Option, none, some, List, [], ◌∷◌, ◌++◌, String, ltb,
  leb, get_elem?, remove_at, ◌==◌, if◌then◌else◌, length, count_if, number_key, text_key,
}
use pureq.CircuitBreaker.{
  State, closed, opened, half_opened, Entry, Outcome, responded, threw, Config, Notice,
  create_entry, Verdict, admitted, gate, settle,
}

pub record Store : Type 0 where
  pub cells : ℕ → Entry
  pub next : ℕ
  pub table : List (String × ℕ)

abbrev pub write : (ℕ → Entry) → ℕ → Entry → ℕ → Entry
write cells p e q = if p == q then e else cells q

abbrev pub empty : Store
empty = record { cells = λ _. create_entry 0; next = 0; table = [] }

-- The loop of `evictOldestEntry` in `getEntry`: `rounds` is `currentSize - maxEntries + 1`.
unfoldable pub evict : ℕ → List (String × ℕ) → List (String × ℕ)
evict ℕ.zero m = m
evict (suc rounds) [] = []
evict (suc rounds) ((k, p) ∷ m) = evict rounds m

-- A time to live that is absent or not positive prunes nothing.
expired : Config → ℕ → Entry → Bool
expired cfg now e = elim cfg.entry_ttl_ms [
  | none ↦ false
  | some ttl ↦ if ttl == 0 then false else leb (e.last_accessed_at + ttl) now
]

unfoldable pub prune_table : Config → (ℕ → Entry) → ℕ → List (String × ℕ) → List (String × ℕ)
unfolding expired
prune_table cfg cells now [] = []
prune_table cfg cells now ((k, p) ∷ m) =
    if expired cfg now (cells p)
    then prune_table cfg cells now m
    else (k, p) ∷ prune_table cfg cells now m

pub prune_expired_entries : Config → ℕ → Store → Store
prune_expired_entries cfg now s = record s { table = prune_table cfg s.cells now s.table }

-- The time is set on the object; the key goes to the end of the map.
pub touch_entry : String → ℕ → ℕ → Store → Store
touch_entry key p now s = record s {
  cells = write s.cells p (record (s.cells p) { last_accessed_at = now });
  table = set key p (delete key s.table);
}

-- The size test of `getEntry` and its loop.
pub make_room : Config → List (String × ℕ) → List (String × ℕ)
make_room cfg m = elim cfg.max_entries [
  | none ↦ m
  | some most ↦ if leb most (length m) then evict (length m - most + 1) m else m
]

-- The rest of `getEntry`: a new entry for a key that the map lacks.
pub insert_entry : Config → String → ℕ → Store → ℕ × Store
insert_entry cfg key now s = (
  s.next,
  record s {
    cells = write s.cells s.next (create_entry now);
    next = suc s.next;
    table = set key s.next (make_room cfg s.table);
  },
)

pub get_pruned : Config → String → ℕ → Store → ℕ × Store
unfolding touch_entry insert_entry
get_pruned cfg key now s = elim (get key s.table) [
  | some p ↦ (p, touch_entry key p now s)
  | none ↦ insert_entry cfg key now s
]

pub get_entry : Config → String → ℕ → Store → ℕ × Store
unfolding prune_expired_entries
get_entry cfg key now s = get_pruned cfg key now (prune_expired_entries cfg now s)

-- The middleware up to the `try`, with no other task in between: the entry's address, which the
-- request keeps, the verdict of its circuit and the notices.
pub enter : Config → String → ℕ → Store → ℕ × Verdict × List Notice × Store
unfolding get_entry
enter cfg key now s =
    let (p, s1) = get_entry cfg key now s in
    let s2 = touch_entry key p now s1 in
    let (verdict, e, notices) = gate cfg now (s2.cells p) in
    (p, verdict, notices, record s2 { cells = write s2.cells p e })

-- `store.set(key, entry)`, which a thrown value that does not count skips.
stores : Config → Outcome → Bool
stores cfg (responded status) = true
stores cfg (threw truthy) = cfg.should_trip (threw truthy)

-- The middleware after `next`: the circuit's transition at one time, the touch of the `finally`
-- at a later one. Both act on the object the request kept, whatever the map holds by then.
pub leave : Config → String → ℕ → ℕ → ℕ → Outcome → Store → Store × List Notice
unfolding touch_entry stores
leave cfg key p now later o s =
    let (e, notices) = settle cfg now o (s.cells p) in
    let kept = if stores cfg o then set key p s.table else s.table in
    let s1 = record s { cells = write s.cells p e; table = kept } in
    (touch_entry key p later s1, notices)

-- `reset()` and `reset(key)`
pub reset : Option String → Store → Store
reset none s = record s { table = [] }
reset (some key) s = record s { table = delete key s.table }

abbrev is_closed : State → Bool
is_closed closed = true
is_closed _ = false

abbrev is_open : State → Bool
is_open opened = true
is_open _ = false

abbrev is_neither : State → Bool
is_neither half_opened = true
is_neither _ = false

abbrev state_at : (ℕ → Entry) → String × ℕ → State
state_at cells (k, p) = (cells p).state

pub record Summary : Type 0 where
  pub size : ℕ
  pub closed_count : ℕ
  pub open_count : ℕ
  pub half_open_count : ℕ

-- The counts of `snapshot`, and its pruning.
pub snapshot : Config → ℕ → Store → Summary × Store
unfolding prune_expired_entries
snapshot cfg now s =
    let s' = prune_expired_entries cfg now s in
    (
      record {
        size = length s'.table;
        closed_count = count_if (λ x. is_closed (state_at s'.cells x)) s'.table;
        open_count = count_if (λ x. is_open (state_at s'.cells x)) s'.table;
        half_open_count = count_if (λ x. is_neither (state_at s'.cells x)) s'.table;
      },
      s',
    )

-- The store with the requests that are between `enter` and `leave`: key and address of each.
pub record System : Type 0 where
  pub store : Store
  pub flights : List (String × ℕ)

pub data Act : Type 0 where
  enters : String → ℕ → Act
  leaves : ℕ → ℕ → ℕ → Outcome → Act  -- which of the flights, the two times, what `next` did
  resets : Option String → Act

-- A request that is refused throws at once and leaves no flight.
abbrev pub fly : Verdict → String × ℕ → List (String × ℕ) → List (String × ℕ)
fly admitted flight flights = flight ∷ flights
fly _ flight flights = flights

pub act : Config → System → Act → System
act cfg y (enters key now) =
    let (p, verdict, notices, s) = enter cfg key now y.store in
    record { store = s; flights = fly verdict (key, p) y.flights }
act cfg y (leaves i now later o) = elim (get_elem? y.flights i) [
  | none ↦ y
  | some (key, p) ↦ record {
    store = (leave cfg key p now later o y.store).0;
    flights = remove_at i y.flights;
  }
]
act cfg y (resets key) = record y { store = reset key y.store }

pub act_all : Config → System → List Act → System
act_all cfg y [] = y
act_all cfg y (a ∷ acts) = act_all cfg (act cfg y a) acts
