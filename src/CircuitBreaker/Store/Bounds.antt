-- ===== src/CircuitBreaker/Store/Bounds.antt =====
-- How many circuits the store of circuitBreaker.ts holds, and in which order.
use pureq.Prelude.JsMap.{
  get, set, delete, get-set, get-delete_self, set-Distinct, set_absent, length-set,
  length-set-delete,
}
use pureq.Prelude.{
  ℕ, suc, ◌+◌, ◌-◌, ◌≤◌, max, ◌≡◌, true, none, some, [], ◌∷◌, ◌++◌, String, if◌then◌else◌, length,
  number_key, text_key, arith, inl, inr, is_some, ==_refl, Bool-cases, count_if,
}
use pureq.CircuitBreaker.{Entry, Outcome, Config}
use pureq.CircuitBreaker.Store.{
  Store, prune_table, prune_expired_entries, touch_entry, insert_entry, get_entry, enter, leave,
  snapshot, make_room, stores, is_closed, is_open, is_neither, state_at,
}
use pureq.CircuitBreaker.Store.Invariant.{
  Table, length-evict, length-prune-le, prune-Distinct, get_pruned_cases, KeysDistinct,
  get_entry-KeysDistinct,
}

length-touch :
    (key : String) (p now : ℕ) (s : Store)
    → KeysDistinct s
    → length (touch_entry key p now s).table
      ≡ (if is_some (get key s.table) then length s.table else suc (length s.table))
unfolding touch_entry
length-touch key p now s d = length-set-delete key p s.table d

length-make_room :
    (cfg : Config) (most : ℕ) (m : Table)
    → cfg.max_entries ≡ some most
    → suc (length (make_room cfg m)) ≤ max 1 most
unfolding make_room
length-make_room cfg most m e =
    rw (e, make_room) (ground (arith, length-evict (length m - most + 1) m))

get-touch :
    (key : String) (p now : ℕ) (s : Store) → get key (touch_entry key p now s).table ≡ some p
unfolding touch_entry
get-touch key p now s = ground (arith, get-set key key p (delete key s.table), ==_refl key)

-- `maxEntries`, but never less than the one circuit that the request itself needs.
abbrev pub AtMost : ℕ → Store → Type 0
AtMost most s = length s.table ≤ max 1 most

module _ (cfg : Config) (most : ℕ) (bounded : cfg.max_entries ≡ some most) where
  insert_entry-AtMost :
      (key : String) (now : ℕ) (s : Store) → AtMost most (insert_entry cfg key now s).1
  unfolding insert_entry
  insert_entry-AtMost key now s = ground (
    arith,
    length-set key s.next (make_room cfg s.table),
    length-make_room cfg most s.table bounded,
  )

  get_entry-AtMost :
      (key : String) (now : ℕ) (s : Store)
      → KeysDistinct s
      → AtMost most s
      → AtMost most (get_entry cfg key now s).1
        × (is_some (get key (get_entry cfg key now s).1.table) ≡ true)
  unfolding get_entry prune_expired_entries insert_entry
  get_entry-AtMost key now s d h =
      let pruned = prune-Distinct cfg s.cells now s.table d in
      get_pruned_cases (λ r. AtMost most r.1 × (is_some (get key r.1.table) ≡ true)) cfg key now
        (prune_expired_entries cfg now s)
        (λ p e. (
          ground (
            arith,
            length-touch key p now (prune_expired_entries cfg now s) pruned,
            length-prune-le cfg s.cells now s.table,
          ),
          rw (get-touch key p now (prune_expired_entries cfg now s)),
        ))
        (λ e. (
          insert_entry-AtMost key now (prune_expired_entries cfg now s),
          ground (
            arith,
            get-set key key s.next (make_room cfg (prune_table cfg s.cells now s.table)),
            ==_refl key,
          ),
        ))

  -- Whatever requests start, one whole start after the other, the map never grows past
  -- `maxEntries` circuits (past one, if `maxEntries` is 0).
  pub enter-AtMost :
      (key : String) (now : ℕ) (s : Store)
      → KeysDistinct s
      → AtMost most s
      → AtMost most (enter cfg key now s).3
  unfolding enter
  enter-AtMost key now s d h =
      let (small, there) = get_entry-AtMost key now s d h in
      ground (
        arith,
        length-touch key (get_entry cfg key now s).0 now (get_entry cfg key now s).1
            (get_entry-KeysDistinct cfg key now s d),
      )

-- A request that ends leaves the number of circuits as it is while its key is still in the map.
-- If the key is gone (evicted, expired or reset in the meantime) the end of the request puts it
-- back, and the map has one circuit more than before, whatever `maxEntries` says.
pub length-leave :
    (cfg : Config) (key : String) (p now later : ℕ) (o : Outcome) (s : Store)
    → KeysDistinct s
    → length (leave cfg key p now later o s).0.table
      ≡ (if is_some (get key s.table) then length s.table else suc (length s.table))
unfolding leave
length-leave cfg key p now later o s d = elim (Bool-cases (stores cfg o)) [
  | inl kept ↦ rw kept (
      ground (
        arith,
        length-set-delete key p (set key p s.table) (set-Distinct key p s.table d),
        get-set key key p s.table,
        ==_refl key,
        length-set key p s.table,
      ))
  | inr left ↦ rw left (length-set-delete key p s.table d)
]

-- The key that was used last stands last, so what eviction takes first was used least recently.
pub enter-last :
    (cfg : Config) (key : String) (now : ℕ) (s : Store)
    → KeysDistinct s
    → (front : Table) × (get key front ≡ none)
      × ((enter cfg key now s).3.table ≡ front ++ (key, (enter cfg key now s).0) ∷ [])
unfolding enter touch_entry
enter-last cfg key now s d =
    let (p, s1) = get_entry cfg key now s in
    let gone = get-delete_self key s1.table (get_entry-KeysDistinct cfg key now s d) in
    (delete key s1.table, gone, set_absent key p (delete key s1.table) gone)

count_states :
    (cells : ℕ → Entry) (m : Table)
    → count_if (λ x. is_closed (state_at cells x)) m
        + count_if (λ x. is_open (state_at cells x)) m
        + count_if (λ x. is_neither (state_at cells x)) m
      ≡ length m
count_states cells [] = omega arith
count_states cells ((k, p) ∷ m) = ground (arith, count_states cells m)

-- Every circuit of a snapshot is counted in one of the three states, and a snapshot never has
-- more circuits than the store had.
pub snapshot-counts :
    (cfg : Config) (now : ℕ) (s : Store)
    → ((snapshot cfg now s).0.closed_count
          + (snapshot cfg now s).0.open_count
          + (snapshot cfg now s).0.half_open_count
        ≡ (snapshot cfg now s).0.size)
      × ((snapshot cfg now s).0.size ≤ length s.table)
unfolding snapshot
snapshot-counts cfg now s = (
  count_states s.cells (prune_table cfg s.cells now s.table),
  length-prune-le cfg s.cells now s.table,
)
