-- ===== src/CircuitBreaker/Store/Isolation.antt =====
-- circuitBreaker.ts tracks each key on its own: what a request does under one key leaves the
-- circuits of the other keys as they are.
use pureq.Prelude.JsMap.{get, set, delete, Distinct, get-set, get-delete_ne}
use pureq.Prelude.{
  ℕ, ◌+◌, ◌-◌, ◌<◌, ◌≡◌, ◌≢◌, some, String, length, number_key, text_key, arith, Option-cases, inl,
  inr, sym, ==_ne, Bool-cases, ap, ◌∙◌,
}
use pureq.CircuitBreaker.{Entry, Outcome, Config}
use pureq.CircuitBreaker.Store.{
  Store, write, prune_expired_entries, touch_entry, insert_entry, get_pruned, make_room, get_entry,
  enter, leave, stores,
}
use pureq.CircuitBreaker.Store.Invariant.{
  Table, get-evict, get-prune, prune-Distinct, get_pruned_cases, KeysDistinct,
}

-- Each address belongs to one key, its owner, and is allocated. `owner` is no part of the
-- program: an address is handed out under one key and stays with it.
pub record Owned (owner : ℕ → String) (s : Store) : Type 0 where
  pub distinct : KeysDistinct s
  pub owned : (j : String) (q : ℕ) → get j s.table ≡ some q → owner q ≡ j
  pub allocated : (j : String) (q : ℕ) → get j s.table ≡ some q → q < s.next

-- The circuit of `j` in `t` is the one in `s`, with the same contents.
abbrev pub Unchanged : String → Store → Store → Type 0
Unchanged j s t =
    (q : ℕ) → get j t.table ≡ some q → (get j s.table ≡ some q) × (t.cells q ≡ s.cells q)

get-move :
    (key j : String) (p : ℕ) (m : Table) → key ≢ j → get j (set key p (delete key m)) ≡ get j m
get-move key j p m h =
    ground (arith, get-set key j p (delete key m), get-delete_ne key j m, ==_ne key j h)

pub get-make_room :
    (cfg : Config) (j : String) (q : ℕ) (m : Table)
    → Distinct m
    → get j (make_room cfg m) ≡ some q
    → get j m ≡ some q
unfolding make_room
get-make_room cfg j q m d = elim (Option-cases cfg.max_entries) [
  | inl e ↦ rw (e, make_room) (λ h. h)
  | inr (most, e) ↦ rw (e, make_room) (λ h. ground (arith, get-evict j (length m - most + 1) q m d))
]

write_ne : (cells : ℕ → Entry) (p q : ℕ) (e : Entry) → p ≢ q → write cells p e q ≡ cells q
write_ne cells p q e h = rw (==_ne p q h)

-- What a start of a request under `key` must know of each other key `j`.
Kept : String → Store → ℕ × Store → Type 0
Kept j s (p, t) = Unchanged j s t × ((q : ℕ) → get j t.table ≡ some q → p ≢ q)

pub prune-Owned :
    (owner : ℕ → String) (cfg : Config) (now : ℕ) (s : Store)
    → Owned owner s
    → Owned owner (prune_expired_entries cfg now s)
unfolding prune_expired_entries
prune-Owned owner cfg now s w = record {
  distinct = prune-Distinct cfg s.cells now s.table w.distinct;
  owned = λ j q h. w.owned j q (get-prune cfg s.cells now j q s.table w.distinct h);
  allocated = λ j q h. w.allocated j q (get-prune cfg s.cells now j q s.table w.distinct h);
}

module _ (owner : ℕ → String) (key j : String) (other : key ≢ j) where
  owners_differ : (p q : ℕ) → owner p ≡ key → owner q ≡ j → p ≢ q
  owners_differ p q mine his e = other (sym mine ∙ ap owner e ∙ his)

  -- A request that ends under `key`, at an address that belongs to `key`, changes no other circuit.
  pub leave-Unchanged :
      (cfg : Config) (p now later : ℕ) (o : Outcome) (s : Store)
      → Owned owner s
      → owner p ≡ key
      → Unchanged j s (leave cfg key p now later o s).0
  unfolding leave touch_entry
  leave-Unchanged cfg p now later o s w mine q h =
      let was : get j s.table ≡ some q = elim (Bool-cases (stores cfg o)) [
        | inl kept ↦ ground (
          arith,
          get-move key j p (set key p s.table) other,
          get-move key j p s.table other,
          get-set key j p s.table,
          ==_ne key j other,
        )
        | inr left ↦ ground (arith, get-move key j p s.table other)
      ] in
      let apart = owners_differ p q mine (w.owned j q was) in (was, rw (==_ne p q apart))

  get_pruned-Kept :
      (cfg : Config) (now : ℕ) (s : Store) → Owned owner s → Kept j s (get_pruned cfg key now s)
  unfolding Kept touch_entry insert_entry
  get_pruned-Kept cfg now s w =
      get_pruned_cases (Kept j s) cfg key now s
        (λ p e.
          let was = λ (q : ℕ) (h : get j (set key p (delete key s.table)) ≡ some q).
            (sym (get-move key j p s.table other) ∙ h) in
          let apart = λ (q : ℕ) (h : get j (set key p (delete key s.table)) ≡ some q).
            owners_differ p q (w.owned key p e) (w.owned j q (was q h)) in
          (λ q h. (was q h, write_ne s.cells p q _ (apart q h)), apart))
        (λ e.
          let was = λ (q : ℕ) (h : get j (set key s.next (make_room cfg s.table)) ≡ some q).
            get-make_room cfg j q s.table w.distinct
              (ground (arith, get-set key j s.next (make_room cfg s.table), ==_ne key j other)) in
          let apart = λ (q : ℕ) (h : get j (set key s.next (make_room cfg s.table)) ≡ some q).
            λ (same : s.next ≡ q). let small = w.allocated j q (was q h) in absurd (omega arith) in
          (λ q h. (was q h, write_ne s.cells s.next q _ (apart q h)), apart))

  get_entry-Kept :
      (cfg : Config) (now : ℕ) (s : Store) → Owned owner s → Kept j s (get_entry cfg key now s)
  unfolding Kept get_entry prune_expired_entries
  get_entry-Kept cfg now s w =
      let pruned = prune_expired_entries cfg now s in
      let (same, apart) = get_pruned-Kept cfg now pruned (prune-Owned owner cfg now s w) in
      (λ q h. (get-prune cfg s.cells now j q s.table w.distinct (same q h).0, (same q h).1), apart)

  -- A request that starts under `key` changes no other circuit that is still there afterwards;
  -- all it can do to another key is to remove it, by expiry or eviction.
  pub enter-Unchanged :
      (cfg : Config) (now : ℕ) (s : Store) → Owned owner s → Unchanged j s (enter cfg key now s).3
  unfolding enter touch_entry Kept
  enter-Unchanged cfg now s w q h =
      let (p, s1) = get_entry cfg key now s in
      let (same, apart) = get_entry-Kept cfg now s w in
      let h1 : get j s1.table ≡ some q = sym (get-move key j p s1.table other) ∙ h in
      ((same q h1).0, rw (==_ne p q (apart q h1)) (same q h1).1)
