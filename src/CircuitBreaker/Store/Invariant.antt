-- ===== src/CircuitBreaker/Store/Invariant.antt =====
-- The store of circuitBreaker.ts keeps its keys distinct, and its addresses allocated.
use pureq.Prelude.JsMap.{get, delete, Distinct, delete-Distinct, set-Distinct}
use pureq.Prelude.{
  ℕ, suc, ◌+◌, ◌-◌, ◌≤◌, ◌≡◌, refl, none, some, List, [], ◌∷◌, String, length, number_key, text_key,
  arith, Option-cases, inl, inr,
}
use pureq.CircuitBreaker.{Entry, Outcome, Config}
use pureq.CircuitBreaker.Store.{
  Store, evict, prune_table, prune_expired_entries, touch_entry, insert_entry, get_pruned,
  make_room, get_entry, enter, leave,
}

abbrev pub Table : Type 0
Table = List (String × ℕ)

-- What eviction or pruning leaves was there before.
pub get-evict-none : (j : String) (n : ℕ) (m : Table) → get j m ≡ none → get j (evict n m) ≡ none
unfolding get evict
get-evict-none j ℕ.zero m h = h
get-evict-none j (suc n) [] h = refl
get-evict-none j (suc n) ((k, p) ∷ m) h = get-evict-none j n m (ground arith)

pub get-evict :
    (j : String) (n q : ℕ) (m : Table) → Distinct m → get j (evict n m) ≡ some q → get j m ≡ some q
unfolding get evict
get-evict j ℕ.zero q m d h = h
get-evict j (suc n) q [] d h = h
get-evict j (suc n) q ((k, p) ∷ m) d h =
    ground (arith, text_key.same_iff k j, get-evict j n q m d.1, get-evict-none j n m)

pub evict-Distinct : (n : ℕ) (m : Table) → Distinct m → Distinct (evict n m)
unfolding evict
evict-Distinct ℕ.zero m d = d
evict-Distinct (suc n) [] d = tt
evict-Distinct (suc n) ((k, p) ∷ m) d = evict-Distinct n m d.1

pub length-evict : (n : ℕ) (m : Table) → length (evict n m) ≡ length m - n
unfolding evict
length-evict ℕ.zero m = omega arith
length-evict (suc n) [] = omega arith
length-evict (suc n) ((k, p) ∷ m) = omega (arith, length-evict n m)

module _ (cfg : Config) (cells : ℕ → Entry) (now : ℕ) where
  pub get-prune-none :
      (j : String) (m : Table) → get j m ≡ none → get j (prune_table cfg cells now m) ≡ none
  unfolding get prune_table
  get-prune-none j [] h = refl
  get-prune-none j ((k, p) ∷ m) h = ground (arith, get-prune-none j m)

  pub get-prune :
      (j : String) (q : ℕ) (m : Table)
      → Distinct m
      → get j (prune_table cfg cells now m) ≡ some q
      → get j m ≡ some q
  unfolding get prune_table
  get-prune j q [] d h = h
  get-prune j q ((k, p) ∷ m) d h =
      ground (arith, text_key.same_iff k j, get-prune j q m d.1, get-prune-none j m)

  pub prune-Distinct : (m : Table) → Distinct m → Distinct (prune_table cfg cells now m)
  unfolding prune_table
  prune-Distinct [] d = tt
  prune-Distinct ((k, p) ∷ m) d = ground (arith, prune-Distinct m d.1, get-prune-none k m d.0)

  pub length-prune-le : (m : Table) → length (prune_table cfg cells now m) ≤ length m
  unfolding prune_table
  length-prune-le [] = omega arith
  length-prune-le ((k, p) ∷ m) = ground (arith, length-prune-le m)

abbrev pub KeysDistinct : Store → Type 0
KeysDistinct s = Distinct s.table

touch_entry-KeysDistinct :
    (key : String) (p now : ℕ) (s : Store) → KeysDistinct s → KeysDistinct (touch_entry key p now s)
unfolding touch_entry
touch_entry-KeysDistinct key p now s d =
    set-Distinct key p (delete key s.table) (delete-Distinct key s.table d)

pub make_room-Distinct : (cfg : Config) (m : Table) → Distinct m → Distinct (make_room cfg m)
unfolding make_room
make_room-Distinct cfg m d = elim (Option-cases cfg.max_entries) [
  | inl e ↦ rw (e, make_room) d
  | inr (most, e) ↦ rw (e, make_room) (ground (arith, evict-Distinct (length m - most + 1) m d))
]

-- Splits `get_entry` on whether the map holds the key after the pruning.
pub get_pruned_cases {ℓ} :
    (P : ℕ × Store → Type ℓ) (cfg : Config) (key : String) (now : ℕ) (s : Store)
    → ((p : ℕ) → get key s.table ≡ some p → P (p, touch_entry key p now s))
    → (get key s.table ≡ none → P (insert_entry cfg key now s))
    → P (get_pruned cfg key now s)
unfolding get_pruned
get_pruned_cases P cfg key now s found missing = elim (Option-cases (get key s.table)) [
  | inl e ↦ rw (e, get_pruned) (missing e)
  | inr (p, e) ↦ rw (e, get_pruned) (found p e)
]

pub get_entry-KeysDistinct :
    (cfg : Config) (key : String) (now : ℕ) (s : Store)
    → KeysDistinct s
    → KeysDistinct (get_entry cfg key now s).1
unfolding get_entry prune_expired_entries insert_entry
get_entry-KeysDistinct cfg key now s d =
    let pruned = prune-Distinct cfg s.cells now s.table d in
    get_pruned_cases (λ r. KeysDistinct r.1) cfg key now (prune_expired_entries cfg now s)
      (λ p _. touch_entry-KeysDistinct key p now _ pruned)
      (λ _. set-Distinct key _ _ (make_room-Distinct cfg _ pruned))

pub enter-KeysDistinct :
    (cfg : Config) (key : String) (now : ℕ) (s : Store)
    → KeysDistinct s
    → KeysDistinct (enter cfg key now s).3
unfolding enter
enter-KeysDistinct cfg key now s d =
    touch_entry-KeysDistinct key _ now _ (get_entry-KeysDistinct cfg key now s d)

pub leave-KeysDistinct :
    (cfg : Config) (key : String) (p now later : ℕ) (o : Outcome) (s : Store)
    → KeysDistinct s
    → KeysDistinct (leave cfg key p now later o s).0
unfolding leave touch_entry
leave-KeysDistinct cfg key p now later o s d =
    set-Distinct key p _ (delete-Distinct key _ (ground (arith, d, set-Distinct key p s.table d)))
