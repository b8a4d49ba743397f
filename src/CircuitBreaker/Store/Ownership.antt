-- ===== src/CircuitBreaker/Store/Ownership.antt =====
-- Every address of the store of circuitBreaker.ts is handed out under one key and stays with it.
use pureq.Prelude.JsMap.{
  get, set, delete, Distinct, get-set, get-delete_ne, get-delete_self, set-Distinct,
  delete-Distinct,
}
use pureq.Prelude.{
  ℕ, ◌≤◌, ◌<◌, ◌≡◌, refl, ◌≢◌, some, List, String, ◌==◌, if◌then◌else◌, number_key, text_key, arith,
  inl, inr, ◌∙◌, ==_ne, ==_refl, Bool-cases,
}
use pureq.CircuitBreaker.{Outcome, Config, settle}
use pureq.CircuitBreaker.Store.{
  Store, empty, prune_expired_entries, touch_entry, insert_entry, get_pruned, make_room, get_entry,
  enter, leave, stores, write,
}
use pureq.CircuitBreaker.Store.Invariant.{get_pruned_cases, KeysDistinct, make_room-Distinct}
use pureq.CircuitBreaker.Store.Isolation.{Owned, get-make_room, prune-Owned}

pub empty-Owned : (owner : ℕ → String) → Owned owner empty
unfolding get
empty-Owned owner = record {
  distinct = tt;
  owned = λ j q h. absurd (cc);
  allocated = λ j q h. absurd (cc);
}

pub get-delete :
    (key j : String) (q : ℕ) (m : List (String × ℕ))
    → Distinct m
    → get j (delete key m) ≡ some q
    → get j m ≡ some q
get-delete key j q m d h = elim (Bool-cases (key == j)) [
  | inl same ↦ ground (arith, text_key.same_iff key j, get-delete_self key m d)
  | inr other ↦ ground (arith, get-delete_ne key j m)
]

-- A map that holds no more than an owned one.
pub restrict-Owned :
    (owner : ℕ → String) (s t : Store)
    → Owned owner s
    → KeysDistinct t
    → s.next ≤ t.next
    → ((j : String) (q : ℕ) → get j t.table ≡ some q → get j s.table ≡ some q)
    → Owned owner t
restrict-Owned owner s t w d grows sub = record {
  distinct = d;
  owned = λ j q h. w.owned j q (sub j q h);
  allocated = λ j q h. omega (arith, w.allocated j q (sub j q h));
}

-- A key set to an address of its own.
set-Owned :
    (owner : ℕ → String) (key : String) (p : ℕ) (s t : Store)
    → Owned owner s
    → owner p ≡ key
    → p < t.next
    → s.next ≤ t.next
    → t.table ≡ set key p s.table
    → Owned owner t
set-Owned owner key p s t w mine fresh grows e = record {
  distinct = rw e (set-Distinct key p s.table w.distinct);
  owned = λ j q h. ground (arith, get-set key j p s.table, text_key.same_iff key j, w.owned j q);
  allocated = λ j q h. ground (arith, get-set key j p s.table, w.allocated j q);
}

touch-Owned :
    (owner : ℕ → String) (key : String) (p now : ℕ) (s : Store)
    → Owned owner s
    → owner p ≡ key
    → p < s.next
    → Owned owner (touch_entry key p now s)
unfolding touch_entry
touch-Owned owner key p now s w mine fresh =
    set-Owned owner key p (record s { table = delete key s.table }) (touch_entry key p now s)
      (restrict-Owned owner s (record s { table = delete key s.table }) w
        (delete-Distinct key s.table w.distinct) (omega arith)
        (λ j q h. get-delete key j q s.table w.distinct h))
      mine fresh (omega arith) refl

pub leave-Owned :
    (owner : ℕ → String) (cfg : Config) (key : String) (p now later : ℕ) (o : Outcome) (s : Store)
    → Owned owner s
    → owner p ≡ key
    → p < s.next
    → Owned owner (leave cfg key p now later o s).0
unfolding leave
leave-Owned owner cfg key p now later o s w mine fresh =
    touch-Owned owner key p later
      (record s {
        cells = write s.cells p (settle cfg now o (s.cells p)).0;
        table = if stores cfg o then set key p s.table else s.table;
      })
      (elim (Bool-cases (stores cfg o)) [
        | inl kept ↦ rw kept (set-Owned owner key p s _ w mine fresh (omega arith) refl)
        | inr left ↦ rw left (restrict-Owned owner s _ w w.distinct (omega arith) (λ j q h. h))
      ])
      mine fresh

-- A start of a request under `key` came to the address `p` in the store `t`: `p` belongs to
-- `key`, is allocated, and every address that was allocated keeps its owner.
pub record Takes (owner : ℕ → String) (key : String) (s : Store) (r : ℕ × Store) : Type 0 where
  pub owner' : ℕ → String
  pub sound : Owned owner' r.1
  pub mine : owner' r.0 ≡ key
  pub fresh : r.0 < r.1.next
  pub grows : s.next ≤ r.1.next
  pub keeps : (q : ℕ) → q < s.next → owner' q ≡ owner q

own : (ℕ → String) → ℕ → String → ℕ → String
own owner p key q = if p == q then key else owner q

own_self : (owner : ℕ → String) (p : ℕ) (key : String) → own owner p key p ≡ key
unfolding own
own_self owner p key = rw (==_refl p)

own_ne : (owner : ℕ → String) (p q : ℕ) (key : String) → p ≢ q → own owner p key q ≡ owner q
unfolding own
own_ne owner p q key h = rw (==_ne p q h)

module _ (owner : ℕ → String) (cfg : Config) (key : String) (now : ℕ) where
  own-Owned : (s : Store) → Owned owner s → Owned (own owner s.next key) s
  own-Owned s w = record {
    distinct = w.distinct;
    owned = λ j q h.
        let small = w.allocated j q h in
        own_ne owner s.next q key (λ e. absurd (omega arith)) ∙ w.owned j q h;
    allocated = w.allocated;
  }

  insert-Takes : (s : Store) → Owned owner s → Takes owner key s (insert_entry cfg key now s)
  unfolding insert_entry
  insert-Takes s w = record {
    owner' = own owner s.next key;
    sound =
        set-Owned (own owner s.next key) key s.next (record s { table = make_room cfg s.table })
          (insert_entry cfg key now s).1
          (restrict-Owned (own owner s.next key) s _ (own-Owned s w)
            (make_room-Distinct cfg s.table w.distinct) (omega arith)
            (λ j q h. get-make_room cfg j q s.table w.distinct h))
          (own_self owner s.next key) (omega arith) (omega arith) refl;
    mine = own_self owner s.next key;
    fresh = omega arith;
    grows = omega arith;
    keeps = λ q h. own_ne owner s.next q key (λ e. absurd (omega arith));
  }

  get_pruned-Takes : (s : Store) → Owned owner s → Takes owner key s (get_pruned cfg key now s)
  unfolding touch_entry
  get_pruned-Takes s w =
      get_pruned_cases (Takes owner key s) cfg key now s
        (λ p e. record {
          owner' = owner;
          sound = touch-Owned owner key p now s w (w.owned key p e) (w.allocated key p e);
          mine = w.owned key p e;
          fresh = w.allocated key p e;
          grows = omega arith;
          keeps = λ q h. refl;
        })
        (λ e. insert-Takes s w)

  pub enter-Takes :
      (s : Store)
      → Owned owner s
      → Takes owner key s ((enter cfg key now s).0, (enter cfg key now s).3)
  unfolding enter get_entry touch_entry prune_expired_entries
  enter-Takes s w =
      let pruned = prune_expired_entries cfg now s in
      let g = get_pruned-Takes pruned (prune-Owned owner cfg now s w) in
      let r = get_pruned cfg key now pruned in
      record {
        owner' = g.owner';
        sound =
            restrict-Owned g.owner' (touch_entry key r.0 now r.1) _
              (touch-Owned g.owner' key r.0 now r.1 g.sound g.mine g.fresh)
              (touch-Owned g.owner' key r.0 now r.1 g.sound g.mine g.fresh).distinct (omega arith)
              (λ j q h. h);
        mine = g.mine;
        fresh = g.fresh;
        grows = g.grows;
        keeps = g.keeps;
      }
