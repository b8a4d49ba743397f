-- ===== src/CircuitBreaker/Store/Runs.antt =====
-- circuitBreaker.ts over every history of starts, ends and resets of requests under many keys.
use pureq.Prelude.JsMap.{get, delete-Distinct}
use pureq.Prelude.{
  ℕ, ◌≤◌, ◌<◌, ◌≡◌, refl, ◌≢◌, Option, none, some, List, [], ◌∷◌, String, number_key, text_key,
  arith, inl, inr, All, All-map, All-remove_at, All-get_elem?, get_elem?, remove_at, ◌∙◌,
  Option-cases,
}
use pureq.CircuitBreaker.{Outcome, Config, Verdict, admitted, circuit_open, probe_busy}
use pureq.CircuitBreaker.Store.{
  Store, empty, enter, leave, reset, touch_entry, System, Act, enters, leaves, resets, fly, act,
  act_all,
}
use pureq.CircuitBreaker.Store.Isolation.{Owned, Unchanged, leave-Unchanged, enter-Unchanged}
use pureq.CircuitBreaker.Store.Ownership.{
  empty-Owned, restrict-Owned, get-delete, leave-Owned, enter-Takes,
}

abbrev Mine : (ℕ → String) → Store → String × ℕ → Type 0
Mine owner s (key, p) = (owner p ≡ key) × (p < s.next)

-- The requests in flight hold addresses of their own keys.
pub record IsSound (y : System) : Type 0 where
  pub owner : ℕ → String
  pub owned : Owned owner y.store
  pub flying : All (Mine owner y.store) y.flights

abbrev pub idle : System
idle = record { store = empty; flights = [] }

idle-IsSound : IsSound idle
idle-IsSound = record { owner = λ _. ""; owned = empty-Owned (λ _. ""); flying = tt }

reset-Owned :
    (owner : ℕ → String) (key : Option String) (s : Store)
    → Owned owner s
    → Owned owner (reset key s)
unfolding reset get
reset-Owned owner none s w =
    restrict-Owned owner s (reset none s) w tt (omega arith) (λ j q h. absurd (cc))
reset-Owned owner (some key) s w =
    restrict-Owned owner s (reset (some key) s) w (delete-Distinct key s.table w.distinct)
      (omega arith) (λ j q h. get-delete key j q s.table w.distinct h)

leave-next :
    (cfg : Config) (key : String) (p now later : ℕ) (o : Outcome) (s : Store)
    → s.next ≤ (leave cfg key p now later o s).0.next
unfolding leave touch_entry
leave-next cfg key p now later o s = omega arith

reset-next : (key : Option String) (s : Store) → s.next ≤ (reset key s).next
unfolding reset
reset-next none s = omega arith
reset-next (some key) s = omega arith

act_leaves :
    (cfg : Config) (y : System) (i now later : ℕ) (o : Outcome) (key : String) (p : ℕ)
    → get_elem? y.flights i ≡ some (key, p)
    → act cfg y (leaves i now later o)
      ≡ record { store = (leave cfg key p now later o y.store).0; flights = remove_at i y.flights }
unfolding act
act_leaves cfg y i now later o key p e = rw (e, act)

act_leaves_none :
    (cfg : Config) (y : System) (i now later : ℕ) (o : Outcome)
    → get_elem? y.flights i ≡ none
    → act cfg y (leaves i now later o) ≡ y
unfolding act
act_leaves_none cfg y i now later o e = rw (e, act)

All-fly :
    (P : String × ℕ → Type 0) (v : Verdict) (x : String × ℕ) (xs : List (String × ℕ))
    → P x
    → All P xs
    → All P (fly v x xs)
All-fly P admitted x xs p h = (p, h)
All-fly P circuit_open x xs p h = h
All-fly P probe_busy x xs p h = h

-- Addresses that stay allocated to the same owners.
Mine-mono :
    (owner owner' : ℕ → String) (s t : Store) (xs : List (String × ℕ))
    → s.next ≤ t.next
    → ((q : ℕ) → q < s.next → owner' q ≡ owner q)
    → All (Mine owner s) xs
    → All (Mine owner' t) xs
Mine-mono owner owner' s t xs grows keeps = All-map (λ x m. (keeps x.1 m.1 ∙ m.0, omega arith)) xs

leaves-IsSound :
    (cfg : Config) (y : System) (i now later : ℕ) (o : Outcome)
    → IsSound y
    → IsSound (act cfg y (leaves i now later o))
leaves-IsSound cfg y i now later o w = elim (Option-cases (get_elem? y.flights i)) [
  | inl e ↦ rw (act_leaves_none cfg y i now later o e) w
  | inr ((key, p), e) ↦
      let (mine, fresh) = All-get_elem? (Mine w.owner y.store) i y.flights (key, p) w.flying e in
      rw (act_leaves cfg y i now later o key p e) (record {
        owner = w.owner;
        owned = leave-Owned w.owner cfg key p now later o y.store w.owned mine fresh;
        flying =
            Mine-mono w.owner w.owner y.store (leave cfg key p now later o y.store).0 _
              (leave-next cfg key p now later o y.store) (λ q h. refl)
              (All-remove_at (Mine w.owner y.store) i y.flights w.flying);
      })
]

act-IsSound : (cfg : Config) (y : System) (a : Act) → IsSound y → IsSound (act cfg y a)
unfolding act
act-IsSound cfg y (enters key now) w =
    let t = enter-Takes w.owner cfg key now y.store w.owned in
    record {
      owner = t.owner';
      owned = t.sound;
      flying =
          All-fly _ (enter cfg key now y.store).1 _ y.flights (t.mine, t.fresh)
            (Mine-mono w.owner t.owner' y.store (enter cfg key now y.store).3 y.flights t.grows
              t.keeps w.flying);
    }
act-IsSound cfg y (leaves i now later o) w = leaves-IsSound cfg y i now later o w
act-IsSound cfg y (resets key) w = record {
  owner = w.owner;
  owned = reset-Owned w.owner key y.store w.owned;
  flying =
      Mine-mono w.owner w.owner y.store (reset key y.store) y.flights (reset-next key y.store)
        (λ q h. refl) w.flying;
}

act_all-IsSound :
    (cfg : Config) (acts : List Act) (y : System) → IsSound y → IsSound (act_all cfg y acts)
unfolding act_all
act_all-IsSound cfg [] y w = w
act_all-IsSound cfg (a ∷ acts) y w = act_all-IsSound cfg acts (act cfg y a) (act-IsSound cfg y a w)

-- The step is no request under `j`.
abbrev pub Elsewhere : String → System → Act → Type 0
Elsewhere j y (enters key now) = key ≢ j
Elsewhere j y (leaves i now later o) =
    (key : String) (p : ℕ) → get_elem? y.flights i ≡ some (key, p) → key ≢ j
Elsewhere j y (resets key) = Unit

step-Unchanged :
    (cfg : Config) (y : System) (a : Act) (j : String)
    → IsSound y
    → Elsewhere j y a
    → Unchanged j y.store (act cfg y a).store
step-Unchanged cfg y (enters key now) j w other =
    unfold act in enter-Unchanged w.owner key j other cfg now y.store w.owned
step-Unchanged cfg y (leaves i now later o) j w other =
    elim (Option-cases (get_elem? y.flights i)) [
      | inl e ↦ rw (act_leaves_none cfg y i now later o e) (λ q h. (h, refl))
      | inr ((key, p), e) ↦
          let (mine, fresh) =
            All-get_elem? (Mine w.owner y.store) i y.flights (key, p) w.flying e in
          rw (act_leaves cfg y i now later o key p e)
            (leave-Unchanged w.owner key j (other key p e) cfg p now later o y.store w.owned mine)
    ]
step-Unchanged cfg y (resets none) j w other = unfold act reset get in λ q h. absurd (cc)
step-Unchanged cfg y (resets (some key)) j w other =
    unfold act reset in λ q h. (get-delete key j q y.store.table w.owned.distinct h, refl)

-- Circuits are independent over all histories: after any starts, ends and resets from an empty
-- breaker, one more step that is no request under `j` leaves the circuit of `j`, if it is still
-- in the map afterwards, the same object with the same contents.
pub history_isolated :
    (cfg : Config) (acts : List Act) (a : Act) (j : String)
    → Elsewhere j (act_all cfg idle acts) a
    → Unchanged j (act_all cfg idle acts).store (act cfg (act_all cfg idle acts) a).store
history_isolated cfg acts a j other =
    step-Unchanged cfg _ a j (act_all-IsSound cfg acts idle idle-IsSound) other
