-- ===== src/HttpCache/Origin.antt =====
-- Where the answers of the cache of httpCache.ts come from, whatever requests run at the same time.
use pureq.Http.{HttpMethod, has_method}
use pureq.Prelude.JsMap.{
  get, set, delete, AllEntries, get-AllEntries, set-AllEntries, delete-AllEntries,
}
use pureq.Prelude.{
  ℕ, ◌+◌, ◌-◌, ◌≤◌, ◌≡◌, refl, ◌⊎◌, inl, inr, true, not, ◌&&◌, Option, none, some, List, [], ◌∷◌,
  ◌++◌, String, leb, ◌==◌, number_key, text_key, get_elem?, remove_at, All, All-append,
  All-remove_at, All-get_elem?, Bool-cases, Option-cases, arith, is_some, length,
}
use pureq.HttpCache.{
  Options, Headers, Response, CachedEntry, Cache, Lookup, bypass, fresh, ask, Reply, responded,
  failed, Answer, passed, revalidated, stale, threw, is_ok, lookup, lookup_key, finish, store,
  make_room, drop_oldest, resolve_stale_policy,
}

-- `starts method key headers now`, and `finishes i now n`: the flight at place i hears from
-- `next` at `now`; n tells apart what the server may say at that time.
pub data Event : Type 0 where
  starts : HttpMethod → String → Headers → ℕ → Event
  finishes : ℕ → ℕ → ℕ → Event

-- The requests that wait for `next`, each with its key and the entry it found.
abbrev pub Flights : Type 0 → Type 0
Flights B = List (String × Option (CachedEntry B))

pub record System (B : Type 0) : Type 0 where
  pub cache : Cache B
  pub flights : Flights B

-- An answer of the middleware with its key and its time.
pub data Logged (B : Type 0) : Type 0 where
  served_fresh : String → ℕ → Response B → Logged B
  answered : String → ℕ → Answer B → Logged B

module _ {B : Type 0} where
  unfoldable pub begin : String → ℕ → Lookup B × Cache B → Flights B → System B × List (Logged B)
  begin key now (bypass, c) fs = (record { cache = c; flights = fs }, [])
  begin key now (fresh r, c) fs = (record { cache = c; flights = fs }, served_fresh key now r ∷ [])
  begin key now (ask headers found, c) fs = (record { cache = c; flights = (key, found) ∷ fs }, [])

  abbrev pub empty : System B
  empty = record { cache = []; flights = [] }

  module _ (o : Options) (server : String → ℕ → ℕ → Reply B) where
    unfoldable pub land :
        Option (String × Option (CachedEntry B)) → ℕ → ℕ → ℕ → System B → System B × List (Logged B)
    land none i now n y = (y, [])
    land (some (key, found)) i now n y =
        let (a, c) = finish o key found now (server key now n) y.cache in
        (record { cache = c; flights = remove_at i y.flights }, answered key now a ∷ [])

    unfoldable pub step : System B → Event → System B × List (Logged B)
    step y (starts m key headers now) = begin key now (lookup o m key headers now y.cache) y.flights
    step y (finishes i now n) = land (get_elem? y.flights i) i now n y

    unfoldable pub run : System B → List Event → List (Logged B)
    run y [] = []
    run y (e ∷ es) = let (y', out) = step y e in out ++ run y' es

    -- the server gave this response for the key at the time
    abbrev pub Origin : String → Response B → ℕ → Type 0
    Origin key r t = (n : ℕ) × (server key t n ≡ responded r)

    -- the server said at the time that this response is the current one: it gave it, or a 304
    abbrev pub Confirmed : String → Response B → ℕ → Type 0
    Confirmed key r t = Origin key r t ⊎ ((r' : Response B) × (r'.status ≡ 304) × Origin key r' t)

    abbrev pub FromServer : String → Response B → Type 0
    FromServer key r = (is_ok r ≡ true) × ((t : ℕ) × Origin key r t)

    abbrev pub Justified : Logged B → Type 0
    Justified (served_fresh key now r) =
        FromServer key r × ((t : ℕ) × (now ≤ t + o.ttl_ms) × Confirmed key r t)
    Justified (answered key now (passed r)) = Origin key r now
    Justified (answered key now (revalidated r)) = FromServer key r × Confirmed key r now
    Justified (answered key now (stale r)) =
        ((n : ℕ) × (server key now n ≡ failed))
        × FromServer key r
        × ((t : ℕ) × (now ≤ t + o.ttl_ms + o.stale_if_error_ms) × Confirmed key r t)
    Justified (answered key now threw) = (n : ℕ) × (server key now n ≡ failed)

    abbrev Genuine : String → CachedEntry B → Type 0
    Genuine key e = FromServer key e.response × Confirmed key e.response e.stored_at

    abbrev GenuineFound : String × Option (CachedEntry B) → Type 0
    GenuineFound (key, none) = Unit
    GenuineFound (key, some e) = Genuine key e

    abbrev GenuineCache : Cache B → Type 0
    GenuineCache c = AllEntries Genuine c

    abbrev GenuineSystem : System B → Type 0
    GenuineSystem y = GenuineCache y.cache × All GenuineFound y.flights

    move-Genuine :
        (key : String) (e : CachedEntry B) (c : Cache B)
        → GenuineCache c
        → Genuine key e
        → GenuineCache (set key e (delete key c))
    move-Genuine key e c g h =
        set-AllEntries Genuine key e (delete key c) (delete-AllEntries Genuine key c g) h

    drop_oldest-Genuine : (c : Cache B) → GenuineCache c → GenuineCache (drop_oldest c)
    unfolding drop_oldest
    drop_oldest-Genuine [] g = tt
    drop_oldest-Genuine ((k, e) ∷ c) g = g.1

    make_room-Genuine :
        (key : String) (c : Cache B) → GenuineCache c → GenuineCache (make_room o key c)
    unfolding make_room
    make_room-Genuine key c g = elim (Option-cases o.max_entries) [
      | inl p ↦ rw (make_room, p) g
      | inr (most, p) ↦ elim (Bool-cases (leb most (length c) && not (is_some (get key c)))) [
        | inl q ↦ rw (make_room, p) (rw q (drop_oldest-Genuine c g))
        | inr q ↦ rw (make_room, p) (rw q g)
      ]
    ]

    store-Genuine :
        (key : String) (now : ℕ) (r : Response B) (c : Cache B)
        → GenuineCache c
        → Origin key r now
        → GenuineCache (store o key now r c)
    unfolding store
    store-Genuine key now r c g h = elim (Bool-cases (is_ok r)) [
      | inl p ↦ rw p (
          move-Genuine key _ (make_room o key c) (make_room-Genuine key c g) ((p, (now, h)), inl h))
      | inr p ↦ rw p g
    ]

    finish-Genuine :
        (key : String) (found : Option (CachedEntry B)) (now n : ℕ) (reply : Reply B) (c : Cache B)
        → server key now n ≡ reply
        → GenuineFound (key, found)
        → GenuineCache c
        → let result = finish o key found now reply c in
          Justified (answered key now result.0) × GenuineCache result.1
    unfolding finish resolve_stale_policy
    finish-Genuine key none now n (responded r) c h f g =
        ((n, h), store-Genuine key now r c g (n, h))
    finish-Genuine key none now n failed c h f g = ((n, h), g)
    finish-Genuine key (some e) now n (responded r) c h f g = elim (Bool-cases (r.status == 304)) [
      | inl p ↦
          let current : Confirmed key e.response now =
            inr (r, (number_key.same_iff r.status 304).0 p, (n, h)) in
          rw p ((f.0, current), move-Genuine key _ c g (f.0, current))
      | inr p ↦ rw p ((n, h), store-Genuine key now r c g (n, h))
    ]
    finish-Genuine key (some e) now n failed c h f g =
        elim (Bool-cases (leb (now - e.stored_at) (o.ttl_ms + o.stale_if_error_ms))) [
          | inl p ↦ rw p (((n, h), f.0, (e.stored_at, ground arith, f.1)), g)
          | inr p ↦ rw p ((n, h), g)
        ]

    begin-Genuine :
        (m : HttpMethod) (key : String) (headers : Headers) (now : ℕ) (y : System B)
        → GenuineSystem y
        → let result = begin key now (lookup o m key headers now y.cache) y.flights in
          All Justified result.1 × GenuineSystem result.0
    unfolding lookup lookup_key begin resolve_stale_policy
    begin-Genuine m key headers now y g = elim (Bool-cases (has_method o.methods m)) [
      | inr unlisted ↦ rw unlisted (tt, g)
      | inl listed ↦ elim (Option-cases (get key y.cache)) [
        | inl absent ↦ rw listed (rw (lookup_key, absent) (tt, (g.0, (tt, g.1))))
        | inr (e, p) ↦
            let genuine = get-AllEntries Genuine key e y.cache g.0 p in
            elim (Bool-cases (leb (now - e.stored_at) o.ttl_ms)) [
              | inl young ↦ rw listed (
                  rw (lookup_key, p)
                    (rw young (
                      ((genuine.0, (e.stored_at, ground arith, genuine.1)), tt),
                      (move-Genuine key e y.cache g.0 genuine, g.1),
                    )))
              | inr old ↦ rw listed (rw (lookup_key, p) (rw old (tt, (g.0, (genuine, g.1)))))
            ]
      ]
    ]

    step-Genuine :
        (y : System B) (e : Event)
        → GenuineSystem y
        → All Justified (step y e).1 × GenuineSystem (step y e).0
    unfolding step land
    step-Genuine y (starts m key headers now) g = begin-Genuine m key headers now y g
    step-Genuine y (finishes i now n) g = elim (Option-cases (get_elem? y.flights i)) [
      | inl p ↦ rw (land, p) (tt, g)
      | inr ((key, found), p) ↦
          let mine = All-get_elem? GenuineFound i y.flights (key, found) g.1 p in
          let (here, cache) =
            finish-Genuine key found now n (server key now n) y.cache refl mine g.0 in
          rw (land, p) ((here, tt), (cache, All-remove_at GenuineFound i y.flights g.1))
    ]

    run-Genuine : (y : System B) (es : List Event) → GenuineSystem y → All Justified (run y es)
    unfolding run
    run-Genuine y [] g = tt
    run-Genuine y (e ∷ es) g =
        let (now, later) = step-Genuine y e g in
        All-append Justified (step y e).1 (run (step y e).0 es) now
          (run-Genuine (step y e).0 es later)

    -- From an empty cache, whatever requests start and end in whatever order, every answer is one
    -- that the server justifies for its own key. A fresh answer is a successful response that the
    -- server gave, or confirmed by a 304, no longer than the ttl ago; one after a 304 is confirmed
    -- at that time; a stale one follows a failure and is no older than the ttl and the grace
    -- together; every other one is what the server said just then.
    pub run-Justified : (es : List Event) → All Justified (run empty es)
    run-Justified es = run-Genuine empty es (tt, tt)
