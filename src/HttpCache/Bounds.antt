-- ===== src/HttpCache/Bounds.antt =====
-- How many responses the cache of httpCache.ts holds, and what a request does to other keys.
use pureq.Http.{HttpMethod, has_method}
use pureq.Prelude.JsMap.{get, set, delete, Distinct, get-set, get-delete_ne, length-set-delete}
use pureq.Prelude.{
  ℕ, suc, ◌+◌, ◌-◌, ◌≤◌, max, ◌≡◌, refl, sym, subst, ap, ◌∙◌, ◌⊎◌, inl, inr, true, false, not, ◌&&◌,
  Option, none, some, [], ◌∷◌, String, leb, leb→le, ◌==◌, if◌then◌else◌, number_key, text_key,
  Bool-cases, Option-cases, arith, is_some, length,
}
use pureq.HttpCache.{
  Options, Headers, Response, CachedEntry, Cache, Reply, responded, failed, is_ok, lookup,
  lookup_key, finish, store, make_room, drop_oldest, resolve_stale_policy,
}

module _ {B : Type 0} where
  drop_oldest-Distinct : (c : Cache B) → Distinct c → Distinct (drop_oldest c)
  unfolding drop_oldest
  drop_oldest-Distinct [] d = tt
  drop_oldest-Distinct ((k, e) ∷ c) d = d.1

  make_room-Distinct :
      (o : Options) (key : String) (c : Cache B) → Distinct c → Distinct (make_room o key c)
  unfolding make_room
  make_room-Distinct o key c d = elim (Option-cases o.max_entries) [
    | inl p ↦ rw (make_room, p) d
    | inr (most, p) ↦ elim (Bool-cases (leb most (length c) && not (is_some (get key c)))) [
      | inl q ↦ rw (make_room, p) (rw q (drop_oldest-Distinct c d))
      | inr q ↦ rw (make_room, p) (rw q d)
    ]
  ]

  length-drop_oldest : (c : Cache B) → length (drop_oldest c) ≡ length c - 1
  unfolding drop_oldest
  length-drop_oldest [] = refl
  length-drop_oldest ((k, e) ∷ c) = omega arith

  get-drop_oldest-none :
      (key : String) (c : Cache B) → get key c ≡ none → get key (drop_oldest c) ≡ none
  unfolding drop_oldest get
  get-drop_oldest-none key [] h = refl
  get-drop_oldest-none key ((k, e) ∷ c) h = ground arith

  -- with room made there is a place for the key
  length-make_room :
      (o : Options) (most : ℕ) (key : String) (c : Cache B)
      → o.max_entries ≡ some most
      → length c ≤ max 1 most
      → (if is_some (get key (make_room o key c))
          then length (make_room o key c)
          else suc (length (make_room o key c)))
        ≤ max 1 most
  unfolding make_room
  length-make_room o most key c p h =
      elim (Bool-cases (leb most (length c) && not (is_some (get key c)))) [
        | inl q ↦ let small = length-drop_oldest c in rw (make_room, p) (rw q (ground arith))
        | inr q ↦ rw (make_room, p) (rw q (ground arith))
      ]

  length-store :
      (o : Options) (most : ℕ) (key : String) (now : ℕ) (r : Response B) (c : Cache B)
      → o.max_entries ≡ some most
      → Distinct c
      → length c ≤ max 1 most
      → length (store o key now r c) ≤ max 1 most
  unfolding store
  length-store o most key now r c p d h = elim (Bool-cases (is_ok r)) [
    | inr q ↦ rw q h
    | inl q ↦
        let entry : CachedEntry B = record {
          response = r;
          stored_at = now;
          etag = r.etag;
          last_modified = r.last_modified;
        } in
        let size = length-set-delete key entry (make_room o key c) (make_room-Distinct o key c d) in
        let room = length-make_room o most key c p h in rw q (omega (arith, size, room))
  ]

  -- A request that starts leaves the number of responses as it is.
  pub length-lookup :
      (o : Options) (m : HttpMethod) (key : String) (headers : Headers) (now : ℕ) (c : Cache B)
      → Distinct c
      → length (lookup o m key headers now c).1 ≡ length c
  unfolding lookup lookup_key resolve_stale_policy
  length-lookup o m key headers now c d = elim (Bool-cases (has_method o.methods m)) [
    | inr unlisted ↦ rw unlisted refl
    | inl listed ↦ elim (Option-cases (get key c)) [
      | inl absent ↦ rw listed (rw (lookup_key, absent) refl)
      | inr (e, p) ↦
          let size = length-set-delete key e c d in
          elim (Bool-cases (leb (now - e.stored_at) o.ttl_ms)) [
            | inl young ↦ rw listed (rw (lookup_key, p) (rw young (size ∙ rw p refl)))
            | inr old ↦ rw listed (rw (lookup_key, p) (rw old refl))
          ]
    ]
  ]

  -- A request that ends keeps the cache within `maxEntries` (within one, if that is 0), where the
  -- entry that it found, if any, is still in the map.
  pub length-finish :
      (o : Options) (most : ℕ) (key : String) (found : Option (CachedEntry B)) (now : ℕ)
      (reply : Reply B) (c : Cache B)
      → o.max_entries ≡ some most
      → Distinct c
      → length c ≤ max 1 most
      → (found ≡ none) ⊎ (is_some (get key c) ≡ true)
      → length (finish o key found now reply c).1 ≤ max 1 most
  unfolding finish resolve_stale_policy
  length-finish o most key none now (responded r) c p d h there =
      length-store o most key now r c p d h
  length-finish o most key none now failed c p d h there = h
  length-finish o most key (some e) now failed c p d h there = ground arith
  length-finish o most key (some e) now (responded r) c p d h there =
      let entry : CachedEntry B = record e { stored_at = now } in
      let stored = length-store o most key now r c p d h in
      elim (Bool-cases (r.status == 304)) [
        | inr q ↦ rw q stored
        | inl q ↦ elim there [
          | inl none_found ↦ absurd (cc)
          | inr present ↦
              let size = length-set-delete key entry c d in
              rw q (subst (λ n. n ≤ max 1 most) (sym (size ∙ rw present refl)) h)
        ]
      ]

  -- A 304 for an entry that was evicted while the request was in flight puts the entry back, and
  -- the cache has one response more than before, whatever `maxEntries` says.
  pub revalidation_restores :
      (o : Options) (key : String) (e : CachedEntry B) (now : ℕ) (r : Response B) (c : Cache B)
      → Distinct c
      → r.status ≡ 304
      → get key c ≡ none
      → length (finish o key (some e) now (responded r) c).1 ≡ suc (length c)
  unfolding finish
  revalidation_restores o key e now r c d s h =
      let entry : CachedEntry B = record e { stored_at = now } in
      let size = length-set-delete key entry c d in
      let hit : (r.status == 304) ≡ true = (number_key.same_iff r.status 304).1 s in
      rw hit (size ∙ rw h refl)

  get-drop_oldest :
      (j : String) (c : Cache B)
      → (get j (drop_oldest c) ≡ get j c)
        ⊎ ((e : CachedEntry B) × (rest : Cache B) × (c ≡ (j, e) ∷ rest))
  unfolding drop_oldest get
  get-drop_oldest j [] = inl refl
  get-drop_oldest j ((k, e) ∷ c) = elim (Bool-cases (k == j)) [
    | inl q ↦ inr (e, c, ap (λ i. (i, e) ∷ c) ((text_key.same_iff k j).0 q))
    | inr q ↦ inl (rw q refl)
  ]

  get-move :
      (j key : String) (e : CachedEntry B) (c : Cache B)
      → (key == j) ≡ false
      → get j (set key e (delete key c)) ≡ get j c
  get-move j key e c other = get-set key j e (delete key c) ∙ rw other (get-delete_ne key j c other)

  -- the cache is full, the key is new to it, and the entry of `j` is its oldest
  abbrev pub GivenUp : Options → String → String → Cache B → Type 0
  GivenUp o key j c =
      ((most : ℕ) × (o.max_entries ≡ some most) × (most ≤ length c))
      × (get key c ≡ none)
      × ((e : CachedEntry B) × (rest : Cache B) × (c ≡ (j, e) ∷ rest))

  get-make_room :
      (o : Options) (key j : String) (c : Cache B)
      → (get j (make_room o key c) ≡ get j c) ⊎ GivenUp o key j c
  unfolding make_room
  get-make_room o key j c = elim (Option-cases o.max_entries) [
    | inl p ↦ inl (rw (make_room, p) refl)
    | inr (most, p) ↦ elim (Bool-cases (leb most (length c))) [
      | inr q ↦ inl (rw (make_room, p) (rw q refl))
      | inl q ↦ elim (Option-cases (get key c)) [
        | inr (e, g) ↦ inl (rw (make_room, p) (rw (q, g) refl))
        | inl g ↦ elim (get-drop_oldest j c) [
          | inl same ↦ inl (rw (make_room, p) (rw (q, g) same))
          | inr oldest ↦ inr ((most, p, leb→le most (length c) q), g, oldest)
        ]
      ]
    ]
  ]

  get-store :
      (o : Options) (key j : String) (now : ℕ) (r : Response B) (c : Cache B)
      → (key == j) ≡ false
      → (get j (store o key now r c) ≡ get j c) ⊎ GivenUp o key j c
  unfolding store
  get-store o key j now r c other = elim (Bool-cases (is_ok r)) [
    | inr q ↦ inl (rw q refl)
    | inl q ↦ elim (get-make_room o key j c) [
      | inl same ↦ inl (rw q (get-move j key _ (make_room o key c) other ∙ same))
      | inr gone ↦ inr gone
    ]
  ]

  -- What is stored under another key is not touched by a request that ends, except that the oldest
  -- entry may be given up where the cache is full and the key is new to it.
  pub finish_other_keys :
      (o : Options) (key j : String) (found : Option (CachedEntry B)) (now : ℕ) (reply : Reply B)
      (c : Cache B)
      → (key == j) ≡ false
      → (get j (finish o key found now reply c).1 ≡ get j c) ⊎ GivenUp o key j c
  unfolding finish resolve_stale_policy
  finish_other_keys o key j none now (responded r) c other = get-store o key j now r c other
  finish_other_keys o key j none now failed c other = inl refl
  finish_other_keys o key j (some e) now failed c other =
      elim (Bool-cases (leb (now - e.stored_at) (o.ttl_ms + o.stale_if_error_ms))) [
        | inl q ↦ inl (rw q refl)
        | inr q ↦ inl (rw q refl)
      ]
  finish_other_keys o key j (some e) now (responded r) c other =
      let stored = get-store o key j now r c other in
      elim (Bool-cases (r.status == 304)) [
        | inl q ↦ inl (rw q (get-move j key (record e { stored_at = now }) c other))
        | inr q ↦ rw q stored
      ]
