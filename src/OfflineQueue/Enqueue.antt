-- ===== src/OfflineQueue/Enqueue.antt =====
-- What the middleware of offlineQueue.ts does to the storage.
use pureq.Http.{has_method}
use pureq.Prelude.{
  ℕ, ◌+◌, ◌≤◌, ◌<◌, ◌≡◌, ◌≢◌, refl, ap, sym, subst, ◌⊎◌, inl, inr, Bool, true, false, not, ◌&&◌,
  Option, List, [], ◌∷◌, ◌++◌, All, All-map, All-append, All-keep_if, leb, Bool-cases, number_key,
  length, length-append, length-keep_if-le, keep_if, arith, if◌then◌else◌,
}
use pureq.OfflineQueue.{
  Queued, Request, QueueStorage, Controller, Options, Answer, passed_on, queue_full, accepted,
  enqueue, clone_request_for_queue, queued_item, is_expired, perform_flush, clear,
}
use pureq.OfflineQueue.Removal.{DistinctIds}
use pureq.OfflineQueue.Flush.{answered, perform_flush_lem}

module _ {B : Type 0} (st : QueueStorage B) where
  -- Every queued request has an id that the counter gave out, and no two have the same.
  abbrev pub IsValid : Controller st → Type 0
  IsValid c = All (λ x. x.id < c.next_id) (st.get_all c.items) × DistinctIds (st.get_all c.items)

  abbrev pub Accepts : Options → Bool → Request B → Controller st → Type 0
  Accepts o offline r c =
      (offline ≡ true)
      × (has_method o.methods r.method ≡ true)
      × (st.size c.items < o.max_queue_size)

  DistinctIds-append :
      (x : Queued B) (xs : List (Queued B))
      → All (λ y. y.id < x.id) xs
      → DistinctIds xs
      → DistinctIds (xs ++ x ∷ [])
  DistinctIds-append x [] h d = (tt, tt)
  DistinctIds-append x (y ∷ ys) h d = (
    All-append _ ys (x ∷ []) d.0 ((λ e. absurd (omega arith)), tt),
    DistinctIds-append x ys h.1 d.1,
  )

  -- `after` is `c` with one more request at the end, a copy of `r` without its signal that expires
  -- a ttl from now, under the id that the counter shows.
  abbrev pub Appended :
      Options → ℕ → Request B → Controller st → Answer × Controller st → Queued B → Type 0
  Appended o now r c result x =
      (result.0 ≡ accepted c.next_id)
      × (result.1.next_id ≡ c.next_id + 1)
      × (st.get_all result.1.items ≡ st.get_all c.items ++ x ∷ [])
      × (x.id ≡ c.next_id)
      × (x.req ≡ clone_request_for_queue r)
      × (x.queued_at ≡ now)

  -- A request changes the queue exactly where the client is offline, the method is listed and the
  -- queue is below its size; then it is appended under a fresh id, without its signal. In every
  -- other case the queue stays as it is and the answer says which of the two it is.
  pub enqueue_lem :
      (o : Options) (offline : Bool) (now : ℕ) (r : Request B) (c : Controller st)
      → (Accepts o offline r c
          × ((x : Queued B) × Appended o now r c (enqueue st o offline now r c) x))
        ⊎ ((((offline ≡ false) ⊎ (has_method o.methods r.method ≡ false))
              × (enqueue st o offline now r c ≡ (passed_on, c)))
            ⊎ ((o.max_queue_size ≤ st.size c.items)
                × (enqueue st o offline now r c ≡ (queue_full, c))))
  unfolding enqueue
  enqueue_lem o offline now r c =
      let listed = has_method o.methods r.method in
      elim (Bool-cases offline) [
        | inr p ↦ inr (inl (inl p, ground arith))
        | inl p ↦ elim (Bool-cases listed) [
          | inr q ↦ inr (inl (inr q, ground arith))
          | inl q ↦ elim (Bool-cases (leb o.max_queue_size (st.size c.items))) [
            | inl f ↦ inr (inr (ground arith, ground arith))
            | inr f ↦ inl (
              (p, q, ground arith),
              (
                queued_item o c.next_id now r,
                rw (p, q, f) (refl, refl, st.get_all-push _ c.items, refl, refl, refl),
              ),
            )
          ]
        ]
      ]

  enqueue-same :
      (o : Options) (offline : Bool) (now : ℕ) (r : Request B) (c : Controller st)
      → (Accepts o offline r c
          × ((x : Queued B) × Appended o now r c (enqueue st o offline now r c) x))
        ⊎ ((enqueue st o offline now r c).1 ≡ c)
  enqueue-same o offline now r c = elim (enqueue_lem o offline now r c) [
    | inl h ↦ inl h
    | inr (inl h) ↦ inr (ap (λ e. e.1) h.1)
    | inr (inr h) ↦ inr (ap (λ e. e.1) h.1)
  ]

  -- Whatever the request, the ids stay below the counter and distinct.
  pub enqueue-IsValid :
      (o : Options) (offline : Bool) (now : ℕ) (r : Request B) (c : Controller st)
      → IsValid c
      → IsValid (enqueue st o offline now r c).1
  enqueue-IsValid o offline now r c v = elim (enqueue-same o offline now r c) [
    | inr e ↦ subst IsValid (sym e) v
    | inl (ok, (x, (answer, next, items, id, req, at))) ↦
        let below : All (λ y. y.id < x.id) (st.get_all c.items) =
          All-map (λ y h. omega (arith, id)) (st.get_all c.items) v.0 in
        let d = DistinctIds-append x (st.get_all c.items) below v.1 in
        (
          subst (All (λ y. y.id < (enqueue st o offline now r c).1.next_id)) (sym items) (
              All-append _ (st.get_all c.items) (x ∷ [])
                (All-map (λ y h. omega (arith, next)) (st.get_all c.items) v.0)
                (omega (arith, id, next), tt)),
          subst DistinctIds (sym items) d,
        )
  ]

  pub enqueue_size :
      (o : Options) (offline : Bool) (now : ℕ) (r : Request B) (c : Controller st)
      → length (st.get_all c.items) ≤ o.max_queue_size
      → length (st.get_all (enqueue st o offline now r c).1.items) ≤ o.max_queue_size
  enqueue_size o offline now r c h = elim (enqueue-same o offline now r c) [
    | inr e ↦ subst (λ d. length (st.get_all d.items) ≤ o.max_queue_size) (sym e) h
    | inl (ok, (x, k)) ↦
        let longer = length-append (st.get_all c.items) (x ∷ []) in
        let items = ap length k.2 in
        let size = st.size_lem c.items in let room = ok.2 in omega arith
  ]

  keep_if-DistinctIds :
      (p : Queued B → Bool) (xs : List (Queued B)) → DistinctIds xs → DistinctIds (keep_if p xs)
  keep_if-DistinctIds p [] d = tt
  keep_if-DistinctIds p (x ∷ xs) d =
      let rec = keep_if-DistinctIds p xs d.1 in
      let others = All-keep_if (λ y. y.id ≢ x.id) p xs d.0 in
      elim (p x) as (λ b. DistinctIds (if b then x ∷ keep_if p xs else keep_if p xs)) [
        | true ↦ (others, rec)
        | false ↦ rec
      ]

  -- What happens to a queue: a request at a time `now`, a flush, or `clear`.
  pub data Event : Type 0 where
    requested : Bool → ℕ → Request B → Event
    flushed : (Queued B → Option ℕ) → ℕ → ℕ → Event
    cleared : Event

  unfoldable pub after : Options → Controller st → Event → Controller st
  after o c (requested offline now r) = (enqueue st o offline now r c).1
  after o c (flushed replay concurrency now) = record c {
    items = (perform_flush st replay concurrency now c.items).1;
  }
  after o c cleared = clear st c

  unfoldable pub run : Options → Controller st → List Event → Controller st
  run o c [] = c
  run o c (e ∷ es) = run o (after o c e) es

  -- what holds of a queue at every time
  abbrev pub Holds : Options → Controller st → Type 0
  Holds o c = IsValid c × (length (st.get_all c.items) ≤ o.max_queue_size)

  after-Holds : (o : Options) (c : Controller st) (e : Event) → Holds o c → Holds o (after o c e)
  unfolding after clear
  after-Holds o c (requested offline now r) h =
      (enqueue-IsValid o offline now r c h.0, enqueue_size o offline now r c h.1)
  after-Holds o c (flushed replay concurrency now) h =
      let left = perform_flush_lem st replay concurrency now c.items h.0.1 in
      let keeps = λ (x : Queued B). not (is_expired now x) && not (answered st replay x) in
      let old = st.get_all c.items in
      subst (λ l. (All (λ x. x.id < c.next_id) l × DistinctIds l) × (length l ≤ o.max_queue_size))
        (sym left.1)
        (
          (All-keep_if _ keeps old h.0.0, keep_if-DistinctIds keeps old h.0.1),
          omega (arith, length-keep_if-le keeps old, h.1),
        )
  after-Holds o c cleared h =
      subst (λ l. (All (λ x. x.id < c.next_id) l × DistinctIds l) × (length l ≤ o.max_queue_size))
        (sym (st.get_all-clear c.items)) ((tt, tt), omega arith)

  -- Whatever requests, flushes and clearings a queue has seen, one after the other, its ids are
  -- distinct and below the counter and it holds no more requests than it may, if this was so at first.
  pub run-Holds :
      (o : Options) (c : Controller st) (es : List Event) → Holds o c → Holds o (run o c es)
  unfolding run
  run-Holds o c [] h = h
  run-Holds o c (e ∷ es) h = run-Holds o (after o c e) es (after-Holds o c e h)
