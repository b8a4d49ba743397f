-- ===== src/OfflineQueue/Flush.antt =====
-- What `performFlush` of offlineQueue.ts answers and what it leaves in the storage.
use pureq.Prelude.{
  ℕ, zero, suc, ◌≤◌, ◌≡◌, refl, ap, sym, subst, ◌∙◌, Bool, not, ◌&&◌, Option, List, [], ◌∷◌, ◌++◌,
  map, All-zip, leb, Bool-cases, inl, inr, Option-cases, ◌==◌, number_key, length, length-drop,
  keep_if, some_of, take, drop, is_some, arith,
}
use pureq.OfflineQueue.{
  Queued, QueueStorage, is_expired, sort_pending, remove_all, replay_each, settle_batch, fulfilled,
  replay_batches, perform_flush,
}
use pureq.OfflineQueue.Sorting.{some_of-sort_pending}
use pureq.OfflineQueue.Removal.{
  DistinctIds, hits, keep_if-keep_if, keep_if-congr, hits-distinct, some_of-keep_if, Removes,
  keep_if-true, Removes-cons, Removes-skip, remove_all-Removes, Removes-append, take-append-drop,
}

module _ {B : Type 0} (st : QueueStorage B) where
  module _ (replay : Queued B → Option ℕ) where
    abbrev pub answered : Queued B → Bool
    answered x = is_some (replay x)

    -- what a run of the loop over `xs` comes to
    Replays : List (Queued B) → st.State → List ℕ × st.State → Type 0
    Replays xs s r = (r.0 ≡ fulfilled st replay xs) × Removes st answered xs s r.1

    replay_each-Replays :
        (xs : List (Queued B)) (s : st.State) → Replays xs s (replay_each st replay xs s)
    unfolding Replays replay_each fulfilled
    replay_each-Replays [] s = (refl, sym (keep_if-true st (st.get_all s)))
    replay_each-Replays (y ∷ ys) s = elim (Option-cases (replay y)) [
      | inl p ↦
          let rec = replay_each-Replays ys s in
          let kept = Removes-skip st answered y ys s _ (ap is_some p) rec.1 in
          let same : replay_each st replay (y ∷ ys) s ≡ replay_each st replay ys s =
            rw (replay_each, p) in
          (ap (λ r. r.0) same ∙ rec.0 ∙ rw (fulfilled, p), ap (λ r. st.get_all r.1) same ∙ kept)
      | inr (status, p) ↦
          let rec = replay_each-Replays ys (st.remove y.id s) in
          let gone = Removes-cons st answered y ys s _ (ap is_some p) rec.1 in
          let same : replay_each st replay (y ∷ ys) s ≡ (
            status ∷ (replay_each st replay ys (st.remove y.id s)).0,
            (replay_each st replay ys (st.remove y.id s)).1,
          ) =
            rw (replay_each, p) in
          (
            ap (λ r. r.0) same ∙ ap (◌∷◌ status) rec.0 ∙ rw (fulfilled, p),
            ap (λ r. st.get_all r.1) same ∙ gone,
          )
    ]

    settle_batch-Removes :
        (xs : List (Queued B)) (s : st.State)
        → Removes st answered xs s (settle_batch st replay xs s)
    unfolding settle_batch
    settle_batch-Removes [] s = sym (keep_if-true st (st.get_all s))
    settle_batch-Removes (y ∷ ys) s = elim (Option-cases (replay y)) [
      | inl p ↦
          let kept = Removes-skip st answered y ys s _ (ap is_some p) (settle_batch-Removes ys s) in
          let same : settle_batch st replay (y ∷ ys) s ≡ settle_batch st replay ys s =
            rw (settle_batch, p) in
          ap st.get_all same ∙ kept
      | inr (status, p) ↦
          let rec = settle_batch-Removes ys (st.remove y.id s) in
          let gone = Removes-cons st answered y ys s _ (ap is_some p) rec in
          let same : settle_batch st replay (y ∷ ys) s
              ≡ settle_batch st replay ys (st.remove y.id s) =
            rw (settle_batch, p) in
          ap st.get_all same ∙ gone
    ]

    fulfilled-append :
        (xs ys : List (Queued B))
        → fulfilled st replay (xs ++ ys) ≡ fulfilled st replay xs ++ fulfilled st replay ys
    unfolding fulfilled
    fulfilled-append [] ys = refl
    fulfilled-append (x ∷ xs) ys = ground (arith, fulfilled-append xs ys)

    replay_batches-Replays :
        (fuel n : ℕ) (xs : List (Queued B)) (s : st.State)
        → 1 ≤ n
        → length xs ≤ fuel
        → Replays xs s (replay_batches st replay fuel n xs s)
    unfolding replay_batches Replays fulfilled
    replay_batches-Replays zero n [] s h k = (refl, sym (keep_if-true st (st.get_all s)))
    replay_batches-Replays zero n (x ∷ xs) s h k = absurd (omega arith)
    replay_batches-Replays (suc fuel) n [] s h k = (refl, sym (keep_if-true st (st.get_all s)))
    replay_batches-Replays (suc fuel) n (x ∷ xs) s h k =
        let batch = take n (x ∷ xs) in
        let rest = drop n (x ∷ xs) in
        let s1 = settle_batch st replay batch s in
        let rec = replay_batches-Replays fuel n rest s1 h (omega (arith, length-drop n (x ∷ xs))) in
        let whole = take-append-drop st n (x ∷ xs) in
        let gone =
          Removes-append st answered batch rest s s1 _ (settle_batch-Removes batch s) rec.1 in
        (
          ap (◌++◌ (fulfilled st replay batch)) rec.0
              ∙ sym (fulfilled-append batch rest)
              ∙ ap (fulfilled st replay) whole,
          subst (λ l. Removes st answered l s (replay_batches st replay fuel n rest s1).1) whole
              gone,
        )

    -- the requests that a flush at `now` replays, in their order
    abbrev pub pending_at : ℕ → st.State → List (Queued B)
    pending_at now s = sort_pending (keep_if (λ x. not (is_expired now x)) (st.get_all s))

    some_of-congr :
        (p q : Queued B → Bool) (xs : List (Queued B))
        → ((x : Queued B) → p x ≡ q x)
        → some_of p xs ≡ some_of q xs
    some_of-congr p q [] h = refl
    some_of-congr p q (x ∷ xs) h =
        let rec = some_of-congr p q xs h in let here = h x in ground arith

    hits-pending :
        (now : ℕ) (raw : List (Queued B)) (x : Queued B)
        → hits answered (sort_pending (keep_if (λ y. not (is_expired now y)) raw)) x
          ≡ hits (λ y. not (is_expired now y) && answered y) raw x
    hits-pending now raw x =
        let same_id = λ (y : Queued B). answered y && x.id == y.id in
        let fresh = λ (y : Queued B). not (is_expired now y) in
        some_of-sort_pending same_id (keep_if fresh raw)
        ∙ some_of-keep_if fresh same_id raw
        ∙ some_of-congr (λ y. fresh y && same_id y) (λ y. (fresh y && answered y) && x.id == y.id)
            raw (λ y. ground arith)

    Removes-pending :
        (now : ℕ) (s s' s'' : st.State)
        → DistinctIds (st.get_all s)
        → Removes st (is_expired now) (st.get_all s) s s'
        → Removes st answered (pending_at now s) s' s''
        → st.get_all s'' ≡ keep_if (λ x. not (is_expired now x) && not (answered x)) (st.get_all s)
    Removes-pending now s s' s'' d h k =
        let raw = st.get_all s in
        let expired = is_expired now in
        k
        ∙ ap (keep_if (λ x. not (hits answered (pending_at now s) x))) h
        ∙ keep_if-keep_if _ (λ x. not (hits answered (pending_at now s) x)) raw
        ∙ keep_if-congr (λ x. not (hits expired raw x) && not (hits answered (pending_at now s) x))
            (λ x. not (expired x) && not (answered x)) raw
            (All-zip (λ x e f. let p = hits-pending now raw x in ground arith) raw
              (hits-distinct expired raw d)
              (hits-distinct (λ y. not (expired y) && answered y) raw d))

    -- Whatever the concurrency, a flush answers with the responses of the pending requests in the
    -- order of replay, and, where the ids are distinct, leaves exactly the queued requests that are
    -- neither expired nor answered, in the order in which they were queued.
    pub perform_flush_lem :
        (concurrency now : ℕ) (s : st.State)
        → DistinctIds (st.get_all s)
        → let r = perform_flush st replay concurrency now s in
          (r.0 ≡ fulfilled st replay (pending_at now s))
          × (st.get_all r.1
              ≡ keep_if (λ x. not (is_expired now x) && not (answered x)) (st.get_all s))
    unfolding perform_flush Replays
    perform_flush_lem concurrency now s d =
        let s1 = remove_all st (map (λ x. x.id) (keep_if (is_expired now) (st.get_all s))) s in
        let gone = remove_all-Removes st (is_expired now) (st.get_all s) s in
        let pending = pending_at now s in
        elim (Bool-cases (leb concurrency 1)) [
          | inl p ↦
              let run = replay_each-Replays pending s1 in
              rw p (run.0, Removes-pending now s s1 _ d gone run.1)
          | inr p ↦
              let run =
                replay_batches-Replays (length pending) concurrency pending s1 (ground arith)
                  (omega arith) in
              rw p (run.0, Removes-pending now s s1 _ d gone run.1)
        ]
