-- ===== src/ConcurrencyLimit/Fifo.antt =====
-- In which order concurrencyLimit.ts serves the tickets that wait under one key.
use mathlib.Core.List.{append_assoc, append-nil}
use pureq.Prelude.JsMap.{Distinct}
use pureq.Prelude.{
  ℕ, Bool, true, false, ◌-◌, ◌+◌, ◌≡◌, refl, sym, subst, ap, ◌∙◌, true, List, [], ◌∷◌, ◌++◌, String,
  ◌==◌, if◌then◌else◌, text_key, Bool-cases, inl, inr, All, ltb, number_key,
}
use pureq.ConcurrencyLimit.{
  Limits, Bucket, promote, Limiter, Signal, Acquired, queued, acquire, is_full, is_aborted,
  remove_ticket, on_abort, release,
}
use pureq.ConcurrencyLimit.Buckets.{bucket_at}
use pureq.ConcurrencyLimit.Steps.{verdict, acquire_lem, on_abort_lem, release_lem}

-- The calls of requests, under any keys: `acquire`, the listener of a ticket's signal, `release`.
pub data Call : Type 0 where
  acquires : String → Signal → Call
  aborts : String → ℕ → Call
  releases : String → Call

abbrev pub queue_at : String → Limiter → List ℕ
queue_at key s = (bucket_at key s.buckets).queue

abbrev pub ticket_of : Acquired → List ℕ
ticket_of (queued t) = t ∷ []
ticket_of _ = []

module _ (lim : Limits) (key : String) where
  -- The limiter after a call, the tickets that the call puts into the queue of the key, and those of
  -- the queue that it resolves.
  unfoldable pub call : Call → Limiter → Limiter × List ℕ × List ℕ
  call (acquires k given) s =
      let (s', r) = acquire lim k given s in (s', if k == key then ticket_of r else [], [])
  call (aborts k t) s = (on_abort k t s, [], [])
  call (releases k) s =
      let (s', resolved) = release lim k s in (s', [], if k == key then resolved else [])

  unfoldable pub calls : List Call → Limiter → Limiter × List ℕ × List ℕ
  unfolding call
  calls [] s = (s, [], [])
  calls (c ∷ cs) s =
      let first = call c s in
      let others = calls cs first.0 in (others.0, first.1 ++ others.1, first.2 ++ others.2)

-- The first list is the second one, in its order, without some of its elements that are gone.
pub data IsServed (Gone : ℕ → Type 0) : List ℕ → List ℕ → Type 0 where
  finished : IsServed Gone [] []
  kept : {xs ys : List ℕ} → (t : ℕ) → IsServed Gone xs ys → IsServed Gone (t ∷ xs) (t ∷ ys)
  left_out : {xs ys : List ℕ} → (t : ℕ) → Gone t → IsServed Gone xs ys → IsServed Gone xs (t ∷ ys)

module _ (Gone : ℕ → Type 0) where
  all_kept : (xs : List ℕ) → IsServed Gone xs xs
  all_kept [] = finished
  all_kept (t ∷ xs) = kept t (all_kept xs)

  IsServed-trans :
      {xs ys zs : List ℕ} → IsServed Gone xs ys → IsServed Gone ys zs → IsServed Gone xs zs
  IsServed-trans h finished = h
  IsServed-trans h (left_out t g k) = left_out t g (IsServed-trans h k)
  IsServed-trans (kept _ h) (kept t k) = kept t (IsServed-trans h k)
  IsServed-trans (left_out _ g h) (kept t k) = left_out t g (IsServed-trans h k)

  IsServed-behind :
      (zs : List ℕ) {xs ys : List ℕ} → IsServed Gone xs ys → IsServed Gone (zs ++ xs) (zs ++ ys)
  IsServed-behind [] h = h
  IsServed-behind (t ∷ zs) h = kept t (IsServed-behind zs h)

  IsServed-before :
      {xs ys : List ℕ} (zs : List ℕ) → IsServed Gone xs ys → IsServed Gone (xs ++ zs) (ys ++ zs)
  IsServed-before zs finished = all_kept zs
  IsServed-before zs (kept t h) = kept t (IsServed-before zs h)
  IsServed-before zs (left_out t g h) = left_out t g (IsServed-before zs h)

  remove_ticket-IsServed : (t : ℕ) (xs : List ℕ) → Gone t → IsServed Gone (remove_ticket t xs) xs
  unfolding remove_ticket
  remove_ticket-IsServed t [] g = finished
  remove_ticket-IsServed t (x ∷ xs) g = elim (Bool-cases (x == t)) [
    | inl p ↦ rw p (left_out x (subst Gone (sym ((number_key.same_iff x t).0 p)) g) (all_kept xs))
    | inr p ↦ rw p (kept x (remove_ticket-IsServed t xs g))
  ]

promote-append :
    (most active : ℕ) (q : List ℕ)
    → (promote most active q).1 ++ (promote most active q).0.queue ≡ q
unfolding promote
promote-append most active [] = refl
promote-append most active (t ∷ ts) = elim (Bool-cases (ltb active most)) [
  | inl p ↦ rw p (ap (◌∷◌ t) (promote-append most (active + 1) ts))
  | inr p ↦ rw p refl
]

verdict_queue :
    (lim : Limits) (b : Bucket) (signal : Signal) (t : ℕ)
    → (verdict lim b signal t).1.queue ≡ b.queue ++ ticket_of (verdict lim b signal t).0
verdict_queue lim b signal t = elim (Bool-cases (ltb b.active lim.max_concurrent)) [
  | inl p ↦ rw p (sym (append-nil b.queue))
  | inr p ↦ elim (Bool-cases (is_full lim.max_queue b.queue)) [
    | inl q ↦ rw (p, q) (sym (append-nil b.queue))
    | inr q ↦ elim (Bool-cases (is_aborted signal)) [
      | inl r ↦ rw (p, q, r) (sym (append-nil b.queue))
      | inr r ↦ rw (p, q, r) refl
    ]
  ]
]

module _ (Gone : ℕ → Type 0) where
  same-IsServed : (xs ys zs : List ℕ) → xs ≡ zs → ys ≡ zs → IsServed Gone xs ys
  same-IsServed xs ys zs e f = subst (IsServed Gone xs) (e ∙ sym f) (all_kept Gone xs)

module _ (lim : Limits) (key : String) (Gone : ℕ → Type 0) where
  -- The tickets of the key whose signals are aborted are gone.
  abbrev pub Drops : Call → Type 0
  Drops (acquires k s) = Unit
  Drops (aborts k t) = (k == key) ≡ true → Gone t
  Drops (releases k) = Unit

  -- What a call does to the queue of the key, by whether the call is under that key.
  by_key :
      (k : String) (s : Limiter) (b : Bucket) (after : Bucket) (came out : List ℕ)
      → after ≡ (if k == key then b else bucket_at key s.buckets)
      → ((bucket_at k s.buckets) ≡ bucket_at key s.buckets
          → (k == key) ≡ true
          → IsServed Gone (out ++ b.queue) (queue_at key s ++ came))
      → IsServed Gone
          ((if k == key then out else []) ++ after.queue)
          (queue_at key s ++ (if k == key then came else []))
  by_key k s b after came out view h = elim (Bool-cases (k == key)) [
    | inl p ↦ rw p (
        subst (λ x. IsServed Gone (out ++ x.queue) (queue_at key s ++ came))
          (sym (view ∙ ap (λ c. if c then b else bucket_at key s.buckets) p))
          (h (ap (λ j. bucket_at j s.buckets) ((text_key.same_iff k key).0 p)) p))
    | inr p ↦ rw p (
        same-IsServed Gone after.queue (queue_at key s ++ []) (queue_at key s)
          (ap (λ x. x.queue) (view ∙ ap (λ c. if c then b else bucket_at key s.buckets) p))
          (append-nil (queue_at key s)))
  ]

  abbrev nothing : List ℕ
  nothing = []

  nothing_out : (c : Bool) → (if c then nothing else nothing) ≡ nothing
  nothing_out true = refl
  nothing_out false = refl

  call-IsServed :
      (c : Call) (s : Limiter)
      → Distinct s.buckets
      → Drops c
      → Distinct (call lim key c s).0.buckets
        × IsServed Gone
            ((call lim key c s).2 ++ queue_at key (call lim key c s).0)
            (queue_at key s ++ (call lim key c s).1)
  unfolding call
  call-IsServed (acquires k given) s d h =
      let (d', out, view) = acquire_lem lim k key given s d in
      let v = verdict lim (bucket_at k s.buckets) given s.next_ticket_id in
      (
        d',
        subst
            (λ l.
              IsServed Gone (l ++ queue_at key (acquire lim k given s).0)
                (queue_at key s ++ (if k == key then ticket_of (acquire lim k given s).1 else [])))
            (nothing_out (k == key))
            (by_key k s v.1 (bucket_at key (acquire lim k given s).0.buckets)
              (ticket_of (acquire lim k given s).1) [] view
              λ e p.
                same-IsServed Gone v.1.queue _ (queue_at key s ++ ticket_of v.0)
                  (verdict_queue lim (bucket_at k s.buckets) given s.next_ticket_id
                    ∙ ap (λ b. b.queue ++ ticket_of v.0) e)
                  (ap (λ r. queue_at key s ++ ticket_of r) out)),
      )
  call-IsServed (aborts k t) s d h =
      let (d', view) = on_abort_lem k key t s d in
      let b = bucket_at k s.buckets in
      (
        d',
        subst (λ l. IsServed Gone (l ++ queue_at key (on_abort k t s)) (queue_at key s ++ []))
            (nothing_out (k == key))
            (subst
              (λ l.
                IsServed Gone
                  ((if k == key then nothing else nothing) ++ queue_at key (on_abort k t s))
                  (queue_at key s ++ l))
              (nothing_out (k == key))
              (by_key k s (record b { queue = remove_ticket t b.queue })
                (bucket_at key (on_abort k t s).buckets) [] [] view
                λ e p.
                  subst (IsServed Gone (remove_ticket t b.queue))
                    (ap (λ c. c.queue) e ∙ sym (append-nil (queue_at key s)))
                    (remove_ticket-IsServed Gone t b.queue (h p)))),
      )
  call-IsServed (releases k) s d h =
      let (d', out, view) = release_lem lim k key s d in
      let b = bucket_at k s.buckets in
      let p = promote lim.max_concurrent (b.active - 1) b.queue in
      (
        d',
        subst
            (λ l.
              IsServed Gone
                ((if k == key then (release lim k s).1 else []) ++ queue_at key (release lim k s).0)
                (queue_at key s ++ l))
            (nothing_out (k == key))
            (by_key k s p.0 (bucket_at key (release lim k s).0.buckets) [] (release lim k s).1 view
              λ e same.
                same-IsServed Gone _ (queue_at key s ++ []) (queue_at key s)
                  (ap (λ r. r ++ p.0.queue) out
                    ∙ promote-append lim.max_concurrent (b.active - 1) b.queue
                    ∙ ap (λ c. c.queue) e)
                  (append-nil (queue_at key s))),
      )

  -- First come, first served: whatever calls follow one another, under any keys, the tickets of a key
  -- that were resolved, in their order, and behind them those that still wait, are the tickets that
  -- waited at first and behind them those that came, in their order, and none of these is missing but
  -- such as were aborted.
  pub calls-IsServed :
      (cs : List Call) (s : Limiter)
      → Distinct s.buckets
      → All Drops cs
      → IsServed Gone
          ((calls lim key cs s).2 ++ queue_at key (calls lim key cs s).0)
          (queue_at key s ++ (calls lim key cs s).1)
  unfolding calls
  calls-IsServed [] s d h =
      subst (IsServed Gone (queue_at key s)) (sym (append-nil (queue_at key s)))
        (all_kept Gone (queue_at key s))
  calls-IsServed (c ∷ cs) s d h =
      let first = call lim key c s in
      let others = calls lim key cs first.0 in
      let (d', now) = call-IsServed c s d h.0 in
      let later = calls-IsServed cs first.0 d' h.1 in
      subst (λ l. IsServed Gone l (queue_at key s ++ (first.1 ++ others.1)))
        (sym (append_assoc first.2 others.2 (queue_at key others.0)))
        (IsServed-trans Gone (IsServed-behind Gone first.2 later) (
          subst (λ l. IsServed Gone l (queue_at key s ++ (first.1 ++ others.1)))
            (append_assoc first.2 (queue_at key first.0) others.1)
            (subst (IsServed Gone ((first.2 ++ queue_at key first.0) ++ others.1))
              (append_assoc (queue_at key s) first.1 others.1)
              (IsServed-before Gone others.1 now))))
