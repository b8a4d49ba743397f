-- ===== src/ConcurrencyLimit/Admission.antt =====
-- Over every history of concurrencyLimit.ts: how many requests run, who waits, who is next.
use pureq.Prelude.JsMap
use pureq.Prelude.JsMap.{Distinct}
use pureq.Prelude.{
  ℕ, zero, suc, ◌+◌, ◌-◌, ◌≤◌, ◌≡◌, refl, ◌⊎◌, false, Option, none, some, List, [], ◌∷◌, ◌++◌,
  String, ltb, ◌==◌, if◌then◌else◌, length, number_key, text_key, arith, Option-cases, Bool-cases,
  inl, inr, ==_refl, count_if, count_if-append, replicate, remove_at, get_elem?, length-append,
  subst,
}
use pureq.ConcurrencyLimit.{
  Limits, Bucket, promote, Signal, acquire, is_full, remove_ticket, on_abort, release, System,
  Event, arrives, aborts, finishes, admit, step, run, idle,
}
use pureq.ConcurrencyLimit.Buckets.{bucket_at, promote-active, promote_full, length-promote-queue}
use pureq.ConcurrencyLimit.Steps.{verdict, acquire_lem, on_abort_lem, release_lem}

-- How many requests of a key run.
abbrev pub running_count : String → List String → ℕ
running_count key = count_if (λ k. k == key)

abbrev pub QueueFits : Option ℕ → List ℕ → Type 0
QueueFits none q = Unit
QueueFits (some most) q = length q ≤ most

-- A bucket counts the requests that run; they are within the limit; nobody waits while a slot is
-- free; the queue is within its own limit.
pub record Fits (lim : Limits) (n : ℕ) (b : Bucket) : Type 0 where
  pub counted : b.active ≡ n
  pub within : b.active ≤ lim.max_concurrent
  pub busy : (b.queue ≡ []) ⊎ (b.active ≡ lim.max_concurrent)
  pub queue_fits : QueueFits lim.max_queue b.queue

QueueFits-mono :
    (most : Option ℕ) (q r : List ℕ) → length r ≤ length q → QueueFits most q → QueueFits most r
QueueFits-mono none q r h f = tt
QueueFits-mono (some n) q r h f = omega arith

QueueFits-empty : (most : Option ℕ) → QueueFits most []
QueueFits-empty none = tt
QueueFits-empty (some n) = omega arith

QueueFits-push :
    (most : Option ℕ) (q : List ℕ) (t : ℕ) → is_full most q ≡ false → QueueFits most (q ++ t ∷ [])
QueueFits-push none q t h = tt
QueueFits-push (some n) q t h = ground (arith, length-append q (t ∷ []))

length-remove_ticket-le : (t : ℕ) (q : List ℕ) → length (remove_ticket t q) ≤ length q
unfolding remove_ticket
length-remove_ticket-le t [] = omega arith
length-remove_ticket-le t (x ∷ xs) = ground (arith, length-remove_ticket-le t xs)

remove_ticket_nil : (t : ℕ) (q : List ℕ) → q ≡ [] → remove_ticket t q ≡ []
unfolding remove_ticket
remove_ticket_nil t [] e = refl
remove_ticket_nil t (x ∷ xs) e = absurd (cc)

running_count-replicate :
    (n : ℕ) (key j : String) → running_count j (replicate n key) ≡ (if key == j then n else 0)
running_count-replicate zero key j = ground arith
running_count-replicate (suc n) key j = ground (arith, running_count-replicate n key j)

running_count-remove_at :
    (i : ℕ) (xs : List String) (key j : String)
    → get_elem? xs i ≡ some key
    → running_count j (remove_at i xs) + (if key == j then 1 else 0) ≡ running_count j xs
running_count-remove_at i [] key j e = absurd (cc)
running_count-remove_at zero (x ∷ xs) key j e = ground (arith)
running_count-remove_at (suc i) (x ∷ xs) key j e =
    ground (arith, running_count-remove_at i xs key j e)

-- What holds at one key and at all others.
by_key :
    (P : String → Type 0) (key : String)
    → P key
    → ((j : String) → (key == j) ≡ false → P j)
    → (j : String) → P j
by_key P key here there j = elim (Bool-cases (key == j)) [
  | inl same ↦ subst P ((text_key.same_iff key j).0 same) here
  | inr other ↦ there j other
]

module _ (lim : Limits) where
  verdict-Fits :
      (n : ℕ) (b : Bucket) (sig : Signal) (t : ℕ)
      → Fits lim n b
      → Fits lim (n + (if ltb b.active lim.max_concurrent then 1 else 0)) (verdict lim b sig t).1
  verdict-Fits n b sig t f = ground (arith, QueueFits-push lim.max_queue b.queue t)

  on_abort-Fits :
      (n : ℕ) (b : Bucket) (t : ℕ)
      → Fits lim n b
      → Fits lim n (record b { queue = remove_ticket t b.queue })
  on_abort-Fits n b t f = record {
    counted = f.counted;
    within = f.within;
    busy = ground (arith, remove_ticket_nil t b.queue);
    queue_fits =
        QueueFits-mono lim.max_queue b.queue _ (length-remove_ticket-le t b.queue) f.queue_fits;
  }

  release-Fits :
      (n : ℕ) (b : Bucket)
      → Fits lim (suc n) b
      → let p = promote lim.max_concurrent (b.active - 1) b.queue in Fits lim (n + length p.1) p.0
  release-Fits n b f =
      let h : b.active - 1 ≤ lim.max_concurrent = omega arith in
      let (small, full) = promote_full lim.max_concurrent (b.active - 1) b.queue h in
      record {
        counted = omega (arith, promote-active lim.max_concurrent (b.active - 1) b.queue);
        within = small;
        busy = full;
        queue_fits =
            QueueFits-mono lim.max_queue b.queue _
              (length-promote-queue lim.max_concurrent (b.active - 1) b.queue) f.queue_fits;
      }

  pub record IsSound (y : System) : Type 0 where
    pub distinct : Distinct y.limiter.buckets
    pub fits : (j : String) → Fits lim (running_count j y.running) (bucket_at j y.limiter.buckets)

  arrives-Fits :
      (y : System) (key : String) (signal : Signal)
      → IsSound y
      → (j : String)
      → Fits lim
          (running_count j (step lim y (arrives key signal)).running)
          (bucket_at j (step lim y (arrives key signal)).limiter.buckets)
  unfolding step
  arrives-Fits y key signal w =
      let b = bucket_at key y.limiter.buckets in
      let v = verdict lim b signal y.limiter.next_ticket_id in
      by_key
        (λ j.
          Fits lim (running_count j (step lim y (arrives key signal)).running)
            (bucket_at j (step lim y (arrives key signal)).limiter.buckets))
        key
        (let (d, out, view) = acquire_lem lim key key signal y.limiter w.distinct in
          let here : bucket_at key (acquire lim key signal y.limiter).0.buckets ≡ v.1 =
            ground (arith, view, ==_refl key) in
          let n : running_count key (admit v.0 key y.running)
              ≡ running_count key y.running + (if ltb b.active lim.max_concurrent then 1 else 0) =
            ground (arith, ==_refl key) in
          rw (here, out, n) (verdict-Fits _ b signal y.limiter.next_ticket_id (w.fits key)))
        (λ j other.
          let (d, out, view) = acquire_lem lim key j signal y.limiter w.distinct in
          let there : bucket_at j (acquire lim key signal y.limiter).0.buckets
              ≡ bucket_at j y.limiter.buckets =
            ground (arith, view, other) in
          let n : running_count j (admit v.0 key y.running) ≡ running_count j y.running =
            ground (arith, other) in
          rw (there, out, n) (w.fits j))

  aborts-Fits :
      (y : System) (key : String) (t : ℕ)
      → IsSound y
      → (j : String)
      → Fits lim (running_count j y.running) (bucket_at j (on_abort key t y.limiter).buckets)
  aborts-Fits y key t w =
      by_key
        (λ j. Fits lim (running_count j y.running) (bucket_at j (on_abort key t y.limiter).buckets))
        key
        (let (d, view) = on_abort_lem key key t y.limiter w.distinct in
          rw (view, ==_refl key) (on_abort-Fits _ (bucket_at key y.limiter.buckets) t (w.fits key)))
        (λ j other.
          let (d, view) = on_abort_lem key j t y.limiter w.distinct in rw (view, other) (w.fits j))

  -- A request of `key` that is done, and those that the release lets go on.
  finishes-Fits :
      (y : System) (i : ℕ) (key : String)
      → get_elem? y.running i ≡ some key
      → IsSound y
      → (j : String)
      → Fits lim
          (running_count j
            (replicate (length (release lim key y.limiter).1) key ++ remove_at i y.running))
          (bucket_at j (release lim key y.limiter).0.buckets)
  finishes-Fits y i key e w =
      by_key
        (λ j.
          Fits lim
            (running_count j
              (replicate (length (release lim key y.limiter).1) key ++ remove_at i y.running))
            (bucket_at j (release lim key y.limiter).0.buckets))
        key
        (let (d, out, view) = release_lem lim key key y.limiter w.distinct in
          let b = bucket_at key y.limiter.buckets in
          let p = promote lim.max_concurrent (b.active - 1) b.queue in
          let left = running_count key (remove_at i y.running) in
          let was : running_count key y.running ≡ suc left =
            ground (arith, running_count-remove_at i y.running key key e, ==_refl key) in
          let now : running_count key (replicate (length p.1) key ++ remove_at i y.running)
              ≡ left + length p.1 =
            ground (
              arith,
              count_if-append (λ k. k == key) (replicate (length p.1) key) (remove_at i y.running),
              running_count-replicate (length p.1) key key,
              ==_refl key,
            ) in
          rw (view, ==_refl key, out, now)
            (release-Fits left b (subst (λ n. Fits lim n b) was (w.fits key))))
        (λ j other.
          let (d, out, view) = release_lem lim key j y.limiter w.distinct in
          let n = length (release lim key y.limiter).1 in
          let now : running_count j (replicate n key ++ remove_at i y.running)
              ≡ running_count j y.running =
            ground (
              arith,
              count_if-append (λ k. k == j) (replicate n key) (remove_at i y.running),
              running_count-replicate n key j,
              running_count-remove_at i y.running key j e,
              other,
            ) in
          rw (view, other, now) (w.fits j))

  step_finishes :
      (y : System) (i : ℕ) (key : String)
      → get_elem? y.running i ≡ some key
      → step lim y (finishes i) ≡ record {
        limiter = (release lim key y.limiter).0;
        running = replicate (length (release lim key y.limiter).1) key ++ remove_at i y.running;
      }
  unfolding step
  step_finishes y i key e = rw (e, step)

  step_finishes_none :
      (y : System) (i : ℕ) → get_elem? y.running i ≡ none → step lim y (finishes i) ≡ y
  unfolding step
  step_finishes_none y i e = rw (e, step)

  step-IsSound : (y : System) (e : Event) → IsSound y → IsSound (step lim y e)
  step-IsSound y (arrives key signal) w = record {
    distinct = unfold step in (acquire_lem lim key key signal y.limiter w.distinct).0;
    fits = arrives-Fits y key signal w;
  }
  step-IsSound y (aborts key t) w = record {
    distinct = unfold step in (on_abort_lem key key t y.limiter w.distinct).0;
    fits = unfold step in aborts-Fits y key t w;
  }
  step-IsSound y (finishes i) w = elim (Option-cases (get_elem? y.running i)) [
    | inl e ↦ rw (step_finishes_none y i e) w
    | inr (key, e) ↦ rw (step_finishes y i key e) (record {
      distinct = (release_lem lim key key y.limiter w.distinct).0;
      fits = finishes-Fits y i key e w;
    })
  ]

  run-IsSound : (es : List Event) (y : System) → IsSound y → IsSound (run lim y es)
  unfolding run
  run-IsSound [] y w = w
  run-IsSound (e ∷ es) y w = run-IsSound es (step lim y e) (step-IsSound y e w)

  idle-IsSound : IsSound idle
  unfolding JsMap.get
  idle-IsSound = record {
    distinct = tt;
    fits = λ j. record {
      counted = refl;
      within = omega arith;
      busy = inl refl;
      queue_fits = QueueFits-empty lim.max_queue;
    };
  }

  -- Whatever requests arrive, abort and finish, in any order: of each key no more than
  -- `maxConcurrent` requests run at once, the bucket counts exactly those, a request waits only
  -- while `maxConcurrent` of its key run, and no more than `maxQueue` wait.
  pub run-Fits :
      (es : List Event) (key : String)
      → let y = run lim idle es in
        Fits lim (running_count key y.running) (bucket_at key y.limiter.buckets)
  run-Fits es key = (run-IsSound es idle idle-IsSound).fits key
