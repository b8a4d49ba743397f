-- ===== src/ConcurrencyLimit/Steps.antt =====
-- What `acquire`, the abort listener and `release` of concurrencyLimit.ts do to the buckets.
use pureq.Prelude.JsMap.{get, set, Distinct, get-set, set-Distinct}
use pureq.Prelude.{
  ℕ, ◌+◌, ◌-◌, ◌≡◌, refl, some, [], ◌∷◌, ◌++◌, String, ltb, ◌==◌, if◌then◌else◌, number_key,
  text_key, arith, Option-cases, Bool-cases, inl, inr, ==_refl, ◌∙◌,
}
use pureq.ConcurrencyLimit.{
  Limits, Bucket, new_bucket, get_bucket, promote, Limiter, Signal, Acquired, granted, queued,
  queue_full, signal_aborted, acquire, is_full, is_aborted, remove_ticket, on_abort, release,
}
use pureq.ConcurrencyLimit.Buckets.{
  Buckets, bucket_at, bucket_at-set, bucket_at-cleanup, cleanup-Distinct, promote_next_lem,
}

-- The verdict of `acquire` on a bucket, and the bucket after it, said without the map.
abbrev pub verdict : Limits → Bucket → Signal → ℕ → Acquired × Bucket
verdict lim b signal t =
    if ltb b.active lim.max_concurrent
    then (granted, record b { active = b.active + 1 })
    else if is_full lim.max_queue b.queue
    then (queue_full, b)
    else if is_aborted signal
    then (signal_aborted, b)
    else (queued t, record b { queue = b.queue ++ t ∷ [] })

get_bucket_lem :
    (key j : String) (m : Buckets)
    → Distinct m
    → Distinct (get_bucket key m).1
      × ((get_bucket key m).0 ≡ bucket_at key m)
      × (bucket_at j (get_bucket key m).1 ≡ bucket_at j m)
get_bucket_lem key j m d = elim (Option-cases (get key m)) [
  | inl e ↦
      rw (e, get_bucket)
        (
          set-Distinct key new_bucket m d,
          refl,
          ground (arith, bucket_at-set key j new_bucket m, text_key.same_iff key j),
        )
  | inr (b, e) ↦ rw (e, get_bucket) (d, refl, refl)
]

-- `acquire` is decided by the bucket of its key alone: it is granted below the limit, refused
-- when the queue is full or the signal is aborted, and else waits at the end of the queue. A
-- refusal changes no bucket, and no other bucket changes.
pub acquire_lem :
    (lim : Limits) (key j : String) (signal : Signal) (s : Limiter)
    → Distinct s.buckets
    → let v = verdict lim (bucket_at key s.buckets) signal s.next_ticket_id in
      Distinct (acquire lim key signal s).0.buckets
      × ((acquire lim key signal s).1 ≡ v.0)
      × (bucket_at j (acquire lim key signal s).0.buckets
          ≡ (if key == j then v.1 else bucket_at j s.buckets))
unfolding acquire
acquire_lem lim key j signal s d =
    let (d', same, view) = get_bucket_lem key j s.buckets d in
    let m = (get_bucket key s.buckets).1 in
    let b = bucket_at key s.buckets in
    let here = bucket_at-set key j (record b { active = b.active + 1 }) m in
    let there = bucket_at-set key j (record b { queue = b.queue ++ s.next_ticket_id ∷ [] }) m in
    let still : bucket_at j m ≡ (if key == j then b else bucket_at j s.buckets) =
      ground (arith, view, text_key.same_iff key j) in
    rw same (elim (Bool-cases (ltb b.active lim.max_concurrent)) [
      | inl free ↦ rw free (set-Distinct key _ m d', refl, rw view at here)
      | inr busy ↦ elim (Bool-cases (is_full lim.max_queue b.queue)) [
        | inl full ↦ rw (busy, full) (d', refl, still)
        | inr room ↦ elim (Bool-cases (is_aborted signal)) [
          | inl gone ↦ rw (busy, room, gone) (d', refl, still)
          | inr waits ↦ rw (busy, room, waits) (set-Distinct key _ m d', refl, rw view at there)
        ]
      ]
    ])

pub on_abort_lem :
    (key j : String) (t : ℕ) (s : Limiter)
    → Distinct s.buckets
    → Distinct (on_abort key t s).buckets
      × (bucket_at j (on_abort key t s).buckets ≡ (
          if key == j
          then record (bucket_at key s.buckets) {
            queue = remove_ticket t (bucket_at key s.buckets).queue;
          }
          else bucket_at j s.buckets))
unfolding on_abort remove_ticket
on_abort_lem key j t s d = elim (Option-cases (get key s.buckets)) [
  | inl e ↦ rw (e, on_abort) (d, ground (arith, text_key.same_iff key j))
  | inr (b, e) ↦
      let b' = record b { queue = remove_ticket t b.queue } in
      let d' = set-Distinct key b' s.buckets d in
      rw (e, on_abort)
        (cleanup-Distinct key _ d', bucket_at-cleanup key j _ d' ∙ bucket_at-set key j b' s.buckets)
]

pub release_lem :
    (lim : Limits) (key j : String) (s : Limiter)
    → Distinct s.buckets
    → let b = bucket_at key s.buckets in
      let p = promote lim.max_concurrent (b.active - 1) b.queue in
      Distinct (release lim key s).0.buckets
      × ((release lim key s).1 ≡ p.1)
      × (bucket_at j (release lim key s).0.buckets
          ≡ (if key == j then p.0 else bucket_at j s.buckets))
unfolding release promote
release_lem lim key j s d = elim (Option-cases (get key s.buckets)) [
  | inl e ↦ rw (e, release) (d, refl, ground (arith, text_key.same_iff key j))
  | inr (b, e) ↦
      let b' = record b { active = b.active - 1 } in
      let m = set key b' s.buckets in
      let found : get key m ≡ some b' = ground (arith, get-set key key b' s.buckets, ==_refl key) in
      let (d', out, view) =
        promote_next_lem lim key j b' m (set-Distinct key b' s.buckets d) found in
      rw (e, release) (d', out, ground (arith, view, bucket_at-set key j b' s.buckets))
]
