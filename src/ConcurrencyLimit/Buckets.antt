-- ===== src/ConcurrencyLimit/Buckets.antt =====
-- The buckets of concurrencyLimit.ts as a function of the key, and what each operation does to it.
use pureq.Prelude.JsMap.{
  get, set, Distinct, get-set, get-delete_ne, get-delete_self, set-Distinct, delete-Distinct,
}
use pureq.Prelude.{
  ℕ, ◌+◌, ◌≤◌, ◌≡◌, refl, some, List, [], ◌∷◌, ◌++◌, String, ◌==◌, if◌then◌else◌, length,
  number_key, text_key, arith, Option-cases, inl, inr, or_else, ◌∙◌, ◌⊎◌,
}
use pureq.ConcurrencyLimit.{
  Limits, Bucket, new_bucket, cleanup_bucket_if_empty, promote, promote_next,
}

abbrev pub Buckets : Type 0
Buckets = List (String × Bucket)

-- A key with no bucket is as good as one with an empty bucket.
abbrev pub bucket_at : String → Buckets → Bucket
bucket_at key m = or_else (get key m) new_bucket

pub bucket_at-set :
    (key j : String) (b : Bucket) (m : Buckets)
    → bucket_at j (set key b m) ≡ (if key == j then b else bucket_at j m)
bucket_at-set key j b m = ground (arith, get-set key j b m)

-- `cleanupBucketIfEmpty` removes nothing that can be told from what is left.
pub bucket_at-cleanup :
    (key j : String) (m : Buckets)
    → Distinct m
    → bucket_at j (cleanup_bucket_if_empty key m) ≡ bucket_at j m
unfolding cleanup_bucket_if_empty
bucket_at-cleanup key j m d = elim (Option-cases (get key m)) [
  | inl e ↦ rw (e, cleanup_bucket_if_empty)
  | inr (b, e) ↦
      rw (e, cleanup_bucket_if_empty)
        (ground (arith, get-delete_self key m d, get-delete_ne key j m, text_key.same_iff key j))
]

pub cleanup-Distinct :
    (key : String) (m : Buckets) → Distinct m → Distinct (cleanup_bucket_if_empty key m)
unfolding cleanup_bucket_if_empty
cleanup-Distinct key m d = elim (Option-cases (get key m)) [
  | inl e ↦ rw (e, cleanup_bucket_if_empty) d
  | inr (b, e) ↦ rw (e, cleanup_bucket_if_empty) (ground (arith, delete-Distinct key m d))
]

-- `promoteNext` at a key that has a bucket.
pub promote_next_lem :
    (lim : Limits) (key j : String) (b : Bucket) (m : Buckets)
    → Distinct m
    → get key m ≡ some b
    → Distinct (promote_next lim key m).0
      × ((promote_next lim key m).1 ≡ (promote lim.max_concurrent b.active b.queue).1)
      × (bucket_at j (promote_next lim key m).0
          ≡ (if key == j then (promote lim.max_concurrent b.active b.queue).0 else bucket_at j m))
unfolding promote_next
promote_next_lem lim key j b m d e =
    let b' = (promote lim.max_concurrent b.active b.queue).0 in
    let d' = set-Distinct key b' m d in
    rw (e, promote_next)
      (
        cleanup-Distinct key (set key b' m) d',
        refl,
        bucket_at-cleanup key j (set key b' m) d' ∙ bucket_at-set key j b' m,
      )

-- The loop resolves the oldest tickets, one for each slot that it takes.
pub promote-fifo :
    (most active : ℕ) (q : List ℕ)
    → (promote most active q).1 ++ (promote most active q).0.queue ≡ q
unfolding promote
promote-fifo most active [] = refl
promote-fifo most active (t ∷ ts) = ground (arith, promote-fifo most (active + 1) ts)

pub promote-active :
    (most active : ℕ) (q : List ℕ)
    → (promote most active q).0.active ≡ active + length (promote most active q).1
unfolding promote
promote-active most active [] = omega arith
promote-active most active (t ∷ ts) = ground (arith, promote-active most (active + 1) ts)

-- It takes no slot beyond the limit, and stops only when none is free or nobody waits.
pub promote_full :
    (most active : ℕ) (q : List ℕ)
    → active ≤ most
    → ((promote most active q).0.active ≤ most)
      × (((promote most active q).0.queue ≡ []) ⊎ ((promote most active q).0.active ≡ most))
unfolding promote
promote_full most active [] h = (h, inl refl)
promote_full most active (t ∷ ts) h = ground (arith, promote_full most (active + 1) ts)

pub length-promote-queue :
    (most active : ℕ) (q : List ℕ) → length (promote most active q).0.queue ≤ length q
unfolding promote
length-promote-queue most active [] = omega arith
length-promote-queue most active (t ∷ ts) =
    ground (arith, length-promote-queue most (active + 1) ts)
