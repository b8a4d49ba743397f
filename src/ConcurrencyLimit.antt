-- ===== src/ConcurrencyLimit.antt =====
-- packages/pureq/src/middleware/concurrencyLimit.ts: the buckets of requests in flight and of
-- tickets that wait. Between its awaits the middleware runs to the end, so each function here is
-- one step of the event loop. A bucket is reached through the map only, so it is a value.
pub mod Buckets
pub mod Steps
pub mod Admission
pub mod Accepted
pub mod Fifo
mod Examples
use pureq.Prelude.JsMap.{get, set, delete}
use pureq.Prelude.JsNumber.{JsNumber, whole, minus, is_integer, is_negative, is_positive}
use pureq.Prelude.{
  ℕ, suc, ◌+◌, ◌-◌, ◌^◌, Bool, true, false, not, ◌&&◌, ◌||◌, Option, none, some, List, [], ◌∷◌,
  ◌++◌, String, ltb, leb, ◌==◌, if◌then◌else◌, length, number_key, text_key, or_else, get_elem?,
  remove_at, replicate,
}

pub record Options : Type 0 where
  pub max_concurrent : JsNumber
  pub max_queue : Option JsNumber

pub record Limits : Type 0 where
  pub max_concurrent : ℕ
  pub max_queue : Option ℕ

-- The value of a number that passed the validation.
abbrev pub to_ℕ : JsNumber → ℕ
to_ℕ (whole n) = n
to_ℕ _ = 0

-- `none` is one of the two errors.
unfoldable pub check_numbers : JsNumber → Option JsNumber → Option Limits
check_numbers most none =
    if not (is_integer most) || not (is_positive most)
    then none
    else some (record { max_concurrent = to_ℕ most; max_queue = none })
check_numbers most (some q) =
    if not (is_integer most) || not (is_positive most)
    then none
    else if not (is_integer q) || is_negative q
    then none
    else some (record { max_concurrent = to_ℕ most; max_queue = some (to_ℕ q) })

pub validate_options : Options → Option Limits
unfolding check_numbers
validate_options o = check_numbers o.max_concurrent o.max_queue

-- A ticket of the queue is its number; its promise and its signal are the environment's.
pub record Bucket : Type 0 where
  pub active : ℕ
  pub queue : List ℕ

abbrev pub new_bucket : Bucket
new_bucket = record { active = 0; queue = [] }

pub record Limiter : Type 0 where
  pub buckets : List (String × Bucket)
  pub next_ticket_id : ℕ

-- Number.MAX_SAFE_INTEGER
abbrev pub max_safe_integer : ℕ
max_safe_integer = 2 ^ 53 - 1

-- `getBucket` creates the bucket that the map lacks.
abbrev pub get_bucket : String → List (String × Bucket) → Bucket × List (String × Bucket)
get_bucket key m = elim (get key m) [
  | some bucket ↦ (bucket, m)
  | none ↦ (new_bucket, set key new_bucket m)
]

abbrev pub is_empty {ℓ} : {A : Type ℓ} → List A → Bool
is_empty [] = true
is_empty (x ∷ xs) = false

abbrev is_idle : Bucket → Bool
is_idle b = (b.active == 0) && is_empty b.queue

pub cleanup_bucket_if_empty : String → List (String × Bucket) → List (String × Bucket)
cleanup_bucket_if_empty key m = elim (get key m) [
  | none ↦ m
  | some b ↦ if is_idle b then delete key m else m
]

-- The loop of `promoteNext`: the bucket after it, and the tickets whose promises it resolves.
pub promote : ℕ → ℕ → List ℕ → Bucket × List ℕ
promote most active [] = (record { active = active; queue = [] }, [])
promote most active (t ∷ ts) =
    let (b, resolved) = promote most (active + 1) ts in
    if ltb active most then (b, t ∷ resolved) else (record { active = active; queue = t ∷ ts }, [])

pub promote_next : Limits → String → List (String × Bucket) → List (String × Bucket) × List ℕ
promote_next lim key m = elim (get key m) [
  | none ↦ (m, [])
  | some b ↦
      let (b', resolved) = promote lim.max_concurrent b.active b.queue in
      (cleanup_bucket_if_empty key (set key b' m), resolved)
]

pub data Signal : Type 0 where
  no_signal live aborted : Signal

-- What `acquire` does at once: it returns, waits under a ticket, or throws.
pub data Acquired : Type 0 where
  granted : Acquired
  queued : ℕ → Acquired
  queue_full signal_aborted : Acquired

abbrev pub is_full : Option ℕ → List ℕ → Bool
is_full none queue = false
is_full (some most) queue = leb most (length queue)

abbrev pub is_aborted : Signal → Bool
is_aborted aborted = true
is_aborted _ = false

abbrev next_ticket : ℕ → ℕ
next_ticket n = if ltb max_safe_integer (n + 1) then 0 else n + 1

pub acquire : Limits → String → Signal → Limiter → Limiter × Acquired
acquire lim key signal s =
    let (b, m) = get_bucket key s.buckets in
    if ltb b.active lim.max_concurrent
    then (record s { buckets = set key (record b { active = b.active + 1 }) m }, granted)
    else if is_full lim.max_queue b.queue
    then (record s { buckets = m }, queue_full)
    else if is_aborted signal
    then (record s { buckets = m }, signal_aborted)
    else (
      record {
        buckets = set key (record b { queue = b.queue ++ s.next_ticket_id ∷ [] }) m;
        next_ticket_id = next_ticket s.next_ticket_id;
      },
      queued s.next_ticket_id,
    )

-- `findIndex` and `splice`
pub remove_ticket : ℕ → List ℕ → List ℕ
remove_ticket t [] = []
remove_ticket t (x ∷ xs) = if x == t then xs else x ∷ remove_ticket t xs

-- The listener of a waiting ticket's signal.
pub on_abort : String → ℕ → Limiter → Limiter
on_abort key t s = elim (get key s.buckets) [
  | none ↦ s
  | some b ↦ record s {
    buckets =
        cleanup_bucket_if_empty key
          (set key (record b { queue = remove_ticket t b.queue }) s.buckets);
  }
]

-- Truncated subtraction is the `Math.max(0, …)`.
pub release : Limits → String → Limiter → Limiter × List ℕ
release lim key s = elim (get key s.buckets) [
  | none ↦ (s, [])
  | some b ↦
      let (m, resolved) =
        promote_next lim key (set key (record b { active = b.active - 1 }) s.buckets) in
      (record s { buckets = m }, resolved)
]

-- The limiter with the keys of the requests that are past their `acquire` and not yet released.
pub record System : Type 0 where
  pub limiter : Limiter
  pub running : List String

pub data Event : Type 0 where
  arrives : String → Signal → Event
  aborts : String → ℕ → Event
  finishes : ℕ → Event  -- which of the running requests

abbrev pub admit : Acquired → String → List String → List String
admit granted key running = key ∷ running
admit _ key running = running

-- The middleware: it waits for `acquire`, calls `next` and releases when `next` is done. The
-- requests whose promises a release resolves go on to `next`.
pub step : Limits → System → Event → System
step lim y (arrives key signal) =
    let (s, r) = acquire lim key signal y.limiter in
    record { limiter = s; running = admit r key y.running }
step lim y (aborts key t) = record y { limiter = on_abort key t y.limiter }
step lim y (finishes i) = elim (get_elem? y.running i) [
  | none ↦ y
  | some key ↦
      let (s, resolved) = release lim key y.limiter in
      record { limiter = s; running = replicate (length resolved) key ++ remove_at i y.running }
]

pub run : Limits → System → List Event → System
run lim y [] = y
run lim y (e ∷ es) = run lim (step lim y e) es

abbrev pub idle : System
idle = record { limiter = record { buckets = []; next_ticket_id = 0 }; running = [] }
