-- ===== src/OfflineQueue.antt =====
-- packages/pureq/src/middleware/offlineQueue.ts: requests that are queued while the client is
-- offline, and their replay. The queue's storage is an interface with laws (`QueueStorage`);
-- `in_memory` is the implementation that the source brings along. The middleware and `flush` are
-- modelled with no other task at their awaits; hooks, the Web Lock and the policy trace are left
-- out. `replay` and the clock are parameters; what `replay` answers may depend on the queued item, which
-- is replayed once in a flush. `B` is the type of a body, a query or a meta object.
pub mod Storage
pub mod Sorting
pub mod Removal
pub mod Flush
pub mod Enqueue
mod Examples
use pureq.Http.{HttpMethod, post, put, patch, delete, has_method}
use pureq.Prelude.Int.{ℤ, pos, negsuc, pos_part, neg_part, leb_ℤ}
use pureq.Prelude.{
  ℕ, zero, suc, ◌+◌, ◌-◌, ◌≡◌, Bool, true, false, not, ◌&&◌, ◌||◌, Option, none, some, List, [],
  ◌∷◌, ◌++◌, String, ltb, leb, ◌==◌, if◌then◌else◌, number_key, length, keep_if, take, drop, map,
  or_else,
}

pub record Request (B : Type 0) : Type 0 where
  pub method : HttpMethod
  pub url : String
  pub params : Option (List (String × String))
  pub query : Option B
  pub body : Option B
  pub headers : Option (List (String × String))
  pub timeout : Option ℕ
  pub priority : Option ℤ
  pub meta : Option B
  pub has_signal : Bool

pub record Queued (B : Type 0) : Type 0 where
  pub id : ℕ
  pub req : Request B
  pub queued_at : ℕ
  pub expires_at : Option ℕ

-- OfflineQueueStorageAdapter, with what the queue relies on.
pub record QueueStorage (B : Type 0) : Type 1 where
  pub State : Type 0
  pub push : Queued B → State → State
  pub get_all : State → List (Queued B)
  pub remove : ℕ → State → State
  pub clear : State → State
  pub size : State → ℕ
  pub get_all-push : (x : Queued B) (s : State) → get_all (push x s) ≡ get_all s ++ x ∷ []
  pub get_all-remove :
      (n : ℕ) (s : State) → get_all (remove n s) ≡ keep_if (λ x. not (x.id == n)) (get_all s)
  pub get_all-clear : (s : State) → get_all (clear s) ≡ []
  pub size_lem : (s : State) → size s ≡ length (get_all s)

module _ {B : Type 0} where
  -- The signal, and whatever else a request carries, is not kept.
  pub clone_request_for_queue : Request B → Request B
  clone_request_for_queue r = record r { has_signal = false }

  abbrev pub priority_of : Queued B → ℤ
  priority_of x = or_else x.req.priority (pos 0)

  -- `compare(a, b) <= 0`: the higher priority first, and the older request among equals.
  abbrev pub not_after : Queued B → Queued B → Bool
  not_after a b =
      if leb_ℤ (priority_of a) (priority_of b) && leb_ℤ (priority_of b) (priority_of a)
      then leb a.queued_at b.queued_at
      else leb_ℤ (priority_of b) (priority_of a)

  -- The sort of the language is stable: an element goes in front of those it is not after.
  pub insert_sorted : Queued B → List (Queued B) → List (Queued B)
  insert_sorted x [] = x ∷ []
  insert_sorted x (y ∷ ys) = if not_after x y then x ∷ y ∷ ys else y ∷ insert_sorted x ys

  pub sort_pending : List (Queued B) → List (Queued B)
  sort_pending [] = []
  sort_pending (x ∷ xs) = insert_sorted x (sort_pending xs)

  abbrev pub is_expired : ℕ → Queued B → Bool
  is_expired now x = elim x.expires_at [ none ↦ false | some t ↦ ltb t now ]

-- What the middleware does with a request: hands it to `next`, throws, or answers 202.
pub data Answer : Type 0 where
  passed_on queue_full : Answer
  accepted : ℕ → Answer

pub record Options : Type 0 where
  pub methods : List HttpMethod
  pub max_queue_size : ℕ
  pub ttl_ms : Option ℕ

abbrev pub default_options : Options
default_options = record {
  methods = post ∷ put ∷ patch ∷ delete ∷ [];
  max_queue_size = 500;
  ttl_ms = none;
}

abbrev pub queued_item : {B : Type 0} → Options → ℕ → ℕ → Request B → Queued B
queued_item o id now r = record {
  id = id;
  req = clone_request_for_queue r;
  queued_at = now;
  expires_at = elim o.ttl_ms [ none ↦ none | some ttl ↦ some (now + ttl) ];
}

module _ {B : Type 0} (st : QueueStorage B) where
  -- The storage and the counter of the default `generateId`.
  pub record Controller : Type 0 where
    pub items : st.State
    pub next_id : ℕ

  -- As one step: what other tasks do at the awaits between `storage.size()` and `storage.push` is left
  -- out.
  pub enqueue : Options → Bool → ℕ → Request B → Controller → Answer × Controller
  enqueue o offline now r c =
      if not (has_method o.methods r.method) || not offline
      then (passed_on, c)
      else if leb o.max_queue_size (st.size c.items)
      then (queue_full, c)
      else (
        accepted c.next_id,
        record { items = st.push (queued_item o c.next_id now r) c.items; next_id = c.next_id + 1 },
      )

  pub remove_all : List ℕ → st.State → st.State
  remove_all [] s = s
  remove_all (n ∷ ns) s = remove_all ns (st.remove n s)

  -- `replay`: the status of the response, or `none` where it throws.
  module _ (replay : Queued B → Option ℕ) where
    -- The loop for a concurrency of 1 or less.
    pub replay_each : List (Queued B) → st.State → List ℕ × st.State
    replay_each [] s = ([], s)
    replay_each (x ∷ xs) s = elim (replay x) [
      | none ↦ replay_each xs s
      | some status ↦
          let (responses, s') = replay_each xs (st.remove x.id s) in (status ∷ responses, s')
    ]

    -- One batch: the requests that are answered are removed, in any order; the responses are
    -- collected in the order of the batch.
    pub settle_batch : List (Queued B) → st.State → st.State
    settle_batch [] s = s
    settle_batch (x ∷ xs) s = elim (replay x) [
      | none ↦ settle_batch xs s
      | some status ↦ settle_batch xs (st.remove x.id s)
    ]

    pub fulfilled : List (Queued B) → List ℕ
    fulfilled [] = []
    fulfilled (x ∷ xs) = elim (replay x) [
      | none ↦ fulfilled xs
      | some status ↦ status ∷ fulfilled xs
    ]

    -- The loop over the batches; the number of items is fuel enough.
    pub replay_batches : ℕ → ℕ → List (Queued B) → st.State → List ℕ × st.State
    replay_batches zero n xs s = ([], s)
    replay_batches (suc fuel) n [] s = ([], s)
    replay_batches (suc fuel) n (x ∷ xs) s =
        let batch = take n (x ∷ xs) in
        let (responses, s') = replay_batches fuel n (drop n (x ∷ xs)) (settle_batch batch s) in
        (fulfilled batch ++ responses, s')

    pub perform_flush : ℕ → ℕ → st.State → List ℕ × st.State
    perform_flush concurrency now s =
        let raw = st.get_all s in
        let expired = keep_if (is_expired now) raw in
        let s1 = remove_all (map (λ x. x.id) expired) s in
        let pending = sort_pending (keep_if (λ x. not (is_expired now x)) raw) in
        if leb concurrency 1
        then replay_each pending s1
        else replay_batches (length pending) concurrency pending s1

pub record SnapshotItem : Type 0 where
  pub id : ℕ
  pub method : HttpMethod
  pub url : String
  pub queued_at : ℕ
  pub expires_at : Option ℕ
  pub priority : ℤ

pub record Snapshot : Type 0 where
  pub size : ℕ
  pub items : List SnapshotItem

module _ {B : Type 0} where
  pub snapshot_item : Queued B → SnapshotItem
  snapshot_item x = record {
    id = x.id;
    method = x.req.method;
    url = x.req.url;
    queued_at = x.queued_at;
    expires_at = x.expires_at;
    priority = priority_of x;
  }

module _ {B : Type 0} (st : QueueStorage B) where
  pub snapshot : Controller st → Snapshot
  snapshot c =
      let items = st.get_all c.items in
      record { size = length items; items = map snapshot_item items }

  pub clear : Controller st → Controller st
  clear c = record c { items = st.clear c.items }

-- InMemoryQueueStorageAdapter
module _ {B : Type 0} where
  abbrev pub memory_push : Queued B → List (Queued B) → List (Queued B)
  memory_push x q = q ++ x ∷ []

  abbrev pub memory_remove : ℕ → List (Queued B) → List (Queued B)
  memory_remove n q = keep_if (λ x. not (x.id == n)) q
