-- ===== src/OfflineQueue/Examples.antt =====
-- Tests of the offline queue of offlineQueue.ts, and inputs at which its properties apply.
use mathlib.Core.List.{Permᴰ}
use pureq.Http.{post}
use pureq.Prelude.Int.{pos, negsuc}
use pureq.Prelude.{
  ℕ, ◌+◌, ◌≡◌, refl, true, false, not, ◌&&◌, Option, none, some, List, [], ◌∷◌, String, keep_if,
  arith,
}
use pureq.OfflineQueue.{
  Request, Queued, Controller, Options, default_options, enqueue, is_expired, sort_pending,
  perform_flush, fulfilled, clone_request_for_queue, insert_sorted, replay_each, remove_all,
}
use pureq.OfflineQueue.Storage.{in_memory}
use pureq.OfflineQueue.Sorting.{sort_pending-sorts, Ordered}
use pureq.OfflineQueue.Flush.{perform_flush_lem, answered, pending_at}
use pureq.OfflineQueue.Enqueue.{run, after, requested, Event}

abbrev order : Request String
order = record {
  method = post;
  url = "/orders";
  params = none;
  query = none;
  body = some "one";
  headers = none;
  timeout = none;
  priority = none;
  meta = none;
  has_signal = true;
}

abbrev urgent : Request String
urgent = record order { url = "/alarm"; priority = some (pos 9) }

abbrev idle : Request String
idle = record order { url = "/log"; priority = some (negsuc 0) }

abbrev hasty : Options
hasty = record default_options { max_queue_size = 3; ttl_ms = some 100 }

abbrev empty : Controller (in_memory String)
empty = record { items = []; next_id = 1 }

abbrev visits : List (Event {B = String} (in_memory String))
visits = requested true 0 order ∷ requested true 50 idle ∷ requested true 60 urgent ∷ []

-- The alarm is answered, the log entry is not.
abbrev server : Queued String → Option ℕ
server x = elim x.req.priority [
  | none ↦ some 201
  | some (pos n) ↦ some 200
  | some (negsuc n) ↦ none
]

abbrev placed : ℕ → ℕ → Request String → Queued String
placed id now r = record {
  id = id;
  req = record r { has_signal = false };
  queued_at = now;
  expires_at = some (now + 100);
}

abbrev stored : List (Queued String)
stored = placed 1 0 order ∷ placed 2 50 idle ∷ placed 3 60 urgent ∷ []

stored_by_the_run : (run (in_memory String) hasty empty visits).items ≡ stored
unfolding run after enqueue clone_request_for_queue
stored_by_the_run = refl

-- At 120 the order has expired; the alarm goes first and is answered, the log entry stays.
flush_in_order :
    perform_flush (in_memory String) server 1 120 stored ≡ (200 ∷ [], placed 2 50 idle ∷ [])
unfolding perform_flush replay_each remove_all sort_pending insert_sorted
flush_in_order = refl

perform_flush_lem_example :
    ((perform_flush (in_memory String) server 2 80 stored).0
      ≡ fulfilled (in_memory String) server (pending_at (in_memory String) server 80 stored))
    × ((perform_flush (in_memory String) server 2 80 stored).1
        ≡ keep_if (λ x. not (is_expired 80 x) && not (answered (in_memory String) server x)) stored)
perform_flush_lem_example = perform_flush_lem (in_memory String) server 2 80 stored (
  (λ e. absurd (omega arith), (λ e. absurd (omega arith), tt)),
  ((λ e. absurd (omega arith), tt), (tt, tt)),
)

sort_pending-sorts_example : Ordered (sort_pending stored) × Permᴰ (sort_pending stored) stored
sort_pending-sorts_example = sort_pending-sorts stored
