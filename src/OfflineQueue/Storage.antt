-- ===== src/OfflineQueue/Storage.antt =====
-- The storage that offlineQueue.ts brings along meets the interface.
use pureq.Prelude.{refl, List, [], length}
use pureq.OfflineQueue.{Queued, QueueStorage, memory_push, memory_remove}

-- `getAll` of the array is a copy of it, and `clear` empties it.
abbrev pub in_memory : (B : Type 0) → QueueStorage B
in_memory B = record {
  State = List (Queued B);
  push = memory_push;
  get_all = λ q. q;
  remove = memory_remove;
  clear = λ q. [];
  size = length;
  get_all-push = λ x q. refl;
  get_all-remove = λ n q. refl;
  get_all-clear = λ q. refl;
  size_lem = λ q. refl;
}
