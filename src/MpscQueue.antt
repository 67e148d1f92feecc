-- ===== src/MpscQueue.antt =====
-- utils/LockFreeQueue.h: a queue with many producers and one consumer. The heap is three functions
-- of an address: the node's `next_`, the item behind its `dataPtr_`, and whether the node is
-- allocated; `new` may give any address that is not. Each function is one access of shared memory;
-- a thread that is between the two of `enqueue` is a `storing` of the module Threads.
pub mod Threads
pub mod Exchange
pub mod Store
pub mod Take
mod Tests
use trantor.Prelude.{
  update, ℕ, Bool, true, false, Option, some, none, List, [], ◌∷◌, if◌then◌else◌, ◌==◌,
}

pub record MpscQueue : Type 0 where
  pub next : ℕ → Option ℕ
  pub datum : ℕ → ℕ
  pub alloc : ℕ → Bool
  pub head : ℕ
  pub tail : ℕ

-- The constructor, whose first node is at `n`.
unfoldable pub new_queue : ℕ → MpscQueue
new_queue n = record {
  next = λ _. none;
  datum = λ _. 0;
  alloc = update (λ _. false) n true;
  head = n;
  tail = n;
}

-- `enqueue`, up to the `exchange`: a new node at `n` becomes the head.
unfoldable pub exchange : ℕ → ℕ → MpscQueue → MpscQueue
exchange n x q = record {
  next = update q.next n none;
  datum = update q.datum n x;
  alloc = update q.alloc n true;
  head = n;
  tail = q.tail;
}

-- `prevhead->next_.store(node)`
unfoldable pub store : ℕ → ℕ → MpscQueue → MpscQueue
store prev_head n q = record q { next = update q.next prev_head (some n) }

unfoldable pub dequeue : MpscQueue → Option ℕ × MpscQueue
dequeue q = elim (q.next q.tail) [
  | none ↦ (none, q)
  | some n ↦ (some (q.datum n), record q { tail = n; alloc = update q.alloc q.tail false })
]

unfoldable pub empty : MpscQueue → Bool
empty q = elim (q.next q.tail) [ none ↦ true | some n ↦ false ]
