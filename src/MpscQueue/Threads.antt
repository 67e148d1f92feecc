-- ===== src/MpscQueue/Threads.antt =====
-- The producers, and what holds of a queue while they interleave in any order.
use trantor.Prelude.{ℕ, suc, ◌≤◌, ◌<◌, ◌≡◌, ◌⊎◌, true, some, none}
use trantor.MpscQueue.{MpscQueue}

-- Where a thread stands: `storing prev n` is between the two accesses of `enqueue`, `waking` behind
-- them, before the call of `wakeup`.
pub data Pc : Type 0 where
  idle waking : Pc
  storing : ℕ → ℕ → Pc

-- A store that is still to be made stands between two neighbours.
pub record Owed (q : MpscQueue) (order : ℕ → ℕ) (taken given p n : ℕ) : Type 0 where
  pub at : ℕ
  pub from : taken ≤ at
  pub upto : at < given
  pub prev : p ≡ order at
  pub node : n ≡ order (suc at)
  pub open_end : q.next p ≡ none

-- The k-th node that became the head is at `order k` and holds `items k`; `given` of them there are
-- besides the first node, and the consumer took `taken`.
pub record Inv (q : MpscQueue) (pc : ℕ → Pc) (order items : ℕ → ℕ) (taken given : ℕ) : Type 0 where
  pub bound : taken ≤ given
  pub at_tail : q.tail ≡ order taken
  pub at_head : q.head ≡ order given
  pub live : (k : ℕ) → taken ≤ k → k ≤ given → q.alloc (order k) ≡ true
  pub apart : (j k : ℕ) → taken ≤ j → j ≤ given → taken ≤ k → k ≤ given → order j ≡ order k → j ≡ k
  pub stored : (k : ℕ) → taken < k → k ≤ given → q.datum (order k) ≡ items k
  pub linked :
      (k : ℕ)
      → taken ≤ k
      → k < given
      → (q.next (order k) ≡ some (order (suc k)))
        ⊎ ((i : ℕ) × (pc i ≡ storing (order k) (order (suc k))))
  pub last : q.next (order given) ≡ none
  pub owed : (i p n : ℕ) → pc i ≡ storing p n → Owed q order taken given p n
  pub own : (i j p n m : ℕ) → pc i ≡ storing p n → pc j ≡ storing p m → i ≡ j
